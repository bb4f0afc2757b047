-- ===== src/Wal/Log/Recovery.antt =====
-- Appends and restarts: what is acknowledged is found again, unless a failed write came before it.
use go_durable_engine.Prelude.{
  ℕ, ◌+◌, ◌^◌, ◌<◌, ◌≡◌, refl, ap, ◌∙◌, Bool, true, false, List, [], ◌∷◌, ◌++◌, append-nil,
  append_assoc, arith, length, length-append, take, take-append, length-take, ltb, ◌==◌,
  if◌then◌else◌, if_false, Result, ok, err, Bytes, All, min,
}
use go_durable_engine.Wal.{Error, io, closed, type_put}
use go_durable_engine.Wal.Encode.{encode_kv, header, frame}
use go_durable_engine.Wal.Torn.{
  LogFrame, IsLogFrame, frames_bytes, max_last, length-frame, IsTorn, cut, scan_valid_prefix-torn,
}
use go_durable_engine.Wal.Log.{
  Io, Options, Log, finish_append, flushed, append_put, open_log, ResetIo, reset,
}
use go_durable_engine.Wal.Log.Appends.{
  at_end, IsFull, Holds, IsClean, extended, write_frame-failed, suc-ne-zero,
}
use go_durable_engine.Wal.Log.Adding.{
  Accepted, counted, length-encode_kv, append_put-open, finish_append-clean,
}

-- The log that a restart yields.
abbrev reopened : List LogFrame → Options → Log
reopened fs opts = record {
  file = at_end (frames_bytes fs);
  opts = opts;
  appends = 0;
  is_closed = false;
  size = length (frames_bytes fs);
  next_seq = max_last 0 fs;
  stable = [];
}

reopened-Holds :
    (fs : List LogFrame) (opts : Options) → All IsLogFrame fs → Holds (reopened fs opts) fs
reopened-Holds fs opts h = record {
  bytes = refl;
  size = refl;
  frames = h;
  seqs = omega arith;
  is_open = refl;
}

abbrev located : Bytes → ℕ → ℕ → Options → Log
located b n seq opts = record {
  file = record { bytes = b; pos = n };
  opts = opts;
  appends = 0;
  is_closed = false;
  size = n;
  next_seq = seq;
  stable = [];
}

-- Cutting the tail off, where there is one.
cut_off :
    (b tail : Bytes) (seq : ℕ) (opts : Options)
    → (if ltb (length b) (length (b ++ tail))
        then located (take (length b) (b ++ tail)) (length b) seq opts
        else located (b ++ tail) (length (b ++ tail)) seq opts)
      ≡ located b (length b) seq opts
cut_off b [] seq opts =
    let same : ltb (length b) (length b) ≡ false = ground arith in rw append-nil (rw same)
cut_off b (x ∷ tail) seq opts =
    let longer : ltb (length b) (length (b ++ x ∷ tail)) ≡ true =
      ground (arith, length-append b (x ∷ tail)) in
    rw longer (rw (take-append b (x ∷ tail)))

open_log-reopened :
    (fs : List LogFrame) (tail : Bytes) (opts : Options)
    → All IsLogFrame fs
    → IsTorn tail
    → open_log (frames_bytes fs ++ tail) opts ≡ ok (reopened fs opts)
unfolding open_log
open_log-reopened [] [] opts h torn = refl
open_log-reopened [] (x ∷ tail) opts h torn =
    let s = scan_valid_prefix-torn [] (x ∷ tail) h torn in
    rw (suc-ne-zero (length tail), s) (ap ok (cut_off [] (x ∷ tail) 0 opts))
open_log-reopened (f ∷ fs) tail opts h torn =
    let b = frames_bytes (f ∷ fs) in
    let s = scan_valid_prefix-torn (f ∷ fs) tail h torn in
    let n = length-append b tail in
    let m = length-append (frame f.typ f.payload) (frames_bytes fs) in
    let nonempty : (length (b ++ tail) == 0) ≡ false =
      ground (arith, n, m, length-frame f.typ f.payload) in
    rw (nonempty, s) (ap ok (cut_off b tail (max_last 0 (f ∷ fs)) opts))

-- A restart on whole frames with a torn tail behind them: the torn bytes are cut off, the log is in
-- order with exactly the whole frames, and its numbers go on behind the largest one in them.
pub open_log-torn :
    (fs : List LogFrame) (tail : Bytes) (opts : Options)
    → All IsLogFrame fs
    → IsTorn tail
    → (l : Log) × (open_log (frames_bytes fs ++ tail) opts ≡ ok l)
      × Holds l fs
      × (l.next_seq ≡ max_last 0 fs)
open_log-torn fs tail opts h torn =
    (reopened fs opts, open_log-reopened fs tail opts h torn, reopened-Holds fs opts h, refl)

if_seq :
    (b : Bool) (x y : Log × Result Error (Unit {0})) (n : ℕ)
    → x.0.next_seq ≡ n
    → y.0.next_seq ≡ n
    → (if b then x else y).0.next_seq ≡ n
if_seq true x y n e e' = e
if_seq false x y n e e' = e'

-- A reset of a log in order whose truncation and seek succeed empties it and returns the result of
-- the sync; whatever fails, the sequence numbers go on where they were.
pub reset-Holds :
    (l : Log) (fs : List LogFrame) (o : ResetIo)
    → Holds l fs
    → (o.truncate_fails ≡ false
        → o.seek_fails ≡ false
        → Holds (reset l o).0 [] × ((reset l o).1 ≡ (if o.sync_fails then err io else ok tt)))
      × ((reset l o).0.next_seq ≡ l.next_seq)
unfolding reset
reset-Holds l fs o h =
    let emptied : Log = record l {
      file = record { bytes = []; pos = 0 };
      size = 0;
      appends = 0;
      stable = [];
    } in
    let synced : Result Error (Unit {0}) = if o.sync_fails then err io else ok tt in
    let sought : Log × Result Error (Unit {0}) =
      if o.seek_fails
      then (record l { file = record { bytes = []; pos = l.file.pos }; stable = [] }, err io)
      else (emptied, synced) in
    let cut_short : Log × Result Error (Unit {0}) =
      if o.truncate_fails then (l, err io) else sought in
    (
      λ cut sought_too.
          let e : reset l o ≡ (emptied, synced) =
            if_false l.is_closed (l, err closed) cut_short h.is_open
            ∙ if_false o.truncate_fails (l, err io) sought cut
            ∙ if_false o.seek_fails _ (emptied, synced) sought_too in
          rw e (
            record {
              bytes = refl;
              size = refl;
              frames = tt;
              seqs = omega arith;
              is_open = h.is_open;
            },
            refl,
          ),
      if_seq l.is_closed _ cut_short _ refl (
          if_seq o.truncate_fails _ sought _ refl
            (if_seq o.seek_fails _ (emptied, synced) _ refl refl)),
    )

-- A put whose payload write fails after some bytes, and then a put that succeeds and is
-- acknowledged. If the bytes that were written by both do not fill the length which the first
-- header announces, a restart finds neither: the log is back at the frames before them.
pub acknowledged_put_lost :
    (l : Log) (fs : List LogFrame) (key value key' value' : Bytes) (o o' : Io) (opts : Options)
    → Holds l fs
    → l.next_seq + 1 + 1 < 2 ^ 64
    → Accepted key value
    → Accepted key' value'
    → o.injected ≡ false
    → IsFull 9 o.header_write
    → o.payload_write.failed ≡ true
    → IsClean o' (encode_kv (l.next_seq + 1 + 1) key' value')
    → o.payload_write.written + length (frame type_put (encode_kv (l.next_seq + 1 + 1) key' value'))
      < length (encode_kv (l.next_seq + 1) key value)
    → (let l1 = append_put l key value o in
        let l2 = append_put l1.0 key' value' o' in
        (l1.1 ≡ err io)
        × (l2.1 ≡ ok (l.next_seq + 1 + 1))
        × (l3 : Log) × (open_log l2.0.file.bytes opts ≡ ok l3)
        × Holds l3 fs)
acknowledged_put_lost l fs key value key' value' o o' opts h hs hl hl' inj hf pf c gap =
    let b = frames_bytes fs in
    let p1 = encode_kv (l.next_seq + 1) key value in
    let p2 = encode_kv (l.next_seq + 1 + 1) key' value' in
    let part = take (min o.payload_write.written (length p1)) p1 in
    let small1 = length-encode_kv (l.next_seq + 1) key value (omega arith) (omega arith) in
    let small2 = length-encode_kv (l.next_seq + 1 + 1) key' value' hs (omega arith) in
    let l1 : Log = record (counted l) { file = at_end ((b ++ header type_put p1) ++ part) } in
    let e1 : append_put l key value o ≡ (l1, err io) =
      append_put-open l key value o h.is_open (omega arith)
      ∙ ap (finish_append (l.next_seq + 1) o) (
          write_frame-failed (counted l) b p1 type_put o h.bytes (omega arith) (omega arith) inj hf
            pf) in
    let b2 = (b ++ header type_put p1) ++ part in
    let l2 = flushed o' (extended (counted l1) b2 type_put p2) in
    let e2 : append_put l1 key' value' o' ≡ (l2, ok (l.next_seq + 1 + 1)) =
      append_put-open l1 key' value' o' h.is_open hs
      ∙ finish_append-clean (counted l1) b2 p2 type_put (l.next_seq + 1 + 1) o' refl (omega arith)
          c in
    let whole : b2 ++ frame type_put p2 ≡ b ++ (header type_put p1 ++ (part ++ frame type_put p2)) =
      simp append_assoc in
    let torn : IsTorn (header type_put p1 ++ (part ++ frame type_put p2)) =
      cut type_put p1 (part ++ frame type_put p2) (omega arith)
        (omega (
          arith,
          length-append part (frame type_put p2),
          length-take (min o.payload_write.written (length p1)) p1,
        ))
        refl in
    let opened =
      open_log-reopened fs (header type_put p1 ++ (part ++ frame type_put p2)) opts h.frames torn in
    rw e1 (
      rw e2 (
        refl,
        refl,
        reopened fs opts,
        ap (λ (t : Bytes). open_log t opts) whole ∙ opened,
        reopened-Holds fs opts h.frames,
      ))
