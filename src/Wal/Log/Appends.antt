-- ===== src/Wal/Log/Appends.antt =====
-- What an append does to the file, and what a restart finds there.
use go_durable_engine.Prelude.{
  ℕ, zero, suc, ◌+◌, ◌-◌, ◌^◌, ◌≤◌, ◌<◌, ◌≡◌, refl, sym, ap, ◌∙◌, true, false, List, [], ◌∷◌, ◌++◌,
  append-nil, append_assoc, arith, length, length-append, take, drop, take-append, drop-nil,
  replicate, ltb, ◌==◌, if◌then◌else◌, ok, err, Bytes, All, All-append, max, min,
}
use go_durable_engine.Wal.{io, header_size}
use go_durable_engine.Wal.Encode.{header, frame}
use go_durable_engine.Wal.Torn.{
  LogFrame, IsLogFrame, frames_bytes, max_last, length-header, length-frame, ==-refl,
}
use go_durable_engine.Wal.Log.{
  File, Answer, Io, Log, write_at, write_all, written, header_written, write_frame,
}

take_whole : (b : Bytes) (n : ℕ) → length b ≤ n → take n b ≡ b
take_whole [] zero h = refl
take_whole [] (suc n) h = refl
take_whole (x ∷ b) zero h = absurd (omega arith)
take_whole (x ∷ b) (suc n) h = ap (λ (t : Bytes). x ∷ t) (take_whole b n (omega arith))

drop_all : (b : Bytes) (n : ℕ) → length b ≤ n → drop n b ≡ []
drop_all [] n h = drop-nil n
drop_all (x ∷ b) zero h = absurd (omega arith)
drop_all (x ∷ b) (suc n) h = drop_all b n (omega arith)

-- A file with its offset at the end, where a write appends.
abbrev pub at_end : Bytes → File
at_end b = record { bytes = b; pos = length b }

write_at-end : (b d : Bytes) → write_at (at_end b) d ≡ at_end (b ++ d)
unfolding write_at
write_at-end b d = λ i. record {
  bytes =
      (take-append b (replicate (length b - length b) 0)) i
      ++ (ap (λ (t : Bytes). d ++ t) (drop_all b (length b + length d) (omega arith))
            ∙ append-nil d)
          i;
  pos = (sym (length-append b d)) i;
}

-- An answer that lets `n` bytes through.
abbrev pub IsFull : ℕ → Answer → Type 0
IsFull n a = (n ≤ a.written) × (a.failed ≡ false)

write_all-full :
    (b d : Bytes) (a : Answer)
    → IsFull (length d) a
    → write_all (at_end b) d a ≡ (at_end (b ++ d), ok tt)
unfolding write_all
write_all-full b d a h =
    let n : min a.written (length d) ≡ length d = omega arith in
    rw n (
      rw (take_whole d (length d) (omega arith))
        (rw (write_at-end b d) (rw (h.1, ==-refl (length d)))))

-- A write that fails leaves a part of the data behind.
write_all-failed :
    (b d : Bytes) (a : Answer)
    → a.failed ≡ true
    → write_all (at_end b) d a ≡ (at_end (b ++ take (min a.written (length d)) d), err io)
unfolding write_all
write_all-failed b d a h = rw (write_at-end b (take (min a.written (length d)) d)) (rw h)

-- The log is in order: its file holds exactly these frames, the offset and the size are the end of
-- the file, and no number in a frame is above the last allocated one.
pub record Holds (l : Log) (fs : List LogFrame) : Type 0 where
  pub bytes : l.file ≡ at_end (frames_bytes fs)
  pub size : l.size ≡ length (frames_bytes fs)
  pub frames : All IsLogFrame fs
  pub seqs : max_last 0 fs ≤ l.next_seq
  pub is_open : l.is_closed ≡ false

-- Nothing goes wrong in an append with this payload.
pub record IsClean (o : Io) (payload : Bytes) : Type 0 where
  pub not_injected : o.injected ≡ false
  pub header_full : IsFull 9 o.header_write
  pub payload_full : IsFull (length payload) o.payload_write
  pub synced : o.sync_fails ≡ false

pub suc-ne-zero : (n : ℕ) → (suc n == 0) ≡ false
suc-ne-zero n = ground arith

payload-full :
    (b payload : Bytes) (a : Answer)
    → IsFull (length payload) a
    → (if length payload == 0 then (at_end b, ok tt) else write_all (at_end b) payload a)
      ≡ (at_end (b ++ payload), ok tt)
payload-full b [] a h = ap (λ (t : Bytes). (at_end t, ok tt)) (sym (append-nil b))
payload-full b (c ∷ payload) a h =
    rw (suc-ne-zero (length payload)) (write_all-full b (c ∷ payload) a h)

-- The log after a whole frame.
abbrev pub extended : Log → Bytes → ℕ → Bytes → Log
extended l b typ payload = record l {
  file = at_end (b ++ frame typ payload);
  size = l.size + (header_size + length payload);
  appends = l.appends + 1;
}

pub write_frame-clean :
    (l : Log) (b payload : Bytes) (typ : ℕ) (o : Io)
    → l.file ≡ at_end b
    → length payload ≤ 2 ^ 28
    → IsClean o payload
    → write_frame l typ payload o ≡ (extended l b typ payload, ok tt)
unfolding write_frame frame
write_frame-clean l b payload typ o e small c =
    let hdr = header typ payload in
    let fits : ltb (2 ^ 28) (length payload) ≡ false = ground arith in
    let n = length-header typ payload in
    let w1 =
      write_all-full b hdr o.header_write (omega (arith, n, c.header_full.0), c.header_full.1) in
    let w2 = payload-full (b ++ hdr) payload o.payload_write c.payload_full in
    rw (c.not_injected, fits)
      (ap (header_written l payload o.payload_write)
          (ap (λ (f : File). write_all f hdr o.header_write) e ∙ w1)
        ∙ ap (written l payload) w2
        ∙ ap (λ (t : Bytes). written l payload (at_end t, ok tt)) (append_assoc b hdr payload))

-- A payload write that fails leaves the header and a part of the payload at the end of the file,
-- and the counters as they were.
pub write_frame-failed :
    (l : Log) (b payload : Bytes) (typ : ℕ) (o : Io)
    → l.file ≡ at_end b
    → length payload ≤ 2 ^ 28
    → 0 < length payload
    → o.injected ≡ false
    → IsFull 9 o.header_write
    → o.payload_write.failed ≡ true
    → write_frame l typ payload o ≡ (
      record l {
        file = at_end (
            (b ++ header typ payload)
            ++ take (min o.payload_write.written (length payload)) payload);
      },
      err io,
    )
unfolding write_frame
write_frame-failed l b payload typ o e small pos inj hf pf =
    let hdr = header typ payload in
    let fits : ltb (2 ^ 28) (length payload) ≡ false = ground arith in
    let nonempty : (length payload == 0) ≡ false = ground arith in
    let n = length-header typ payload in
    let w1 = write_all-full b hdr o.header_write (omega (arith, n, hf.0), hf.1) in
    let w2 = write_all-failed (b ++ hdr) payload o.payload_write pf in
    rw (inj, fits)
      (ap (header_written l payload o.payload_write)
          (ap (λ (f : File). write_all f hdr o.header_write) e ∙ w1)
        ∙ rw nonempty (ap (written l payload) w2))

frames_bytes-snoc :
    (fs : List LogFrame) (f : LogFrame)
    → frames_bytes (fs ++ f ∷ []) ≡ frames_bytes fs ++ frame f.typ f.payload
frames_bytes-snoc [] f = append-nil (frame f.typ f.payload)
frames_bytes-snoc (g ∷ fs) f =
    rw (frames_bytes-snoc fs f)
      (sym (append_assoc (frame g.typ g.payload) (frames_bytes fs) (frame f.typ f.payload)))

max_last-snoc :
    (fs : List LogFrame) (best : ℕ) (f : LogFrame)
    → max_last best (fs ++ f ∷ []) ≡ max (max_last best fs) f.last
max_last-snoc [] best f = refl
max_last-snoc (g ∷ fs) best f = max_last-snoc fs (max best g.last) f

-- A log in order stays so when a frame with the last allocated number is added.
pub extended-Holds :
    (l : Log) (fs : List LogFrame) (f : LogFrame)
    → l.size ≡ length (frames_bytes fs)
    → All IsLogFrame fs
    → max_last 0 fs ≤ l.next_seq
    → l.is_closed ≡ false
    → IsLogFrame f
    → f.last ≤ l.next_seq
    → Holds (extended l (frames_bytes fs) f.typ f.payload) (fs ++ f ∷ [])
extended-Holds l fs f hsize hf hs ho hw hl = record {
  bytes = ap at_end (sym (frames_bytes-snoc fs f));
  size = omega (
    arith,
    ap length (frames_bytes-snoc fs f),
    length-frame f.typ f.payload,
    length-append (frames_bytes fs) (frame f.typ f.payload),
  );
  frames = All-append IsLogFrame fs (f ∷ []) hf (hw, tt);
  seqs = omega (arith, max_last-snoc fs 0 f);
  is_open = ho;
}
