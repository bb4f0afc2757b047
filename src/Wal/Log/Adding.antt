-- ===== src/Wal/Log/Adding.antt =====
-- An append to a log in order, and the log after it.
use go_durable_engine.Prelude.{
  ℕ, ◌+◌, ◌^◌, ◌%◌, ◌≤◌, ◌<◌, ◌≡◌, refl, ap, ◌∙◌, true, false, List, [], ◌∷◌, ◌++◌, arith, length,
  length-append, ◌==◌, if_false, Result, ok, ◌>>=◌, Bytes, IsUint64, All, ◌⊎◌, inl, inr,
}
use go_durable_engine.Varint.{encode_uint64}
use go_durable_engine.Varint.Encode.{length-encode_uint64}
use go_durable_engine.Wal.{Error, BatchEntry, type_put, type_delete, type_batch}
use go_durable_engine.Wal.Encode.{encode_kv, next, batch_payload}
use go_durable_engine.Wal.Scan.{peek_seq, is_known}
use go_durable_engine.Prelude.Pieces.{IsAt, IsAt-start}
use go_durable_engine.Wal.RoundTrip.Pieces.{encode_kv-sized, sized, length-sized}
use go_durable_engine.Wal.Decode.{decode_batch}
use go_durable_engine.Wal.RoundTrip.Batch.{
  peek_at, Fits, batch_records, decode_batch-batch_payload, entries_size, length-batch_payload,
  length-entries_size,
}
use go_durable_engine.Wal.Torn.{LogFrame, IsLogFrame, frames_bytes}
use go_durable_engine.Wal.Log.{
  Io, Log, write_frame, maybe_sync, finish_append, flushed, append_put, append_delete, append_batch,
}
use go_durable_engine.Wal.Log.Appends.{
  at_end, Holds, IsClean, extended, write_frame-clean, extended-Holds, suc-ne-zero,
}

-- The frame of a put or delete.
abbrev pub kv_frame : ℕ → ℕ → Bytes → Bytes → LogFrame
kv_frame typ seq key value = record { typ = typ; payload = encode_kv seq key value; last = seq }

peek_seq-encode_kv :
    (typ seq : ℕ) (key value : Bytes)
    → (typ ≡ type_put) ⊎ (typ ≡ type_delete)
    → IsUint64 seq
    → length key + length value < 2 ^ 62
    → peek_seq typ (encode_kv seq key value) ≡ ok seq
unfolding peek_seq
peek_seq-encode_kv typ seq key value t hs hl =
    let p = encode_kv seq key value in
    let rest = sized key ++ sized value in
    let pieces = encode_kv-sized seq key value hs (omega arith) (omega arith) in
    let start : IsAt p 0 (encode_uint64 [] seq ++ rest) = rw (← pieces) (IsAt-start p) in
    let n = peek_at seq rest hs start in elim t [ inl e ↦ rw e (rw n) | inr e ↦ rw e (rw n) ]

pub length-encode_kv :
    (seq : ℕ) (key value : Bytes)
    → IsUint64 seq
    → length key + length value < 2 ^ 62
    → length (encode_kv seq key value) ≤ length key + length value + 30
length-encode_kv seq key value hs hl =
    let pieces = encode_kv-sized seq key value hs (omega arith) (omega arith) in
    omega (
      arith,
      ap length pieces,
      length-append (encode_uint64 [] seq) (sized key ++ sized value),
      length-append (sized key) (sized value),
      length-sized key (omega arith),
      length-sized value (omega arith),
      length-encode_uint64 seq hs,
    )

known-put-delete : (typ : ℕ) → (typ ≡ type_put) ⊎ (typ ≡ type_delete) → is_known typ ≡ true
known-put-delete typ t = elim t [ inl e ↦ rw e | inr e ↦ rw e ]

-- A key and a value whose payload `writeFrame` accepts.
abbrev pub Accepted : Bytes → Bytes → Type 0
Accepted key value = length key + length value + 30 ≤ 2 ^ 28

pub kv_frame-IsLogFrame :
    (typ seq : ℕ) (key value : Bytes)
    → (typ ≡ type_put) ⊎ (typ ≡ type_delete)
    → IsUint64 seq
    → Accepted key value
    → IsLogFrame (kv_frame typ seq key value)
kv_frame-IsLogFrame typ seq key value t hs hl = record {
  known = known-put-delete typ t;
  small = omega (arith, length-encode_kv seq key value hs (omega arith));
  found = peek_seq-encode_kv typ seq key value t hs (omega arith);
}

flushed-Holds : (l : Log) (o : Io) (fs : List LogFrame) → Holds l fs → Holds (flushed o l) fs
flushed-Holds l o fs h = record {
  bytes = h.bytes;
  size = h.size;
  frames = h.frames;
  seqs = h.seqs;
  is_open = h.is_open;
}

maybe_sync-clean : (l : Log) (o : Io) → o.sync_fails ≡ false → maybe_sync l o ≡ ok tt
unfolding maybe_sync
maybe_sync-clean l o h = ground arith

-- The log with the next number allocated.
abbrev pub counted : Log → Log
counted l = record l { next_seq = l.next_seq + 1 }

pub append_put-open :
    (l : Log) (key value : Bytes) (o : Io)
    → l.is_closed ≡ false
    → l.next_seq + 1 < 2 ^ 64
    → append_put l key value o
      ≡ finish_append
          (l.next_seq + 1)
          o
          (write_frame (counted l) type_put (encode_kv (l.next_seq + 1) key value) o)
unfolding append_put
append_put-open l key value o h hs =
    let rest : ℕ → Log × Result Error ℕ = λ seq.
      finish_append seq o
        (write_frame (record l { next_seq = seq }) type_put (encode_kv seq key value) o) in
    let wraps : next l.next_seq ≡ l.next_seq + 1 = omega arith in
    if_false l.is_closed _ (rest (next l.next_seq)) h ∙ ap rest wraps

append_delete-open :
    (l : Log) (key : Bytes) (o : Io)
    → l.is_closed ≡ false
    → l.next_seq + 1 < 2 ^ 64
    → append_delete l key o
      ≡ finish_append
          (l.next_seq + 1)
          o
          (write_frame (counted l) type_delete (encode_kv (l.next_seq + 1) key []) o)
unfolding append_delete
append_delete-open l key o h hs =
    let rest : ℕ → Log × Result Error ℕ = λ seq.
      finish_append seq o
        (write_frame (record l { next_seq = seq }) type_delete (encode_kv seq key []) o) in
    let wraps : next l.next_seq ≡ l.next_seq + 1 = omega arith in
    if_false l.is_closed _ (rest (next l.next_seq)) h ∙ ap rest wraps

-- What a clean append comes to, on a file at its end.
pub finish_append-clean :
    (l : Log) (b payload : Bytes) (typ seq : ℕ) (o : Io)
    → l.file ≡ at_end b
    → length payload ≤ 2 ^ 28
    → IsClean o payload
    → finish_append seq o (write_frame l typ payload o)
      ≡ (flushed o (extended l b typ payload), ok seq)
finish_append-clean l b payload typ seq o e small c =
    let l2 = extended l b typ payload in
    ap (finish_append seq o) (write_frame-clean l b payload typ o e small c)
    ∙ ap (λ (r : Result Error (Unit {0})). (flushed o l2, r >>= λ _. ok seq))
        (maybe_sync-clean l2 o c.synced)

-- A put on a log in order, with nothing going wrong: it returns the next sequence number, and the
-- log is in order with exactly one more frame, which holds that number, the key and the value.
pub append_put-Holds :
    (l : Log) (fs : List LogFrame) (key value : Bytes) (o : Io)
    → Holds l fs
    → l.next_seq + 1 < 2 ^ 64
    → Accepted key value
    → IsClean o (encode_kv (l.next_seq + 1) key value)
    → ((append_put l key value o).1 ≡ ok (l.next_seq + 1))
      × ((append_put l key value o).0.next_seq ≡ l.next_seq + 1)
      × Holds (append_put l key value o).0 (fs ++ kv_frame type_put (l.next_seq + 1) key value ∷ [])
append_put-Holds l fs key value o h hs hl c =
    let seq = l.next_seq + 1 in
    let small = length-encode_kv seq key value hs (omega arith) in
    let e =
      append_put-open l key value o h.is_open hs
      ∙ finish_append-clean (counted l) (frames_bytes fs) (encode_kv seq key value) type_put seq o
          h.bytes (omega arith) c in
    rw e (
      refl,
      refl,
      flushed-Holds (extended (counted l) (frames_bytes fs) type_put (encode_kv seq key value)) o _
          (extended-Holds (counted l) fs (kv_frame type_put seq key value) h.size h.frames
            (omega (arith, h.seqs)) h.is_open
            (kv_frame-IsLogFrame type_put seq key value (inl refl) hs hl) (omega arith)),
    )

-- A delete on a log in order, with nothing going wrong: it returns the next sequence number, and
-- the log is in order with exactly one more frame, which holds that number, the key and no value.
pub append_delete-Holds :
    (l : Log) (fs : List LogFrame) (key : Bytes) (o : Io)
    → Holds l fs
    → l.next_seq + 1 < 2 ^ 64
    → Accepted key []
    → IsClean o (encode_kv (l.next_seq + 1) key [])
    → ((append_delete l key o).1 ≡ ok (l.next_seq + 1))
      × ((append_delete l key o).0.next_seq ≡ l.next_seq + 1)
      × Holds (append_delete l key o).0 (fs ++ kv_frame type_delete (l.next_seq + 1) key [] ∷ [])
append_delete-Holds l fs key o h hs hl c =
    let seq = l.next_seq + 1 in
    let small = length-encode_kv seq key [] hs (omega arith) in
    let e =
      append_delete-open l key o h.is_open hs
      ∙ finish_append-clean (counted l) (frames_bytes fs) (encode_kv seq key []) type_delete seq o
          h.bytes (omega arith) c in
    rw e (
      refl,
      refl,
      flushed-Holds (extended (counted l) (frames_bytes fs) type_delete (encode_kv seq key [])) o _
          (extended-Holds (counted l) fs (kv_frame type_delete seq key []) h.size h.frames
            (omega (arith, h.seqs)) h.is_open
            (kv_frame-IsLogFrame type_delete seq key [] (inr refl) hs hl) (omega arith)),
    )

-- The frame of a batch whose last number is `last`.
abbrev pub batch_frame : ℕ → ℕ → List BatchEntry → LogFrame
batch_frame seq last es = record { typ = type_batch; payload = batch_payload seq es; last = last }

append_batch-open :
    (l : Log) (e : BatchEntry) (es : List BatchEntry) (o : Io)
    → l.is_closed ≡ false
    → l.next_seq + length (e ∷ es) < 2 ^ 64
    → append_batch l (e ∷ es) o
      ≡ finish_append (l.next_seq + length (e ∷ es)) o (
          write_frame
            (record l { next_seq = l.next_seq + length (e ∷ es) })
            type_batch
            (batch_payload l.next_seq (e ∷ es))
            o)
unfolding append_batch
append_batch-open l e es o h hs =
    let rest : ℕ → Log × Result Error ℕ = λ seq. finish_append seq o (
      write_frame (record l { next_seq = seq }) type_batch (batch_payload l.next_seq (e ∷ es)) o) in
    let wraps : (l.next_seq + length (e ∷ es)) % 2 ^ 64 ≡ l.next_seq + length (e ∷ es) =
      omega arith in
    if_false l.is_closed _ _ h
    ∙ if_false (length (e ∷ es) == 0) (l, ok l.next_seq)
        (rest ((l.next_seq + length (e ∷ es)) % 2 ^ 64)) (suc-ne-zero (length es))
    ∙ ap rest wraps

-- A batch of at least one entry on a log in order, with nothing going wrong: it returns the number
-- of its last entry, and the log is in order with exactly one more frame, which decodes to one
-- record for each entry, numbered on from the last allocated number.
pub append_batch-Holds :
    (l : Log) (fs : List LogFrame) (e : BatchEntry) (es : List BatchEntry) (o : Io)
    → Holds l fs
    → l.next_seq + length (e ∷ es) < 2 ^ 64
    → All Fits (e ∷ es)
    → entries_size (e ∷ es) + 10 ≤ 2 ^ 28
    → IsClean o (batch_payload l.next_seq (e ∷ es))
    → (let last = l.next_seq + length (e ∷ es) in
        ((append_batch l (e ∷ es) o).1 ≡ ok last)
        × ((append_batch l (e ∷ es) o).0.next_seq ≡ last)
        × Holds (append_batch l (e ∷ es) o).0 (fs ++ batch_frame l.next_seq last (e ∷ es) ∷ [])
        × (decode_batch (batch_payload l.next_seq (e ∷ es))
            ≡ ok (batch_records l.next_seq (e ∷ es))))
append_batch-Holds l fs e es o h hs hf hl c =
    let last = l.next_seq + length (e ∷ es) in
    let payload = batch_payload l.next_seq (e ∷ es) in
    let small = length-batch_payload l.next_seq (e ∷ es) hs hf in
    let back =
      decode_batch-batch_payload l.next_seq e es hs hf (omega (arith, small))
        (omega (arith, length-entries_size (e ∷ es), hl)) in
    let l1 : Log = record l { next_seq = last } in
    let f = batch_frame l.next_seq last (e ∷ es) in
    let run =
      append_batch-open l e es o h.is_open hs
      ∙ finish_append-clean l1 (frames_bytes fs) payload type_batch last o h.bytes
          (omega (arith, small)) c in
    rw run (
      refl,
      refl,
      flushed-Holds (extended l1 (frames_bytes fs) type_batch payload) o _ (
          extended-Holds l1 fs f h.size h.frames (omega (arith, h.seqs)) h.is_open
            (record { known = refl; small = omega (arith, small); found = back.1 }) (omega arith)),
      back.0,
    )
