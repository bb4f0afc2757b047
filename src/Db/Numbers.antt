-- ===== src/Db/Numbers.antt =====
-- The numbers that the log gives, whatever the operating system does.
use go_durable_engine.Prelude.{
  ℕ, ◌+◌, ◌^◌, ◌≤◌, ◌<◌, ◌≡◌, refl, inl, inr, Bool, true, false, Bool-cases, [], arith, length, ltb,
  ◌==◌, if◌then◌else◌, Result, ok, err, Result-cases, Bytes,
}
use go_durable_engine.Wal
use go_durable_engine.Wal.{type_put, type_delete}
use go_durable_engine.Wal.Encode.{next, encode_kv}
use go_durable_engine.Wal.Log.{
  File, Log, Io, Answer, write_frame, header_written, written, maybe_sync, finish_append,
  append_put, append_delete, write_all,
}

-- Numbers of the log.
written-next_seq :
    (l : Log) (p : Bytes) (r : File × Result Wal.Error (Unit {0}))
    → (written l p r).0.next_seq ≡ l.next_seq
written-next_seq l p (f, err e) = refl
written-next_seq l p (f, ok u) = refl

header_written-next_seq :
    (l : Log) (p : Bytes) (a : Answer) (r : File × Result Wal.Error (Unit {0}))
    → (header_written l p a r).0.next_seq ≡ l.next_seq
header_written-next_seq l p a (f, err e) = refl
header_written-next_seq l p a (f, ok u) =
    written-next_seq l p (if length p == 0 then (f, ok tt) else write_all f p a)

write_frame-next_seq :
    (l : Log) (typ : ℕ) (p : Bytes) (o : Io) → (write_frame l typ p o).0.next_seq ≡ l.next_seq
unfolding write_frame
write_frame-next_seq l typ p o = elim (Bool-cases o.injected) [
  | inl t ↦ rw t refl
  | inr f ↦ rw f (elim (Bool-cases (ltb (2 ^ 28) (length p))) [
    | inl t ↦ rw t refl
    | inr g ↦ rw g (header_written-next_seq l p o.payload_write _)
  ])
]

-- How an append ends: with an error, or with the number that it was given, which is the log's.
abbrev pub Numbered : Log → Log × Result Wal.Error ℕ → Type 0
Numbered l (l', err e) = (l.next_seq ≤ l'.next_seq) × (l'.next_seq ≤ l.next_seq + 1)
Numbered l (l', ok seq) = (seq ≡ l.next_seq + 1) × (l'.next_seq ≡ seq)

finish_append-Numbered :
    (l : Log) (o : Io) (r : Log × Result Wal.Error (Unit {0}))
    → r.0.next_seq ≡ l.next_seq + 1
    → Numbered l (finish_append (l.next_seq + 1) o r)
finish_append-Numbered l o (l', err e) q = (omega (arith, q), omega (arith, q))
finish_append-Numbered l o (l', ok u) q = elim (Result-cases (maybe_sync l' o)) [
  | inl (v, e) ↦ rw e (refl, q)
  | inr (x, e) ↦ rw e (omega (arith, q), omega (arith, q))
]

numbered :
    (l : Log) (typ : ℕ) (p : ℕ → Bytes) (o : Io)
    → l.next_seq + 1 < 2 ^ 64
    → Numbered l (
        finish_append
          (next l.next_seq)
          o
          (write_frame (record l { next_seq = next l.next_seq }) typ (p (next l.next_seq)) o))
numbered l typ p o h =
    let wraps : next l.next_seq ≡ l.next_seq + 1 = omega arith in
    rw wraps (
      finish_append-Numbered l o
        (write_frame (record l { next_seq = l.next_seq + 1 }) typ (p (l.next_seq + 1)) o)
        (write_frame-next_seq (record l { next_seq = l.next_seq + 1 }) typ (p (l.next_seq + 1)) o))

if-Numbered :
    (l : Log) (b : Bool) (x y : Log × Result Wal.Error ℕ)
    → Numbered l x
    → Numbered l y
    → Numbered l (if b then x else y)
if-Numbered l true x y h g = h
if-Numbered l false x y h g = g

pub append_put-Numbered :
    (l : Log) (key value : Bytes) (o : Io)
    → l.next_seq + 1 < 2 ^ 64
    → Numbered l (append_put l key value o)
unfolding append_put
append_put-Numbered l key value o h =
    if-Numbered l l.is_closed _ _ (omega arith, omega arith)
      (numbered l type_put (λ seq. encode_kv seq key value) o h)

pub append_delete-Numbered :
    (l : Log) (key : Bytes) (o : Io) → l.next_seq + 1 < 2 ^ 64 → Numbered l (append_delete l key o)
unfolding append_delete
append_delete-Numbered l key o h =
    if-Numbered l l.is_closed _ _ (omega arith, omega arith)
      (numbered l type_delete (λ seq. encode_kv seq key []) o h)
