-- ===== src/Wal/Decode.antt =====
-- The decoding of frames in internal/wal/replay.go.
use go_durable_engine.Prelude.{
  ℕ, zero, suc, ◌+◌, ◌^◌, none, some, List, [], ◌∷◌, length, take, drop, get_elem?, ltb, leb,
  can_make, ◌==◌, if◌then◌else◌, Result, ok, err, ◌>>=◌, ◌>>◌, guard, or_else, Bytes,
}
use go_durable_engine.Bytes.{Slice}
use go_durable_engine.Varint.{decode_uint64}
use go_durable_engine.Wal.{
  Error, corrupt, bad_type, panic, Record, type_put, type_delete, type_batch,
}

-- `append([]byte(nil), b...)` is nil for an empty `b`.
abbrev pub copied : Bytes → Slice
copied [] = none
copied (c ∷ b) = some (c ∷ b)

-- `if off+int(n) > len(payload) { return ErrCorrupt }` and then `payload[off : off+int(n)]`.
-- Where the sum leaves the range of an int it turns negative, passes the test, and the slice
-- expression panics.
unfoldable pub field : Bytes → ℕ → ℕ → Result Error Bytes
field payload off n =
    if leb (2 ^ 63) (off + n)
    then err panic
    else if ltb (length payload) (off + n)
    then err corrupt
    else ok (take n (drop off payload))

-- A varint at `off`, and the offset behind it.
unfoldable pub number_at : Bytes → ℕ → Result Error (ℕ × ℕ)
number_at payload off = do
  (v, noff) ← or_else (decode_uint64 (drop off payload)) corrupt
  ok (v, off + noff)

-- A length, that many bytes, and the offset behind them.
unfoldable pub block_at : Bytes → ℕ → Result Error (Bytes × ℕ)
unfolding number_at field
block_at payload off = do
  (n, off') ← number_at payload off
  b ← field payload off' n
  ok (b, off' + n)

unfoldable pub decode_one : ℕ → Bytes → Result Error Record
unfolding number_at block_at
decode_one typ payload = do
  (seq, off) ← number_at payload 0
  (key, off1) ← block_at payload off
  (val, off2) ← block_at payload off1
  ok (record { typ = typ; key = copied key; value = val; seq = seq; deleted = typ == type_delete })

-- One round of the loop of `decodeBatch`: the record and the offset behind it.
unfoldable pub decode_entry : Bytes → ℕ → Result Error (Record × ℕ)
unfolding number_at block_at
decode_entry payload off = do
  (seq, off1) ← number_at payload off
  guard (ltb off1 (length payload)) corrupt
  typ ← elim (get_elem? payload off1) [ none ↦ err corrupt | some t ↦ ok t ]
  (key, off2) ← block_at payload (off1 + 1)
  (val, off3) ← block_at payload off2
  ok (
    record { typ = typ; key = copied key; value = val; seq = seq; deleted = typ == type_delete },
    off3,
  )

unfoldable pub decode_entries : ℕ → Bytes → ℕ → Result Error (List Record)
decode_entries zero payload off = ok []
decode_entries (suc i) payload off = do
  (r, off') ← decode_entry payload off
  rest ← decode_entries i payload off'
  ok (r ∷ rest)

-- The bytes of a `Record` in memory.
abbrev pub record_size : ℕ
record_size = 72

unfoldable pub decode_batch : Bytes → Result Error (List Record)
unfolding number_at decode_entries
decode_batch payload = do
  (n, off) ← number_at payload 0
  guard (can_make n record_size) panic
  decode_entries n payload off

unfoldable pub decode_frame : ℕ → Bytes → Result Error (List Record)
unfolding decode_one decode_batch
decode_frame typ payload =
    if typ == type_put
    then (do r ← decode_one typ payload; ok (r ∷ []))
    else if typ == type_delete
    then (do r ← decode_one typ payload; ok (r ∷ []))
    else if typ == type_batch
    then decode_batch payload
    else err bad_type
