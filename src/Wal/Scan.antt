-- ===== src/Wal/Scan.antt =====
-- The walks over the log file in internal/wal/replay.go: the valid prefix, and the replay.
-- A read of a range inside the file succeeds and returns its bytes.
use go_durable_engine.Prelude.{
  ℕ, zero, suc, ◌+◌, ◌^◌, ◌%◌, Bool, ◌||◌, Option, none, some, List, [], ◌∷◌, length, take, drop,
  get_or, ltb, leb, ◌==◌, if◌then◌else◌, Result, ok, err, ◌>>=◌, ◌>>◌, guard, or_else, Bytes,
}
use go_durable_engine.Bytes.Endian.{le_value}
use go_durable_engine.Crc.{frame_checksum}
use go_durable_engine.Varint.{decode_uint64}
use go_durable_engine.Wal.{
  Error, cancelled, panic, out_of_fuel, Record, type_put, type_delete, type_batch, header_size,
}
use go_durable_engine.Wal.Decode.{decode_frame}

-- `invalid` is `return 0, false`, and `panics` a slice expression out of range.
pub data PeekError : Type 0 where
  invalid panics : PeekError

-- `varintx.DecodeUint64(payload[off:])`: the number and the bytes read. An `off` that is no offset
-- of the payload, such as a negative int, panics.
unfoldable pub peek_number : Bytes → ℕ → Result PeekError (ℕ × ℕ)
peek_number payload off = do
  guard (leb off (length payload)) panics
  or_else (decode_uint64 (drop off payload)) invalid

-- `off += noff + int(n)`, on the 64 bits of an int.
abbrev pub skip_over : ℕ → ℕ → ℕ → ℕ
skip_over off noff n = (off + noff + n) % 2 ^ 64

-- One round of the batch loop: the number of the entry, and the offset behind it.
unfoldable pub peek_entry : Bytes → ℕ → Result PeekError (ℕ × ℕ)
unfolding peek_number
peek_entry payload off = do
  (seq, n1) ← peek_number payload off
  guard (ltb (off + n1) (length payload)) invalid
  let off2 = off + n1 + 1
  (klen, n2) ← peek_number payload off2
  let off3 = skip_over off2 n2 klen
  (vlen, n3) ← peek_number payload off3
  ok (seq, skip_over off3 n3 vlen)

unfoldable pub peek_entries : ℕ → Bytes → ℕ → ℕ → Result PeekError ℕ
peek_entries zero payload off best = ok best
peek_entries (suc i) payload off best = do
  (seq, off') ← peek_entry payload off
  peek_entries i payload off' (if ltb best seq then seq else best)

unfoldable pub peek_seq : ℕ → Bytes → Result PeekError ℕ
unfolding peek_number peek_entries
peek_seq typ payload =
    if typ == type_put || typ == type_delete
    then (do (seq, n) ← peek_number payload 0; ok seq)
    else if typ == type_batch
    then (do (n, off) ← peek_number payload 0; peek_entries n payload off 0)
    else err invalid

-- `f.ReadAt` of `n` bytes.
unfoldable pub read_at : Bytes → ℕ → ℕ → Option Bytes
read_at file off n = if leb (off + n) (length file) then some (take n (drop off file)) else none

-- A header taken apart: payload length, type, checksum.
pub record Header : Type 0 where
  pub plen : ℕ
  pub typ : ℕ
  pub crc : ℕ

unfoldable pub parse_header : Bytes → Header
parse_header hdr = record {
  plen = le_value (take 4 hdr);
  typ = get_or hdr 4 0;
  crc = le_value (take 4 (drop 5 hdr));
}

-- The checksum test on the payload that was read.
abbrev pub checked : Header → ℕ → Option Bytes → Option (ℕ × Bytes × ℕ)
checked h frame_end none = none
checked h frame_end (some payload) =
    if frame_checksum h.typ payload == h.crc then some (h.typ, payload, frame_end) else none

abbrev pub framed : Bytes → ℕ → ℕ → Header → Option (ℕ × Bytes × ℕ)
framed file size off h =
    let frame_end = off + header_size + h.plen in
    if ltb size frame_end
    then none
    else checked h frame_end (read_at file (off + header_size) h.plen)

abbrev pub headed : Bytes → ℕ → ℕ → Option Bytes → Option (ℕ × Bytes × ℕ)
headed file size off none = none
headed file size off (some hdr) = framed file size off (parse_header hdr)

-- The frame at `off` if it is whole and its checksum is right, with its end; `none` wherever the
-- scan or the replay stops for the frame's own sake.
unfoldable pub frame_at : Bytes → ℕ → ℕ → Option (ℕ × Bytes × ℕ)
unfolding read_at parse_header
frame_at file size off = headed file size off (read_at file off header_size)

abbrev pub is_known : ℕ → Bool
is_known typ = typ == type_put || typ == type_delete || typ == type_batch

-- `maxSeq` after a frame whose number was looked for; a failure leaves it alone, a panic does not.
abbrev pub max_seq_after : ℕ → Result PeekError ℕ → Result Error ℕ
max_seq_after best (ok seq) = ok (if ltb best seq then seq else best)
max_seq_after best (err invalid) = ok best
max_seq_after best (err panics) = err panic

-- The end of the valid prefix and the largest sequence number in it. The code tests the type
-- before it looks at the length and the checksum; each failing test returns the same values.
unfoldable pub scan_loop : ℕ → Bytes → ℕ → ℕ → ℕ → Result Error (ℕ × ℕ)
unfolding frame_at
scan_loop zero file size off best = err out_of_fuel
scan_loop (suc fuel) file size off best =
    if ltb size (off + header_size) then ok (off, best) else elim (frame_at file size off) [
      | none ↦ ok (off, best)
      | some (typ, payload, frame_end) ↦
          if is_known typ
          then (do
            best' ← max_seq_after best (peek_seq typ payload)
            scan_loop fuel file size frame_end best')
          else ok (off, best)
    ]

unfoldable pub scan_valid_prefix : Bytes → ℕ → Result Error (ℕ × ℕ)
unfolding scan_loop
scan_valid_prefix file size = scan_loop (size + 1) file size 0 0

-- `for _, r := range recs { if err := fn(r); err != nil { return err } }`, where `fn` works on a
-- state of its own.
unfoldable pub feed {ℓ} :
    {S : Type ℓ} → (S → Record → Result Error S) → S → List Record → Result Error S
feed fn s [] = ok s
feed fn s (r ∷ recs) = do s' ← fn s r; feed fn s' recs

-- `ctx k` says whether the context is cancelled when it is asked for the `k`-th time.
unfoldable pub replay_loop {ℓ} :
    {S : Type ℓ}
    → ℕ
    → (ℕ → Bool)
    → ℕ
    → (S → Record → Result Error S)
    → Bytes
    → ℕ
    → ℕ
    → S
    → Result Error S
unfolding frame_at feed
replay_loop zero ctx k fn file size off s = err out_of_fuel
replay_loop (suc fuel) ctx k fn file size off s =
    if ltb size (off + header_size)
    then ok s
    else if ctx k
    then err cancelled
    else elim (frame_at file size off) [
      | none ↦ ok s
      | some (typ, payload, frame_end) ↦ (do
        recs ← decode_frame typ payload
        s' ← feed fn s recs
        replay_loop fuel ctx (k + 1) fn file size frame_end s')
    ]
