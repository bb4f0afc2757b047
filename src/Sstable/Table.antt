-- ===== src/Sstable/Table.antt =====
-- The index and the footer of a table: what `Open` finds in a file that `Finish` wrote.
use go_durable_engine.Prelude.{
  ◌*◌, can_make-le, ℕ, ◌+◌, ◌^◌, ◌≤◌, ◌<◌, ◌≡◌, refl, sym, ap, ◌∙◌, false, some, List, [], ◌∷◌,
  ◌++◌, map, append-nil, append_assoc, arith, length, length-append, ltb, leb, ok, Bytes, IsUint64,
  All,
}
use go_durable_engine.Prelude.Pieces.{IsAt, IsAt-start, IsAt-next, IsAt-take}
use go_durable_engine.Bytes.{content}
use go_durable_engine.Bytes.Endian.{le_bytes, length-le_bytes}
use go_durable_engine.Crc.{checksum_castagnoli}
use go_durable_engine.Varint.{encode_uint64, decode_uint64}
use go_durable_engine.Varint.Encode.{encode_uint64-onto, length-encode_uint64}
use go_durable_engine.Varint.RoundTrip.{decode-encode}
use go_durable_engine.Sstable.{IndexRec}
use go_durable_engine.Sstable.Writer.{put_index, index_bytes, with_crc}
use go_durable_engine.Sstable.Reader.{
  index_number, index_key, index_loop, parse_index, index_rec_size,
}
use go_durable_engine.Sstable.Flush.{checked-with_crc}

abbrev pub IsIndexRec : IndexRec → Type 0
IsIndexRec r = (length (content r.last_key) < 2 ^ 62) × IsUint64 r.offset × IsUint64 r.length

-- What is read back of a record: its key is never nil.
abbrev pub stored_rec : IndexRec → IndexRec
stored_rec r = record r { last_key = some (content r.last_key) }

index_pieces : List IndexRec → Bytes
index_pieces [] = []
index_pieces (r ∷ rs) =
    encode_uint64 [] (length (content r.last_key))
    ++ (content r.last_key
        ++ (encode_uint64 [] r.offset ++ (encode_uint64 [] r.length ++ index_pieces rs)))

put_index-pieces :
    (b : Bytes) (rs : List IndexRec) → All IsIndexRec rs → put_index b rs ≡ b ++ index_pieces rs
unfolding put_index index_pieces
put_index-pieces b [] h = sym (append-nil b)
put_index-pieces b (r ∷ rs) h =
    let key = content r.last_key in
    let b1 = b ++ encode_uint64 [] (length key) in
    let b2 = b1 ++ key in
    let b3 = b2 ++ encode_uint64 [] r.offset in
    rw
      (
        encode_uint64-onto b (length key) (omega (arith, h.0.0)),
        encode_uint64-onto b2 r.offset h.0.1,
        encode_uint64-onto b3 r.length h.0.2,
      )
      (put_index-pieces (b3 ++ encode_uint64 [] r.length) rs h.1 ∙ simp append_assoc)

index_number-encode :
    (p : Bytes) (off x : ℕ) (rest : Bytes)
    → IsUint64 x
    → IsAt p off (encode_uint64 [] x ++ rest)
    → index_number p off ≡ ok (x, off + length (encode_uint64 [] x))
unfolding index_number
index_number-encode p off x rest hx h =
    let e = ap decode_uint64 h.tail ∙ decode-encode x rest hx in rw (e) refl

index_key-IsAt :
    (p : Bytes) (off : ℕ) (key rest : Bytes)
    → length p < 2 ^ 63
    → IsAt p off (key ++ rest)
    → index_key p off (length key) ≡ ok key
unfolding index_key
index_key-IsAt p off key rest small h =
    let behind = IsAt-next {p = p} key rest h in
    let g1 : leb (2 ^ 63) (off + length key) ≡ false = ground (arith, behind.within) in
    let g2 : ltb (length p) (off + length key) ≡ false = ground (arith, behind.within) in
    rw (g1, g2, IsAt-take {p = p} key rest h) refl

index_loop-pieces :
    (rs : List IndexRec) (p : Bytes) (off : ℕ)
    → length p < 2 ^ 63
    → All IsIndexRec rs
    → IsAt p off (index_pieces rs)
    → index_loop (length rs) p off ≡ ok (map stored_rec rs)
unfolding index_loop index_pieces
index_loop-pieces [] p off small h at = refl
index_loop-pieces (r ∷ rs) p off small h at =
    let key = content r.last_key in
    let t3 = encode_uint64 [] r.length ++ index_pieces rs in
    let t2 = encode_uint64 [] r.offset ++ t3 in
    let v = encode_uint64 [] (length key) in
    let h1 = IsAt-next {p = p} v (key ++ t2) at in
    let h2 = IsAt-next {p = p} key t2 h1 in
    let h3 = IsAt-next {p = p} (encode_uint64 [] r.offset) t3 h2 in
    let h4 = IsAt-next {p = p} (encode_uint64 [] r.length) (index_pieces rs) h3 in
    rw (index_number-encode p off (length key) (key ++ t2) (omega (arith, h.0.0)) at) (
      rw (index_key-IsAt p _ key t2 small h1) (
        rw (index_number-encode p _ r.offset t3 h.0.1 h2) (
          rw (index_number-encode p _ r.length (index_pieces rs) h.0.2 h3)
            (rw (index_loop-pieces rs p _ small h.1 h4) refl))))

length-with_crc : (b : Bytes) → length (with_crc b) ≡ length b + 4
unfolding with_crc
length-with_crc b = omega (
  arith,
  length-append b (le_bytes 4 (checksum_castagnoli b)),
  length-le_bytes 4 (checksum_castagnoli b),
)

-- The index is read back record by record.
pub parse_index-index_bytes :
    (index : List IndexRec)
    → All IsIndexRec index
    → length (index_bytes index) < 2 ^ 63
    → length index * index_rec_size ≤ 2 ^ 48
    → parse_index (index_bytes index) ≡ ok (map stored_rec index)
unfolding parse_index index_bytes
parse_index-index_bytes index h small few =
    let v = encode_uint64 [] (length index) in
    let body = put_index v index in
    let flat : body ≡ v ++ index_pieces index = put_index-pieces v index h in
    let at0 : IsAt body 0 (v ++ index_pieces index) = rw (← flat) (IsAt-start body) in
    let at1 = IsAt-next {p = body} v (index_pieces index) at0 in
    let short : length body < 2 ^ 63 = omega (arith, small, length-with_crc body) in
    rw (checked-with_crc 4 body (omega arith)) (
      rw (index_number-encode body 0 (length index) (index_pieces index) (omega (arith, few)) at0) (
        rw (can_make-le (length index) index_rec_size few)
          (index_loop-pieces index body _ short h at1)))

-- A bound on the bytes of the index.
abbrev pub index_room : List IndexRec → ℕ
index_room [] = 0
index_room (r ∷ rs) = 30 + length (content r.last_key) + index_room rs

length-index_pieces :
    (rs : List IndexRec) → All IsIndexRec rs → length (index_pieces rs) ≤ index_room rs
unfolding index_pieces
length-index_pieces [] h = omega arith
length-index_pieces (r ∷ rs) h =
    let key = content r.last_key in
    let t3 = encode_uint64 [] r.length ++ index_pieces rs in
    let t2 = encode_uint64 [] r.offset ++ t3 in
    omega (
      arith,
      length-append (encode_uint64 [] (length key)) (key ++ t2),
      length-append key t2,
      length-append (encode_uint64 [] r.offset) t3,
      length-append (encode_uint64 [] r.length) (index_pieces rs),
      (length-encode_uint64 (length key) (omega (arith, h.0.0))).1,
      (length-encode_uint64 r.offset h.0.1).1,
      (length-encode_uint64 r.length h.0.2).1,
      length-index_pieces rs h.1,
    )

pub length-index_bytes :
    (rs : List IndexRec)
    → All IsIndexRec rs
    → IsUint64 (length rs)
    → length (index_bytes rs) ≤ 14 + index_room rs
unfolding index_bytes
length-index_bytes rs h few =
    let v = encode_uint64 [] (length rs) in
    omega (
      arith,
      length-with_crc (put_index v rs),
      ap length (put_index-pieces v rs h),
      length-append v (index_pieces rs),
      (length-encode_uint64 (length rs) few).1,
      length-index_pieces rs h,
    )
