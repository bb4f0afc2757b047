-- ===== src/Examples/Numbers.antt =====
-- Varints and checksums at concrete inputs.
use go_durable_engine.Prelude.{
  ◌^◌, ◌-◌, ◌≡◌, refl, ◌↔◌, true, List, [], ◌∷◌, ◌++◌, arith, length, ok, err, Bytes, IsByte, All,
}
use go_durable_engine.Varint.{encode_uint64, decode_loop, decode_uint64, truncated}
use go_durable_engine.Varint.RoundTrip.{decode-encode}
use go_durable_engine.Crc.{append_checksum_le, check_trailing_le}
use go_durable_engine.Crc.Chain.{check_trailing_le_iff}

-- 300 in two bytes.
abbrev two_bytes : Bytes
two_bytes = 0xac ∷ 0x02 ∷ []

decode_300 : decode_uint64 (two_bytes ++ 7 ∷ []) ≡ ok (300, 2)
unfolding decode_uint64 decode_loop
decode_300 = refl

decode_unended : decode_uint64 (0xac ∷ []) ≡ err truncated
unfolding decode_uint64 decode_loop
decode_unended = refl

decode-encode_example :
    decode_uint64 (encode_uint64 [] (2 ^ 64 - 1) ++ 7 ∷ [])
    ≡ ok (2 ^ 64 - 1, length (encode_uint64 [] (2 ^ 64 - 1)))
decode-encode_example = decode-encode (2 ^ 64 - 1) (7 ∷ []) (omega arith)

abbrev parts : List Bytes
parts = (1 ∷ 2 ∷ []) ∷ [] ∷ (3 ∷ []) ∷ []

parts-All : All (All IsByte) parts
parts-All = ((omega arith, (omega arith, tt)), (tt, ((omega arith, tt), tt)))

check_trailing_le_iff_example :
    (check_trailing_le (1 ∷ 2 ∷ []) ≡ true)
    ↔ ((body : Bytes) × ((1 ∷ 2 ∷ []) ≡ append_checksum_le body body))
check_trailing_le_iff_example = check_trailing_le_iff (1 ∷ 2 ∷ []) (omega arith, (omega arith, tt))
