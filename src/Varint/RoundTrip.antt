-- ===== src/Varint/RoundTrip.antt =====
-- Decoding what was encoded.
use native.Mathlib.Nat.{div-add-mod, mod-eq_of_lt}
use native.Mathlib.Numerals.{towards_suc}
use go_durable_engine.Prelude.{
  ℕ, zero, suc, ◌+◌, ◌*◌, ◌/◌, ◌%◌, ◌^◌, ◌≤◌, ◌<◌, ◌≡◌, ap, [], ◌∷◌, ◌++◌, append_assoc, arith,
  drop-append, length-append, length, ok, Bytes, IsUint64,
}
use go_durable_engine.Prelude.Bits.{low_seven, bit_or_disjoint}
use go_durable_engine.Varint.{encode_uint64, decode_loop, decode_uint64, encode_pair, decode_pair}
use go_durable_engine.Varint.Encode.{groups, encode_uint64-groups, encode_uint64_shape}

-- The tenth byte has one bit left.
tenth_byte : (i w s : ℕ) → s ≡ 7 * i → i ≡ 9 → w * 2 ^ s < 2 ^ 64 → w ≤ 1
tenth_byte i w s e f h = let g : s ≡ 63 = omega arith in omega (arith, rw g at h)

-- One round on a byte with the top bit clear.
last_byte :
    (w x i s : ℕ) (rest : Bytes)
    → s ≡ 7 * i
    → i ≤ 9
    → w < 128
    → x < 2 ^ s
    → w * 2 ^ s < 2 ^ 64
    → decode_loop (w ∷ rest) i x s ≡ ok (x + w * 2 ^ s, i + 1)
unfolding decode_loop
last_byte w x i s rest e hi hw hx fits =
    ground (arith, tenth_byte i w s e, bit_or_disjoint s x w, mod-eq_of_lt fits)

-- One round on a byte with the top bit set over the group `g`.
inner_byte :
    (g x i s : ℕ) (rest : Bytes)
    → i ≤ 9
    → g < 128
    → x < 2 ^ s
    → g * 2 ^ s < 2 ^ 64
    → decode_loop ((g + 128) ∷ rest) i x s ≡ decode_loop rest (i + 1) (x + g * 2 ^ s) (s + 7)
unfolding decode_loop
inner_byte g x i s rest hi hg hx fits =
    ground (arith, low_seven (g + 128), bit_or_disjoint s x g, mod-eq_of_lt fits)

pow_seven : (s : ℕ) → 2 ^ (s + 7) ≡ 128 * 2 ^ s
pow_seven s = simp towards_suc (omega arith)

-- A number in its place is its lowest group there and the others seven bits up.
grouped : (s x : ℕ) → x * 2 ^ s ≡ x % 128 * 2 ^ s + x / 128 * 2 ^ (s + 7)
grouped s x =
    let up = ap (λ (p : ℕ). x / 128 * p) (pow_seven s) in
    let parts = ap (λ (y : ℕ). y * 2 ^ s) (div-add-mod x 128) in omega (arith, up, parts)

-- The accumulator stays below the shift.
accumulated : (g x s : ℕ) → g < 128 → x < 2 ^ s → x + g * 2 ^ s < 2 ^ (s + 7)
accumulated g x s hg hx = rw pow_seven (grind arith)

decode_loop-groups :
    (k w x i s : ℕ) (rest : Bytes)
    → s ≡ 7 * i
    → k + i ≡ 9
    → w < 128 ^ suc k
    → x < 2 ^ s
    → w * 2 ^ s < 2 ^ 64
    → decode_loop (groups k w ++ rest) i x s ≡ ok (x + w * 2 ^ s, i + length (groups k w))
unfolding groups
decode_loop-groups zero w x i s rest e f hw hx fits =
    last_byte w x i s rest e (omega arith) hw hx fits
decode_loop-groups (suc k) w x i s rest e f hw hx fits = ground (
  arith,
  last_byte w x i s rest e (omega arith),
  grouped s w,
  inner_byte (w % 128) x i s (groups k (w / 128) ++ rest),
  accumulated (w % 128) x s (omega arith) hx,
  decode_loop-groups k (w / 128) (x + w % 128 * 2 ^ s) (i + 1) (s + 7) rest,
)

-- For every uint64 and whatever follows, decoding gives back the value and reads exactly the
-- bytes of its encoding.
pub decode-encode :
    (x : ℕ) (rest : Bytes)
    → IsUint64 x
    → decode_uint64 (encode_uint64 [] x ++ rest) ≡ ok (x, length (encode_uint64 [] x))
unfolding decode_uint64
decode-encode x rest h =
    rw (encode_uint64-groups [] x h) (ground (arith, decode_loop-groups 9 x 0 0 0 rest))

-- Two encoded values in a row are read back by `decode_pair`, which reports both lengths.
decode_pair-encode_pair :
    (a b : ℕ) (rest : Bytes)
    → IsUint64 a
    → IsUint64 b
    → decode_pair (encode_pair [] a b ++ rest) ≡ ok (a, b, length (encode_pair [] a b))
unfolding decode_pair encode_pair
decode_pair-encode_pair a b rest ha hb =
    let kept = (encode_uint64_shape (encode_uint64 [] a) b hb).4 in
    rw (kept, append_assoc, decode-encode a (encode_uint64 [] b ++ rest) ha)
      (rw (drop-append (encode_uint64 [] a) (encode_uint64 [] b ++ rest), decode-encode b rest hb)
        (rw (length-append (encode_uint64 [] a) (encode_uint64 [] b))))
