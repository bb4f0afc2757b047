-- ===== src/Varint/Decode.antt =====
-- Decoding any input, well formed or not.
use go_durable_engine.Prelude.{
  ℕ, ◌+◌, ◌*◌, ◌%◌, ◌^◌, ◌≤◌, ◌<◌, ◌≡◌, [], ◌∷◌, ◌++◌, arith, length, ok, Bytes, IsUint64, bit_and,
  bit_or,
}
use go_durable_engine.Prelude.Bits.{bit_or-lt}
use go_durable_engine.Varint.{decode_loop, decode_uint64, skip_loop, skip}

decode_loop_takes :
    (b : Bytes) (i x s v n : ℕ)
    → i ≤ 10
    → x < 2 ^ 64
    → decode_loop b i x s ≡ ok (v, n)
    → IsUint64 v × (i < n) × (n ≤ 10) × (n ≤ i + length b)
unfolding decode_loop
decode_loop_takes [] i x s v n hi hx e = cc
decode_loop_takes (c ∷ b) i x s v n hi hx e = ground (
  arith,
  bit_or-lt 64 x (c * 2 ^ s % 2 ^ 64),
  bit_or-lt 64 x (bit_and c 0x7f * 2 ^ s % 2 ^ 64),
  decode_loop_takes b (i + 1) (bit_or x (bit_and c 0x7f * 2 ^ s % 2 ^ 64)) (s + 7) v n,
)

-- Whatever the input, a value that is returned is a uint64, and one to ten bytes were read, all
-- of them in the input.
decode_takes :
    (b : Bytes) (v n : ℕ)
    → decode_uint64 b ≡ ok (v, n)
    → IsUint64 v × (0 < n) × (n ≤ 10) × (n ≤ length b)
unfolding decode_uint64
decode_takes b v n e = ground (arith, decode_loop_takes b 0 0 0 v n)

decode_loop-append :
    (b more : Bytes) (i x s v n : ℕ)
    → decode_loop b i x s ≡ ok (v, n)
    → decode_loop (b ++ more) i x s ≡ ok (v, n)
unfolding decode_loop
decode_loop-append [] more i x s v n e = cc
decode_loop-append (c ∷ b) more i x s v n e = ground (
  arith,
  decode_loop-append b more (i + 1) (bit_or x (bit_and c 0x7f * 2 ^ s % 2 ^ 64)) (s + 7) v n,
)

-- Bytes behind a value do not change what is decoded.
decode-append :
    (b more : Bytes) (v n : ℕ) → decode_uint64 b ≡ ok (v, n) → decode_uint64 (b ++ more) ≡ ok (v, n)
unfolding decode_uint64
decode-append b more v n e = decode_loop-append b more 0 0 0 v n e

skip_loop-decode_loop :
    (b : Bytes) (i x s v n : ℕ) → decode_loop b i x s ≡ ok (v, n) → i ≤ 10 → skip_loop b i ≡ ok n
unfolding decode_loop skip_loop
skip_loop-decode_loop [] i x s v n e h = cc
skip_loop-decode_loop (c ∷ b) i x s v n e h = ground (
  arith,
  skip_loop-decode_loop b (i + 1) (bit_or x (bit_and c 0x7f * 2 ^ s % 2 ^ 64)) (s + 7) v n,
)

-- `skip` moves over exactly the bytes that `decode_uint64` reads, wherever that succeeds.
skip-decode : (b : Bytes) (v n : ℕ) → decode_uint64 b ≡ ok (v, n) → skip b ≡ ok n
unfolding decode_uint64 skip
skip-decode b v n e = skip_loop-decode_loop b 0 0 0 v n e (omega arith)
