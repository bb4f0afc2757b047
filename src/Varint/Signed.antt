-- ===== src/Varint/Signed.antt =====
-- The signed and the streaming forms of internal/varintx/varint.go. An int64 is its bit pattern, so
-- one from 2 ^ 63 on is negative.
use go_durable_engine.Prelude.{
  ℕ, zero, suc, ◌+◌, ◌-◌, ◌*◌, ◌/◌, ◌%◌, ◌^◌, ◌≤◌, ◌<◌, ◌≡◌, refl, ap, ◌∙◌, bit_and, bit_or, Bool,
  true, false, ◌&&◌, [], ◌∷◌, ◌++◌, arith, length, drop, ltb, leb, ◌==◌, if◌then◌else◌, Result, ok,
  err, ◌>>=◌, Bytes, IsUint64, Bool-cases, inl, inr,
}
use go_durable_engine.Varint.{
  Error, max_uint64_len, size_uint64, encode_uint64, decode_loop, decode_uint64, consume_uint64,
}
use go_durable_engine.Varint.RoundTrip.{decode-encode}

-- `u ^ m`, where `m` has all bits set or none.
abbrev pub flip_all : Bool → ℕ → ℕ
flip_all true u = 2 ^ 64 - 1 - u
flip_all false u = u

-- `x << 1`, and `x >> 63` as the mask.
unfoldable pub zig_zag_encode : ℕ → ℕ
zig_zag_encode x = flip_all (leb (2 ^ 63) x) (x * 2 % 2 ^ 64)

-- `u >> 1`, and `-(u & 1)` as the mask.
unfoldable pub zig_zag_decode : ℕ → ℕ
zig_zag_decode u = flip_all (u % 2 == 1) (u / 2)

unfoldable pub encode_int64 : Bytes → ℕ → Bytes
unfolding zig_zag_encode
encode_int64 dst x = encode_uint64 dst (zig_zag_encode x)

unfoldable pub decode_int64 : Bytes → Result Error (ℕ × ℕ)
unfolding zig_zag_decode
decode_int64 b = do (u, n) ← decode_uint64 b; ok (zig_zag_decode u, n)

unfoldable pub size_int64 : ℕ → ℕ
unfolding zig_zag_encode
size_int64 x = size_uint64 (zig_zag_encode x)

unfoldable pub consume_int64 : Bytes → ℕ → Result Error (ℕ × ℕ)
unfolding zig_zag_decode
consume_int64 b off = do (u, noff) ← consume_uint64 b off; ok (zig_zag_decode u, noff)

-- How a read from a stream ends early; `end_of_input` is the error of `ReadByte`.
pub data ReadError : Type 0 where
  end_of_input too_long cut_short : ReadError

-- The list is what the stream still yields, `k` the number of rounds left.
unfoldable pub read_loop : ℕ → Bytes → ℕ → ℕ → Result ReadError (ℕ × Bytes)
read_loop zero b x s = err too_long
read_loop (suc k) [] x s = if k == max_uint64_len - 1 then err end_of_input else err cut_short
read_loop (suc k) (c ∷ b) x s =
    let more = read_loop k b (bit_or x (bit_and c 0x7f * 2 ^ s % 2 ^ 64)) (s + 7) in
    if ltb c 0x80
    then if k == 0 && ltb 1 c then err too_long else ok (bit_or x (c * 2 ^ s % 2 ^ 64), b)
    else more

unfoldable pub read_uint64 : Bytes → Result ReadError (ℕ × Bytes)
unfolding read_loop
read_uint64 b = read_loop max_uint64_len b 0 0

unfoldable pub read_int64 : Bytes → Result ReadError (ℕ × Bytes)
unfolding read_uint64 zig_zag_decode
read_int64 b = do (u, rest) ← read_uint64 b; ok (zig_zag_decode u, rest)

zig_zag_encode-IsUint64 : (x : ℕ) → IsUint64 x → IsUint64 (zig_zag_encode x)
unfolding zig_zag_encode
zig_zag_encode-IsUint64 x h = ground arith

-- Zig-zag is a bijection of the 64-bit integers: each way undoes the other; and it sends a number
-- below 2 ^ 63 to its double and a negative one, counted from -1 down, to an odd number.
zig_zag_lem :
    (x : ℕ)
    → IsUint64 x
    → (zig_zag_decode (zig_zag_encode x) ≡ x)
      × (zig_zag_encode (zig_zag_decode x) ≡ x)
      × (x < 2 ^ 63 → zig_zag_encode x ≡ 2 * x)
      × (2 ^ 63 ≤ x → zig_zag_encode x ≡ 2 * (2 ^ 64 - 1 - x) + 1)
unfolding zig_zag_encode zig_zag_decode
zig_zag_lem x h = (ground arith, ground arith, λ small. ground arith, λ negative. ground arith)

-- A signed integer is decoded as it was encoded, whatever follows it, and the decoder has read
-- exactly its bytes.
decode_int64-encode_int64 :
    (x : ℕ) (rest : Bytes)
    → IsUint64 x
    → decode_int64 (encode_int64 [] x ++ rest) ≡ ok (x, length (encode_int64 [] x))
unfolding decode_int64 encode_int64
decode_int64-encode_int64 x rest h =
    let u = zig_zag_encode x in
    rw (decode-encode u rest (zig_zag_encode-IsUint64 x h)) (rw ((zig_zag_lem x h).0))

read_loop-decode_loop :
    (b : Bytes) (k i x s v n : ℕ)
    → i + k ≡ 10
    → decode_loop b i x s ≡ ok (v, n)
    → (i < n) × (read_loop k b x s ≡ ok (v, drop (n - i) b))
unfolding read_loop decode_loop
read_loop-decode_loop [] k i x s v n h e = absurd (cc e)
read_loop-decode_loop (c ∷ b) zero i x s v n h e = absurd (ground arith)
read_loop-decode_loop (c ∷ b) (suc k) i x s v n h e =
    let x' = bit_or x (bit_and c 0x7f * 2 ^ s % 2 ^ 64) in
    let more = read_loop-decode_loop b k (i + 1) x' (s + 7) v n (omega arith) in
    elim (Bool-cases (ltb c 0x80)) [
      | inl last ↦
          let fits : (k == 0 && ltb 1 c) ≡ false = ground arith in
          let value : bit_or x (c * 2 ^ s % 2 ^ 64) ≡ v = ground arith in
          let read : n ≡ i + 1 = ground arith in
          let step : n - i ≡ suc zero = omega (arith, read) in
          (omega (arith, read), rw (last, fits, step, value) refl)
      | inr not_last ↦
          let r = more (ground arith) in
          let step : n - i ≡ suc (n - (i + 1)) = omega (arith, r.0) in
          (omega (arith, r.0), rw (not_last, step) (r.1))
    ]

-- The reader of a stream and the decoder of a slice agree on every encoding that the decoder
-- accepts: the same value, and the stream is left behind exactly the bytes that were decoded.
read_uint64-decode_uint64 :
    (b : Bytes) (v n : ℕ) → decode_uint64 b ≡ ok (v, n) → read_uint64 b ≡ ok (v, drop n b)
unfolding read_uint64 decode_uint64
read_uint64-decode_uint64 b v n e =
    let back : n - 0 ≡ n = omega arith in
    (read_loop-decode_loop b 10 0 0 0 v n refl e).1 ∙ ap (λ (k : ℕ). ok (v, drop k b)) back
