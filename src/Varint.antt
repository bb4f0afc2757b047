-- ===== src/Varint.antt =====
-- internal/varintx/varint.go: unsigned and zig-zag integers of 64 bits in 1 to 10 bytes.
-- A uint64 is a number below 2 ^ 64, and a byte one below 256. An int64 is its bit pattern.
pub mod Encode
pub mod Decode
pub mod RoundTrip
pub mod Signed
use mathlib.Core.Logic.{dite}
use mathlib.Core.WellFounded.{Acc}
use go_durable_engine.Prelude.{
  ℕ, zero, suc, ◌+◌, ◌-◌, ◌*◌, ◌/◌, ◌%◌, ◌^◌, ◌<◌, bit_and, bit_or, bit_xor, Bool, ◌&&◌, List, [],
  ◌∷◌, ◌++◌, arith, length, drop, ltb, leb, ◌==◌, if◌then◌else◌, dec_lt,
}
use go_durable_engine.Prelude.{Result, ok, err, ◌>>=◌, ◌>>◌, guard, Bytes}
use go_durable_engine.Prelude.Order.{lt_wf}

pub data Error : Type 0 where
  overflow short_buffer truncated : Error

abbrev pub max_uint64_len : ℕ
max_uint64_len = 10

-- What `x >>= 7` leaves of a number that is not below 0x80.
shift_falls : (x : ℕ) → ¬ (x < 0x80) → x / 128 < x
shift_falls x h = omega arith

shift_pos_falls : (x : ℕ) → 0 < x / 128 → x / 128 < x
shift_pos_falls x h = omega arith

-- The loop adds a byte for each shift of `x`, until 0 is left.
size_loop : ℕ → (x : ℕ) → Acc ◌<◌ x → ℕ
size_loop n x (Acc.intro _ below) =
    dite (dec_lt 0 (x / 128))
      (λ more. size_loop (n + 1) (x / 128) (below _ (shift_pos_falls x more))) (λ _. n + 1)

pub size_uint64 : ℕ → ℕ
size_uint64 x = size_loop 0 x (lt_wf.apply x)

encode_loop : Bytes → (x : ℕ) → Acc ◌<◌ x → Bytes
encode_loop dst x (Acc.intro _ below) =
    dite (dec_lt x 0x80) (λ _. dst ++ x % 256 ∷ [])
      (λ big.
        encode_loop (dst ++ bit_or (x % 256) 0x80 ∷ []) (x / 128) (below _ (shift_falls x big)))

pub encode_uint64 : Bytes → ℕ → Bytes
encode_uint64 dst x = encode_loop dst x (lt_wf.apply x)

-- The list is what the range loop has left; `i` is the index of its head, `x` and `s` the
-- accumulator and the shift. `s` stays below 70, so it cannot wrap.
unfoldable pub decode_loop : Bytes → ℕ → ℕ → ℕ → Result Error (ℕ × ℕ)
decode_loop [] i x s = err truncated
decode_loop (c ∷ b) i x s =
    let more = decode_loop b (i + 1) (bit_or x (bit_and c 0x7f * 2 ^ s % 2 ^ 64)) (s + 7) in
    if i == max_uint64_len
    then err overflow
    else if ltb c 0x80
    then (if i == max_uint64_len - 1 && ltb 1 c
        then err overflow
        else ok (bit_or x (c * 2 ^ s % 2 ^ 64), i + 1))
    else more

-- The value and the number of bytes read.
unfoldable pub decode_uint64 : Bytes → Result Error (ℕ × ℕ)
decode_uint64 b = decode_loop b 0 0 0

decode_uint32 : Bytes → Result Error (ℕ × ℕ)
decode_uint32 b = do (x, n) ← decode_uint64 b; guard (leb x 0xffff_ffff) overflow; ok (x, n)

skip_loop : Bytes → ℕ → Result Error ℕ
skip_loop [] i = err truncated
skip_loop (c ∷ b) i =
    let more = skip_loop b (i + 1) in
    if leb max_uint64_len i then err overflow else if ltb c 0x80 then ok (i + 1) else more

pub skip : Bytes → Result Error ℕ
skip b = skip_loop b 0

-- `off` is an int that may be negative in Go; here it is a number.
pub consume_uint64 : Bytes → ℕ → Result Error (ℕ × ℕ)
consume_uint64 b off = do
  guard (leb off (length b)) short_buffer
  (v, n) ← decode_uint64 (drop off b)
  ok (v, off + n)

pub encode_pair : Bytes → ℕ → ℕ → Bytes
encode_pair dst a b = encode_uint64 (encode_uint64 dst a) b

pub decode_pair : Bytes → Result Error (ℕ × ℕ × ℕ)
decode_pair buf = do
  (a, n1) ← decode_uint64 buf
  (b, n2) ← decode_uint64 (drop n1 buf)
  ok (a, b, n1 + n2)
