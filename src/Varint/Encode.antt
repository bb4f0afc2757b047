-- ===== src/Varint/Encode.antt =====
-- What the encoding loop writes, as groups of seven bits, and its size.
use mathlib.Core.WellFounded.{Acc}
use go_durable_engine.Prelude.{
  ℕ, zero, suc, ◌+◌, ◌/◌, ◌%◌, ◌^◌, ◌≤◌, ◌<◌, ◌≡◌, refl, [], ◌∷◌, ◌++◌, append_assoc, arith, length,
  length-append, ltb, if◌then◌else◌, Bytes, IsByte, IsUint64, All,
}
use go_durable_engine.Prelude.Bits.{set_top}
use go_durable_engine.Varint.{size_loop, size_uint64, encode_loop, encode_uint64}

-- The seven-bit groups of `x`, lowest first; at most `k` of them have a successor.
unfoldable pub groups : ℕ → ℕ → Bytes
groups zero x = x ∷ []
groups (suc k) x =
    let rest = groups k (x / 128) in if ltb x 128 then x ∷ [] else (x % 128 + 128) ∷ rest

encode_loop-groups :
    (k : ℕ) (dst : Bytes) (x : ℕ) (w : Acc ◌<◌ x)
    → x < 128 ^ suc k
    → encode_loop dst x w ≡ dst ++ groups k x
unfolding encode_loop groups
encode_loop-groups zero dst x (Acc.intro _ below) h = ground arith
encode_loop-groups (suc k) dst x (Acc.intro _ below) h = grind (
  arith,
  set_top (x % 256),
  λ (w : Acc ◌<◌ (x / 128)).
      encode_loop-groups k (dst ++ (x % 128 + 128) ∷ []) (x / 128) w (omega arith),
  append_assoc dst ((x % 128 + 128) ∷ []) (groups k (x / 128)),
)

-- Ten groups hold 64 bits.
pub encode_uint64-groups :
    (dst : Bytes) (x : ℕ) → IsUint64 x → encode_uint64 dst x ≡ dst ++ groups 9 x
unfolding encode_uint64
encode_uint64-groups dst x h = encode_loop-groups 9 dst x _ (omega arith)

groups-IsByte : (k x : ℕ) → x < 128 ^ suc k → All IsByte (groups k x)
unfolding groups
groups-IsByte zero x h = omega arith
groups-IsByte (suc k) x h = ground (arith, groups-IsByte k (x / 128) (omega arith))

length-groups : (k x : ℕ) → (1 ≤ length (groups k x)) × (length (groups k x) ≤ k + 1)
unfolding groups
length-groups zero x = omega arith
length-groups (suc k) x = ground (arith, length-groups k (x / 128))

size_loop-groups :
    (k n x : ℕ) (w : Acc ◌<◌ x) → x < 128 ^ suc k → size_loop n x w ≡ n + length (groups k x)
unfolding size_loop groups
size_loop-groups zero n x (Acc.intro _ below) h = ground arith
size_loop-groups (suc k) n x (Acc.intro _ below) h =
    grind (arith, λ (w : Acc ◌<◌ (x / 128)). size_loop-groups k (n + 1) (x / 128) w (omega arith))

size_uint64-groups : (x : ℕ) → IsUint64 x → size_uint64 x ≡ length (groups 9 x)
unfolding size_uint64
size_uint64-groups x h = omega (arith, size_loop-groups 9 0 x _ (omega arith))

-- On every uint64: `size_uint64` is the number of bytes that `encode_uint64` appends, these are
-- one to ten bytes below 256, and `dst` is kept in front.
pub encode_uint64_shape :
    (dst : Bytes) (x : ℕ)
    → IsUint64 x
    → (length (encode_uint64 dst x) ≡ length dst + size_uint64 x)
      × (1 ≤ size_uint64 x)
      × (size_uint64 x ≤ 10)
      × All IsByte (encode_uint64 [] x)
      × (encode_uint64 dst x ≡ dst ++ encode_uint64 [] x)
encode_uint64_shape dst x h =
    let (lo, hi) = length-groups 9 x in
    rw (encode_uint64-groups dst x h, encode_uint64-groups [] x h, size_uint64-groups x h)
      (length-append dst _, lo, hi, groups-IsByte 9 x (omega arith), refl)

pub encode_uint64-onto :
    (dst : Bytes) (x : ℕ) → IsUint64 x → encode_uint64 dst x ≡ dst ++ encode_uint64 [] x
encode_uint64-onto dst x h = (encode_uint64_shape dst x h).4

pub length-encode_uint64 :
    (x : ℕ) → IsUint64 x → (1 ≤ length (encode_uint64 [] x)) × (length (encode_uint64 [] x) ≤ 10)
length-encode_uint64 x h = rw (encode_uint64-groups [] x h) (length-groups 9 x)
