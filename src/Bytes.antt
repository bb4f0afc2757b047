-- ===== src/Bytes.antt =====
-- internal/byteutil/bytes.go: comparison, copies, prefixes, padding and fixed-width integers.
-- A slice that may be nil is an `Option`; where the code never asks for nil, it is its content.
pub mod Order
pub mod Endian
pub mod Shape
pub mod Buffer
pub mod Buffered
use Prim.Native.Nat.{compare as compare_nat, Ordering}
use mathlib.Core.List.{reverse}
use go_durable_engine.Prelude.{
  ℕ, zero, suc, ◌+◌, ◌-◌, ◌*◌, ◌/◌, ◌%◌, ◌^◌, ◌≤◌, ◌<◌, Bool, true, false, ◌&&◌, not, Option, none,
  some, List, [], ◌∷◌, ◌++◌, length, take, drop, replicate, ltb, leb, ◌==◌, if◌then◌else◌, bit_xor,
  Result, ok, err, Bytes, min,
}

pub data Error : Type 0 where
  short_buffer overflow : Error

-- A `[]byte` with its nil.
abbrev pub Slice : Type 0
Slice = Option Bytes

abbrev pub content : Slice → Bytes
content none = []
content (some b) = b

-- `bytes.Compare`, whose -1, 0 and 1 are `lt`, `eq` and `gt`.
unfoldable pub compare : Bytes → Bytes → Ordering
compare [] [] = Ordering.eq
compare [] (y ∷ b) = Ordering.lt
compare (x ∷ a) [] = Ordering.gt
compare (x ∷ a) (y ∷ b) = elim (compare_nat x y) [
  | Ordering.lt ↦ Ordering.lt
  | Ordering.eq ↦ compare a b
  | Ordering.gt ↦ Ordering.gt
]

-- `c < 0`, `c <= 0`, `c >= 0`.
abbrev pub is_neg : Ordering → Bool
is_neg Ordering.lt = true
is_neg _ = false

abbrev pub is_nonpos : Ordering → Bool
is_nonpos Ordering.gt = false
is_nonpos _ = true

abbrev pub is_nonneg : Ordering → Bool
is_nonneg Ordering.lt = false
is_nonneg _ = true

abbrev pub is_pos : Ordering → Bool
is_pos Ordering.gt = true
is_pos _ = false

-- `bytes.Equal`
unfoldable pub equal : Bytes → Bytes → Bool
equal [] [] = true
equal [] (y ∷ b) = false
equal (x ∷ a) [] = false
equal (x ∷ a) (y ∷ b) = x == y && equal a b

unfoldable pub clone : Slice → Slice
clone none = none
clone (some b) = some b

-- `n` is an int; a negative one behaves as 0.
clone_n : Slice → ℕ → Slice
clone_n b n = if n == 0 then none else some (take (min n (length (content b))) (content b))

unfoldable pub concat : List Bytes → Bytes
concat [] = []
concat (p ∷ parts) = p ++ concat parts

unfoldable pub shared_prefix_len : Bytes → Bytes → ℕ
shared_prefix_len [] b = 0
shared_prefix_len (x ∷ a) [] = 0
shared_prefix_len (x ∷ a) (y ∷ b) = if x == y then suc (shared_prefix_len a b) else 0

-- `bytes.HasPrefix` and `bytes.HasSuffix`: `b` first, as in the source.
unfoldable pub has_prefix : Bytes → Bytes → Bool
unfolding equal
has_prefix b prefix = leb (length prefix) (length b) && equal (take (length prefix) b) prefix

has_suffix : Bytes → Bytes → Bool
unfolding equal
has_suffix b suffix =
    leb (length suffix) (length b) && equal (drop (length b - length suffix) b) suffix

is_ascii : Bytes → Bool
is_ascii [] = true
is_ascii (c ∷ b) = if leb 0x80 c then false else is_ascii b

pub pad_right : Bytes → ℕ → ℕ → Bytes
pad_right b n pad = if leb n (length b) then b else b ++ replicate (n - length b) pad

-- `i` counts down from the end while the byte before it is 0.
trim_loop : Bytes → ℕ → ℕ
trim_loop b zero = zero
trim_loop b (suc i) =
    let lower = trim_loop b i in if equal (take 1 (drop i b)) (0 ∷ []) then lower else suc i

trim_right_zeros : Bytes → Bytes
unfolding trim_loop equal
trim_right_zeros b = take (trim_loop b (length b)) b

pub fill : Bytes → ℕ → Bytes
fill [] v = []
fill (x ∷ b) v = v ∷ fill b v

xor_loop : Bytes → Bytes → Bytes → Bytes
xor_loop (d ∷ dst) (x ∷ a) (y ∷ b) = bit_xor x y ∷ xor_loop dst a b
xor_loop dst a b = dst

-- The slice `dst` after the call.
xor_into : Bytes → Bytes → Bytes → Result Error Bytes
unfolding xor_loop
xor_into dst a b =
    if not (length a == length b)
    then err short_buffer
    else if ltb (length dst) (length a)
    then err short_buffer
    else ok (xor_loop dst a b)

pub min_bytes : Bytes → Bytes → Bytes
min_bytes a b = if is_nonpos (compare a b) then a else b

pub max_bytes : Bytes → Bytes → Bytes
max_bytes a b = if is_nonneg (compare a b) then a else b

-- `lo != nil && Compare(key, lo) < 0`, and the like above; nil is unbounded.
unfoldable pub below_low : Bytes → Slice → Bool
below_low key none = false
below_low key (some lo) = is_neg (compare key lo)

unfoldable pub beyond_high : Bytes → Slice → Bool
beyond_high key none = false
beyond_high key (some hi) = is_nonneg (compare key hi)

unfoldable pub in_range : Bytes → Slice → Slice → Bool
unfolding below_low beyond_high
in_range key lo hi = if below_low key lo then false else if beyond_high key hi then false else true

pub key_successor : Bytes → Bytes
key_successor k = k ++ 0 ∷ []

estimate_size : List Bytes → ℕ
estimate_size [] = 0
estimate_size (p ∷ parts) = 4 + length p + estimate_size parts
