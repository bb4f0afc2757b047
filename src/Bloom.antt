-- ===== src/Bloom.antt =====
-- internal/bloomx: filter.go and builder.go. A `*Filter` here is not nil. An index out of range
-- panics in Go and gives `none` here. The sizes that `New` computes with floating-point logarithms
-- are a parameter.
pub mod Bits
pub mod Members
pub mod Codec
pub mod Built
use go_durable_engine.Prelude.{
  ℕ, zero, suc, ◌+◌, ◌-◌, ◌*◌, ◌/◌, ◌%◌, ◌^◌, bit_and, bit_or, bit_xor, Bool, true, false, not,
  ◌&&◌, Option, none, some, List, [], ◌∷◌, ◌++◌, length, get_elem?, set, replicate, take, drop, ltb,
  ◌==◌, if◌then◌else◌, Result, ok, err, ◌>>=◌, ◌>>◌, guard, Bytes,
}
use go_durable_engine.Crc.{checksum_castagnoli, checksum_ieee}
use go_durable_engine.Bytes.Endian.{le_bytes, le_value}

pub data Error : Type 0 where
  corrupt invalid : Error

abbrev pub magic : ℕ
magic = 0xB100_F11E

abbrev pub version : ℕ
version = 1

pub record Filter : Type 0 where
  pub bits : Bytes
  pub m : ℕ
  pub k : ℕ
  pub n_added : ℕ

unfoldable pub new_with_params : ℕ → ℕ → Filter
new_with_params m_bits k =
    let m = if m_bits == 0 then 64 else m_bits in
    record {
      bits = replicate ((m + 7) % 2 ^ 64 / 8) 0;
      m = m;
      k = if k == 0 then 4 else k;
      n_added = 0;
    }

unfoldable pub mix64 : ℕ → ℕ
mix64 z =
    let z1 = bit_xor z (z / 2 ^ 30) * 0xbf58_476d_1ce4_e5b9 % 2 ^ 64 in
    let z2 = bit_xor z1 (z1 / 2 ^ 27) * 0x94d0_49bb_1331_11eb % 2 ^ 64 in bit_xor z2 (z2 / 2 ^ 31)

unfoldable pub hash_pair : Bytes → ℕ × ℕ
unfolding mix64
hash_pair key =
    let c = checksum_ieee key in
    let h2 = if c == 0 then 0x9e37_79b9_7f4a_7c15 else c in
    let h1 =
      mix64 (bit_xor (checksum_castagnoli key) (length key * 0x9e37_79b9_7f4a_7c15 % 2 ^ 64)) in
    (h1, mix64 (bit_xor h2 h1))

unfoldable pub set_bit : Bytes → ℕ → Option Bytes
set_bit bits i = elim (get_elem? bits (i / 8)) [
  | none ↦ none
  | some c ↦ some (set bits (i / 8) (bit_or c (2 ^ (i % 8))))
]

unfoldable pub get_bit : Bytes → ℕ → Option Bool
get_bit bits i = elim (get_elem? bits (i / 8)) [
  | none ↦ none
  | some c ↦ some (not (bit_and c (2 ^ (i % 8)) == 0))
]

-- `(h1 + uint64(i)*h2) % f.m`
unfoldable pub index : ℕ × ℕ → ℕ → ℕ → ℕ
index h m i = (h.0 + i * h.1) % 2 ^ 64 % m

-- The loop from `i` on, with `n` rounds left.
unfoldable pub add_loop : ℕ → ℕ → ℕ × ℕ → ℕ → Bytes → Option Bytes
add_loop zero i h m bits = some bits
add_loop (suc n) i h m bits = elim (set_bit bits (index h m i)) [
  | none ↦ none
  | some bits' ↦ add_loop n (i + 1) h m bits'
]

unfoldable pub add : Filter → Bytes → Option Filter
unfolding add_loop hash_pair
add f key = if f.m == 0 then some f else elim (add_loop f.k 0 (hash_pair key) f.m f.bits) [
  | none ↦ none
  | some bits ↦ some (record f { bits = bits; n_added = (f.n_added + 1) % 2 ^ 64 })
]

unfoldable pub test_loop : ℕ → ℕ → ℕ × ℕ → ℕ → Bytes → Option Bool
test_loop zero i h m bits = some true
test_loop (suc n) i h m bits = elim (get_bit bits (index h m i)) [
  | none ↦ none
  | some false ↦ some false
  | some true ↦ test_loop n (i + 1) h m bits
]

unfoldable pub may_contain : Filter → Bytes → Option Bool
unfolding test_loop hash_pair
may_contain f key = if f.m == 0 then some true else test_loop f.k 0 (hash_pair key) f.m f.bits

unfoldable pub reset : Filter → Filter
reset f = record f { bits = replicate (length f.bits) 0; n_added = 0 }

-- The loop of `Build`, on the filter that `New` returned.
unfoldable pub add_all : Filter → List Bytes → Option Filter
add_all f [] = some f
add_all f (key ∷ keys) = elim (add f key) [ none ↦ none | some f' ↦ add_all f' keys ]

pub record Builder : Type 0 where
  pub keys : List Bytes

unfoldable pub builder_add : Builder → Bytes → Builder
builder_add b key = record { keys = b.keys ++ key ∷ [] }

-- `sizes n` is what `OptimalBits` and `OptimalHashFuncs` compute for `n` keys.
unfoldable pub build : (ℕ → ℕ × ℕ) → Builder → Option Filter
unfolding add_all
build sizes b =
    let n = if length b.keys == 0 then 1 else length b.keys in
    let (m, k) = sizes n in
    add_all (record { bits = replicate ((m + 7) % 2 ^ 64 / 8) 0; m = m; k = k; n_added = 0 }) b.keys

unfoldable pub merge_bits : Bytes → Bytes → Bytes
merge_bits [] b = []
merge_bits (x ∷ a) [] = x ∷ a
merge_bits (x ∷ a) (y ∷ b) = bit_or x y ∷ merge_bits a b

unfoldable pub merge : Filter → Filter → Result Error Filter
merge f other =
    if f.m == other.m && f.k == other.k && length f.bits == length other.bits
    then ok (record f {
      bits = merge_bits f.bits other.bits;
      n_added = (f.n_added + other.n_added) % 2 ^ 64;
    })
    else err Error.invalid

unfoldable pub marshal_binary : Filter → Bytes
marshal_binary f =
    le_bytes 4 magic
    ++ (version ∷ (le_bytes 8 f.m ++ (le_bytes 4 f.k ++ (le_bytes 8 f.n_added ++ f.bits))))

unfoldable pub unmarshal_binary : Bytes → Result Error Filter
unmarshal_binary b = do
  guard (not (ltb (length b) 25)) Error.corrupt
  guard (le_value (take 4 b) == magic) Error.corrupt
  guard (le_value (take 1 (drop 4 b)) == version) Error.corrupt
  let m = le_value (take 8 (drop 5 b))
  let need = (m + 7) % 2 ^ 64 / 8
  guard (not (ltb (length b) (25 + need))) Error.corrupt
  ok (record {
    bits = take need (drop 25 b);
    m = m;
    k = le_value (take 4 (drop 13 b));
    n_added = le_value (take 8 (drop 17 b));
  })
