-- ===== src/Prelude/Bits.antt =====
-- Bitwise operations as arithmetic. The libraries have only their definition by binary digits.
use Prim.Native.Nat.{
  ℕ, zero, suc, ◌+◌, ◌*◌, ◌/◌, ◌%◌, ◌^◌, ◌≤◌, ◌<◌, max, bit_and, bit_or, bit_xor, digits, bitwise,
  differ, bit_or-bitwise, bit_xor-bitwise, bit_and-bitwise, min,
}
use mathlib.Core.Path.{◌≡◌, refl, ap}
use mathlib.Core.Bool.{Bool, true, ◌&&◌}
use native.Mathlib.Nat.{pow-suc}
use native.Mathlib.Omega.{arith}
use go_durable_engine.Prelude.Tests.{◌==◌, ==_iff}

-- A statement on numbers below a bound, checked value by value.
holds_below : ℕ → (ℕ → Bool) → Bool
holds_below zero p = true
holds_below (suc n) p = p n && holds_below n p

holds_below-at : (n : ℕ) (p : ℕ → Bool) (x : ℕ) → holds_below n p ≡ true → x < n → p x ≡ true
unfolding holds_below
holds_below-at zero p x h lt = absurd (omega arith)
holds_below-at (suc n) p x h lt = ground (arith, holds_below-at n p x)

-- `b & 0x7f`, `b & 0x80` and `b | 0x80` on a byte.
low_seven_table : holds_below 256 (λ x. bit_and x 0x7f == x % 128) ≡ true
unfolding holds_below
low_seven_table = refl

pub low_seven : (b : ℕ) → b < 256 → bit_and b 0x7f ≡ b % 128
low_seven b h = (==_iff _ _).0 (holds_below-at 256 _ b low_seven_table h)

set_top_table : holds_below 256 (λ x. bit_or x 0x80 == x % 128 + 128) ≡ true
unfolding holds_below
set_top_table = refl

pub set_top : (b : ℕ) → b < 256 → bit_or b 0x80 ≡ b % 128 + 128
set_top b h = (==_iff _ _).0 (holds_below-at 256 _ b set_top_table h)

-- An operation by binary digits, without the fuel of its definition: `z` is what it does beside an
-- exhausted left operand, `f` what it does to two digits.
module _ (z : ℕ → ℕ) (f : ℕ → ℕ → ℕ) where
  enough_fuel : (m n a b : ℕ) → a ≤ m → a ≤ n → digits z f m a b ≡ digits z f n a b
  enough_fuel zero zero zero b h k = refl
  enough_fuel zero zero (suc a) b h k = absurd (omega arith)
  enough_fuel zero (suc n) zero b h k = refl
  enough_fuel zero (suc n) (suc a) b h k = absurd (omega arith)
  enough_fuel (suc m) zero zero b h k = refl
  enough_fuel (suc m) zero (suc a) b h k = absurd (omega arith)
  enough_fuel (suc m) (suc n) zero b h k = refl
  enough_fuel (suc m) (suc n) (suc a) b h k =
      rw (enough_fuel m n (suc a / 2) (b / 2) (omega arith) (omega arith))

  lowest_digit :
      (a b : ℕ)
      → bitwise z f (suc a) b ≡ bitwise z f (suc a / 2) (b / 2) * 2 + f (suc a % 2) (b % 2)
  lowest_digit a b =
      omega (arith, enough_fuel a (suc a / 2) (suc a / 2) (b / 2) (omega arith) (omega arith))

or_digit : (a b : ℕ) → bit_or a b ≡ bit_or (a / 2) (b / 2) * 2 + max (a % 2) (b % 2)
or_digit zero b = simp bit_or-bitwise (omega arith)
or_digit (suc a) b = simp bit_or-bitwise (lowest_digit (λ y. y) max a b)

xor_digit : (a b : ℕ) → bit_xor a b ≡ bit_xor (a / 2) (b / 2) * 2 + differ (a % 2) (b % 2)
xor_digit zero b = simp bit_xor-bitwise (omega arith)
xor_digit (suc a) b = simp bit_xor-bitwise (lowest_digit (λ y. y) differ a b)

zero-bit_or : (b : ℕ) → bit_or 0 b ≡ b
zero-bit_or b = bit_or-bitwise 0 b

-- `a | (c << k)` adds, when `a` fits the `k` bits below.
pub bit_or_disjoint : (k a c : ℕ) → a < 2 ^ k → bit_or a (c * 2 ^ k) ≡ a + c * 2 ^ k
bit_or_disjoint zero zero c h = omega (arith, zero-bit_or (c * 2 ^ 0))
bit_or_disjoint zero (suc a) c h = absurd (omega arith)
bit_or_disjoint (suc k) a c h = omega (
  arith,
  or_digit a (c * 2 ^ suc k),
  ap (λ (t : ℕ). c * t) (pow-suc 2 k),
  pow-suc 2 k,
  ap (bit_or (a / 2)) half,
  bit_or_disjoint k (a / 2) c (omega (arith, pow-suc 2 k)),
)
  where
    half : c * 2 ^ suc k / 2 ≡ c * 2 ^ k
    half = omega (arith, ap (λ (t : ℕ). c * t) (pow-suc 2 k))

differ-lt : (a b n : ℕ) → a < n → b < n → differ a b < n
differ-lt zero b n h g = g
differ-lt (suc a) zero n h g = h
differ-lt (suc a) (suc b) n h g = differ-lt a b n (omega arith) (omega arith)

digits-differ-lt : (a b : ℕ) → differ (a % 2) (b % 2) < 2
digits-differ-lt a b = differ-lt (a % 2) (b % 2) 2 (omega arith) (omega arith)

-- `|` and `^` of two numbers of `k` bits have `k` bits.
pub bit_xor-lt : (k a b : ℕ) → a < 2 ^ k → b < 2 ^ k → bit_xor a b < 2 ^ k
bit_xor-lt zero zero zero h g = omega arith
bit_xor-lt zero zero (suc b) h g = absurd (omega arith)
bit_xor-lt zero (suc a) b h g = absurd (omega arith)
bit_xor-lt (suc k) a b h g = omega (
  arith,
  xor_digit a b,
  digits-differ-lt a b,
  pow-suc 2 k,
  bit_xor-lt k (a / 2) (b / 2) (omega (arith, pow-suc 2 k)) (omega (arith, pow-suc 2 k)),
)

pub bit_or-lt : (k a b : ℕ) → a < 2 ^ k → b < 2 ^ k → bit_or a b < 2 ^ k
bit_or-lt zero zero zero h g = omega arith
bit_or-lt zero zero (suc b) h g = absurd (omega arith)
bit_or-lt zero (suc a) b h g = absurd (omega arith)
bit_or-lt (suc k) a b h g = omega (
  arith,
  or_digit a b,
  pow-suc 2 k,
  bit_or-lt k (a / 2) (b / 2) (omega (arith, pow-suc 2 k)) (omega (arith, pow-suc 2 k)),
)

and_digit : (a b : ℕ) → bit_and a b ≡ bit_and (a / 2) (b / 2) * 2 + min (a % 2) (b % 2)
and_digit zero b = simp bit_and-bitwise (omega arith)
and_digit (suc a) b = simp bit_and-bitwise (lowest_digit (λ y. zero) min a b)

bit_or_parts :
    (a b : ℕ) → (bit_or a b / 2 ≡ bit_or (a / 2) (b / 2)) × (bit_or a b % 2 ≡ max (a % 2) (b % 2))
bit_or_parts a b = (omega (arith, or_digit a b), omega (arith, or_digit a b))

bit_and_self_below : (k d : ℕ) → d < 2 ^ k → bit_and d d ≡ d
bit_and_self_below zero d h = (let e : d ≡ 0 = omega arith in rw e refl)
bit_and_self_below (suc k) d h =
    omega
      (arith, and_digit d d, pow-suc 2 k, bit_and_self_below k (d / 2) (omega (arith, pow-suc 2 k)))

bit_and-bit_or_step :
    (a b d : ℕ)
    → bit_and (bit_or a b) d
      ≡ bit_and (bit_or (a / 2) (b / 2)) (d / 2) * 2 + min (max (a % 2) (b % 2)) (d % 2)
bit_and-bit_or_step a b d = let p = bit_or_parts a b in rw (and_digit (bit_or a b) d, p.0, p.1) refl

-- A digit that both numbers have stays when digits are set in the first.
bit_and-bit_or_below :
    (k a b d : ℕ)
    → a < 2 ^ k
    → b < 2 ^ k
    → (bit_and a d ≤ bit_and (bit_or a b) d) × (bit_and b d ≤ bit_and (bit_or a b) d)
bit_and-bit_or_below zero a b d ha hb =
    let ea : a ≡ 0 = omega arith in
    let eb : b ≡ 0 = omega arith in rw (ea, eb) (omega arith, omega arith)
bit_and-bit_or_below (suc k) a b d ha hb =
    let ih =
      bit_and-bit_or_below k (a / 2) (b / 2) (d / 2) (omega (arith, pow-suc 2 k))
        (omega (arith, pow-suc 2 k)) in
    (
      omega (arith, bit_and-bit_or_step a b d, and_digit a d, ih.0),
      omega (arith, bit_and-bit_or_step a b d, and_digit b d, ih.1),
    )

pub below_pow : (n : ℕ) → n < 2 ^ n
below_pow zero = omega arith
below_pow (suc n) = omega (arith, pow-suc 2 n, below_pow n)

below_pow_sum : (a b : ℕ) → (a < 2 ^ (a + b)) × (b < 2 ^ (a + b))
below_pow_sum zero b =
    let e : zero + b ≡ b = omega arith in
    rw e (omega (arith, below_pow b), omega (arith, below_pow b))
below_pow_sum (suc a) b =
    let e : suc a + b ≡ suc (a + b) = omega arith in
    let ih = below_pow_sum a b in
    (
      omega (arith, ap (λ (t : ℕ). 2 ^ t) e, pow-suc 2 (a + b), ih.0),
      omega (arith, ap (λ (t : ℕ). 2 ^ t) e, pow-suc 2 (a + b), ih.1, ih.0),
    )

-- `a & d` of a number with more digits set, and `(a | d) & d`.
pub bit_and-bit_or_grows : (a b d : ℕ) → bit_and a d ≤ bit_and (bit_or a b) d
bit_and-bit_or_grows a b d =
    let k = below_pow_sum a b in (bit_and-bit_or_below (a + b) a b d k.0 k.1).0

bit_and-bit_or_other : (a b d : ℕ) → bit_and b d ≤ bit_and (bit_or a b) d
bit_and-bit_or_other a b d =
    let k = below_pow_sum a b in (bit_and-bit_or_below (a + b) a b d k.0 k.1).1

pub bit_and-bit_or_set : (a d : ℕ) → d ≤ bit_and (bit_or a d) d
bit_and-bit_or_set a d =
    omega (arith, bit_and-bit_or_other a d d, bit_and_self_below d d (below_pow d))
