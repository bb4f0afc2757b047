-- ===== src/Bytes/Order.antt =====
-- The order of keys, and what is built on it.
use Prim.Native.Nat.{Ordering}
use go_durable_engine.Prelude.{
  ◌≡◌, ◌≢◌, refl, sym, ap, ◌∙◌, ◌↔◌, ◌⊎◌, true, none, some, [], ◌∷◌, arith, Bytes,
}
use go_durable_engine.Bytes.{
  is_neg, compare, is_nonpos, equal, min_bytes, max_bytes, in_range, key_successor,
}

-- `a` sorts before `b`.
abbrev pub Before : Bytes → Bytes → Type 0
Before a b = compare a b ≡ Ordering.lt

pub compare_refl : (a : Bytes) → compare a a ≡ Ordering.eq
unfolding compare
compare_refl [] = refl
compare_refl (x ∷ a) = ground (arith, compare_refl a)

pub compare-eq : (a b : Bytes) → compare a b ≡ Ordering.eq → a ≡ b
unfolding compare
compare-eq [] [] e = refl
compare-eq [] (y ∷ b) e = cc
compare-eq (x ∷ a) [] e = cc
compare-eq (x ∷ a) (y ∷ b) e = ground (arith, compare-eq a b)

pub compare-gt : (a b : Bytes) → compare a b ≡ Ordering.gt → Before b a
unfolding compare
compare-gt [] [] e = cc
compare-gt [] (y ∷ b) e = cc
compare-gt (x ∷ a) [] e = refl
compare-gt (x ∷ a) (y ∷ b) e = ground (arith, compare-gt a b)

pub Before-gt : (a b : Bytes) → Before a b → compare b a ≡ Ordering.gt
unfolding compare
Before-gt [] [] e = cc
Before-gt [] (y ∷ b) e = refl
Before-gt (x ∷ a) [] e = cc
Before-gt (x ∷ a) (y ∷ b) e = ground (arith, Before-gt a b)

pub Before-trans : (a b c : Bytes) → Before a b → Before b c → Before a c
unfolding compare
Before-trans [] [] c h g = g
Before-trans [] (y ∷ b) [] h g = cc
Before-trans [] (y ∷ b) (z ∷ c) h g = refl
Before-trans (x ∷ a) [] c h g = cc
Before-trans (x ∷ a) (y ∷ b) [] h g = cc
Before-trans (x ∷ a) (y ∷ b) (z ∷ c) h g = ground (arith, Before-trans a b c)

Before-irrefl : (a : Bytes) → ¬ Before a a
Before-irrefl a h = cc (compare_refl a)

pub is_neg-Before : (a b : Bytes) → is_neg (compare a b) ≡ true → Before a b
is_neg-Before a b e = ground (arith)

pub Before-is_neg : (a b : Bytes) → Before a b → is_neg (compare a b) ≡ true
Before-is_neg a b e = rw e refl

pub equal-compare : (a b : Bytes) → (equal a b ≡ true) ↔ (compare a b ≡ Ordering.eq)
unfolding equal compare
equal-compare [] [] = (λ _. refl, λ _. refl)
equal-compare [] (y ∷ b) = (λ e. cc, λ e. cc)
equal-compare (x ∷ a) [] = (λ e. cc, λ e. cc)
equal-compare (x ∷ a) (y ∷ b) = ground (arith, equal-compare a b)

pub equal_iff : (a b : Bytes) → (equal a b ≡ true) ↔ (a ≡ b)
equal_iff a b = (
  λ e. compare-eq a b ((equal-compare a b).0 e),
  λ e. (equal-compare a b).1 (ap (compare a) (sym e) ∙ compare_refl a),
)

-- `min_bytes` and `max_bytes` return their two arguments in order, whichever way they came.
min-max_sorted :
    (a b : Bytes)
    → (is_nonpos (compare (min_bytes a b) (max_bytes a b)) ≡ true)
      × (((min_bytes a b ≡ a) × (max_bytes a b ≡ b)) ⊎ ((min_bytes a b ≡ b) × (max_bytes a b ≡ a)))
unfolding min_bytes max_bytes
min-max_sorted a b = ground (arith, compare_refl a, compare-eq a b, compare-gt a b)

nil_least : (key : Bytes) → is_nonpos (compare [] key) ≡ true
unfolding compare
nil_least [] = refl
nil_least (y ∷ key) = refl

-- A key that sorts after `k` does not sort before its successor, and the successor sorts after `k`:
-- nothing lies between.
key_successor_least :
    (k key : Bytes)
    → Before k (key_successor k) × (Before k key → is_nonpos (compare (key_successor k) key) ≡ true)
unfolding key_successor compare
key_successor_least [] [] = (refl, λ e. cc)
key_successor_least [] (y ∷ key) = (refl, λ e. ground (arith, nil_least key))
key_successor_least (x ∷ k) [] = (ground (arith, (key_successor_least k []).0), λ e. cc)
key_successor_least (x ∷ k) (y ∷ key) = ground (arith, key_successor_least k key)

-- `in_range` accepts a key exactly when it lies in the half-open interval; nil leaves that end open.
in_range_iff :
    (key lo hi : Bytes)
    → ((in_range key (some lo) (some hi) ≡ true)
        ↔ ((compare key lo ≢ Ordering.lt) × (compare key hi ≡ Ordering.lt)))
      × ((in_range key none (some hi) ≡ true) ↔ (compare key hi ≡ Ordering.lt))
      × ((in_range key (some lo) none ≡ true) ↔ (compare key lo ≢ Ordering.lt))
      × (in_range key none none ≡ true)
unfolding in_range
in_range_iff key lo hi = (
  (λ e. (λ h. cc, ground arith), λ h. ground (arith, h.0)),
  (λ e. ground arith, λ h. ground arith),
  (λ e h. cc, λ h. ground (arith, h)),
  refl,
)
