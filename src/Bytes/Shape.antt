-- ===== src/Bytes/Shape.antt =====
-- Common prefixes, padding and xor.
use go_durable_engine.Prelude.{
  ℕ, zero, suc, ◌-◌, ◌≤◌, ◌≡◌, refl, ap, [], ◌∷◌, length, length-append, length-replicate,
  replicate, max, take, take-append, arith, Bytes,
}
use go_durable_engine.Bytes.{shared_prefix_len, pad_right}

take_all : (b : Bytes) → take (length b) b ≡ b
take_all [] = refl
take_all (x ∷ b) = ap (λ (t : Bytes). x ∷ t) (take_all b)

pub shared_prefix_len-le :
    (a b : Bytes) → (shared_prefix_len a b ≤ length a) × (shared_prefix_len a b ≤ length b)
unfolding shared_prefix_len
shared_prefix_len-le [] b = omega arith
shared_prefix_len-le (x ∷ a) [] = omega arith
shared_prefix_len-le (x ∷ a) (y ∷ b) = ground (arith, shared_prefix_len-le a b)

pub take-shared_prefix_len :
    (a b : Bytes) → take (shared_prefix_len a b) a ≡ take (shared_prefix_len a b) b
unfolding shared_prefix_len
take-shared_prefix_len [] b = refl
take-shared_prefix_len (x ∷ a) [] = refl
take-shared_prefix_len (x ∷ a) (y ∷ b) = ground (arith, take-shared_prefix_len a b)

prefix_bound :
    (a b : Bytes) (n : ℕ)
    → n ≤ length a
    → n ≤ length b
    → take n a ≡ take n b
    → n ≤ shared_prefix_len a b
unfolding shared_prefix_len
prefix_bound a b zero h g e = omega arith
prefix_bound [] b (suc n) h g e = h
prefix_bound (x ∷ a) [] (suc n) h g e = g
prefix_bound (x ∷ a) (y ∷ b) (suc n) h g e = ground (arith, prefix_bound a b n)

-- `shared_prefix_len` is the greatest length at which both slices have the same prefix: that
-- prefix is common, fits both, and no longer one is common.
shared_prefix_len_greatest :
    (a b : Bytes)
    → (take (shared_prefix_len a b) a ≡ take (shared_prefix_len a b) b)
      × (shared_prefix_len a b ≤ length a)
      × (shared_prefix_len a b ≤ length b)
      × ((n : ℕ) → n ≤ length a → n ≤ length b → take n a ≡ take n b → n ≤ shared_prefix_len a b)
shared_prefix_len_greatest a b = (
  take-shared_prefix_len a b,
  (shared_prefix_len-le a b).0,
  (shared_prefix_len-le a b).1,
  prefix_bound a b,
)

-- Padding gives exactly the larger of the two lengths and keeps the slice in front.
pad_right_lem :
    (b : Bytes) (n pad : ℕ)
    → (length (pad_right b n pad) ≡ max (length b) n) × (take (length b) (pad_right b n pad) ≡ b)
unfolding pad_right
pad_right_lem b n pad = ground (
  arith,
  length-append b (replicate (n - length b) pad),
  length-replicate (n - length b) pad,
  take-append b (replicate (n - length b) pad),
  take_all b,
)
