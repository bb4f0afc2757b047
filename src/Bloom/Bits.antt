-- ===== src/Bloom/Bits.antt =====
-- The bits of a Bloom filter: what setting and testing them does.
use go_durable_engine.Prelude.{
  ℕ, zero, suc, ◌+◌, ◌/◌, ◌%◌, ◌^◌, ◌≤◌, ◌<◌, ◌≡◌, ◌≢◌, refl, sym, ap, ◌∙◌, inl, inr, bit_and,
  bit_or, Bool, true, false, not, Bool-cases, Option-cases, none, some, [], ◌∷◌, arith, length,
  get_elem?, set, length-set, get_elem?-set_self, get_elem?-set_ne, ◌==◌, Bytes,
}
use go_durable_engine.Prelude.Bits.{bit_and-bit_or_grows, bit_and-bit_or_set, below_pow}
use go_durable_engine.Bloom.{Filter, set_bit, get_bit, index, add_loop, test_loop}

-- Every bit of the first is set in the second.
abbrev pub Covers : Bytes → Bytes → Type 0
Covers a b = (i : ℕ) → get_bit a i ≡ some true → get_bit b i ≡ some true

byte_at : (b : Bytes) (i : ℕ) → i < length b → (c : ℕ) × (get_elem? b i ≡ some c)
byte_at [] i lt = absurd (omega arith)
byte_at (x ∷ b) zero lt = (x, refl)
byte_at (x ∷ b) (suc i) lt = byte_at b i (omega arith)

pow_pos : (n : ℕ) → 0 < 2 ^ n
pow_pos n = omega (arith, below_pow n)

get_bit-byte :
    (b : Bytes) (i c : ℕ)
    → get_elem? b (i / 8) ≡ some c
    → get_bit b i ≡ some (not (bit_and c (2 ^ (i % 8)) == 0))
unfolding get_bit
get_bit-byte b i c e = rw (e, get_bit)

get_bit-none : (b : Bytes) (i : ℕ) → get_elem? b (i / 8) ≡ none → get_bit b i ≡ none
unfolding get_bit
get_bit-none b i e = rw (e, get_bit)

-- A bit is set when its byte has the digit.
set-get_bit :
    (b : Bytes) (i c : ℕ)
    → get_elem? b (i / 8) ≡ some c
    → 0 < bit_and c (2 ^ (i % 8))
    → get_bit b i ≡ some true
set-get_bit b i c e pos =
    let f : (bit_and c (2 ^ (i % 8)) == 0) ≡ false = ground arith in
    get_bit-byte b i c e ∙ rw f refl

get_bit-set :
    (b : Bytes) (i : ℕ)
    → get_bit b i ≡ some true
    → (c : ℕ) × (get_elem? b (i / 8) ≡ some c) × (0 < bit_and c (2 ^ (i % 8)))
get_bit-set b i h = elim (Option-cases (get_elem? b (i / 8))) [
  | inl e ↦ (let n = get_bit-none b i e in cc)
  | inr (c, e) ↦
      let n : some (not (bit_and c (2 ^ (i % 8)) == 0)) ≡ some true =
        sym (get_bit-byte b i c e) ∙ h in
      (c, e, ground arith)
]

record BitSet (b : Bytes) (i : ℕ) : Type 0 where
  pub bits : Bytes
  pub done : set_bit b i ≡ some bits
  pub same : length bits ≡ length b
  pub set_now : get_bit bits i ≡ some true
  pub covers : Covers b bits

set_bit-some :
    (b : Bytes) (i c : ℕ)
    → get_elem? b (i / 8) ≡ some c
    → set_bit b i ≡ some (set b (i / 8) (bit_or c (2 ^ (i % 8))))
unfolding set_bit
set_bit-some b i c e = rw (e, set_bit)

-- Setting a bit that the filter has.
set_bit-BitSet : (b : Bytes) (i : ℕ) → i / 8 < length b → BitSet b i
set_bit-BitSet b i lt =
    let (c, e) = byte_at b (i / 8) lt in
    let c' = bit_or c (2 ^ (i % 8)) in
    let here = get_elem?-set_self b (i / 8) c' lt in
    record {
      bits = set b (i / 8) c';
      done = set_bit-some b i c e;
      same = length-set b (i / 8) c';
      set_now =
          set-get_bit (set b (i / 8) c') i c' here
            (omega (arith, pow_pos (i % 8), bit_and-bit_or_set c (2 ^ (i % 8))));
      covers = λ j h.
          (let (d, ed, pos) = get_bit-set b j h in
            elim (Bool-cases (j / 8 == i / 8)) [
              | inl t ↦
                  let s : j / 8 ≡ i / 8 = ground arith in
                  let dc : some d ≡ some c = sym ed ∙ ap (get_elem? b) s ∙ e in
                  let at_j = ap (get_elem? (set b (i / 8) c')) s ∙ here in
                  let dc' : d ≡ c = ground (arith, dc) in
                  set-get_bit (set b (i / 8) c') j c' at_j (
                    omega (
                      arith,
                      ap (λ (t : ℕ). bit_and t (2 ^ (j % 8))) dc',
                      bit_and-bit_or_grows c (2 ^ (i % 8)) (2 ^ (j % 8)),
                      pos,
                    ))
              | inr f ↦
                  let ne : i / 8 ≢ j / 8 = ground arith in
                  set-get_bit (set b (i / 8) c') j d (get_elem?-set_ne b c' ne ∙ ed) pos
            ]);
    }

-- A filter has room for its `m` bits.
abbrev pub IsSized : Filter → Type 0
IsSized f = (f.m + 7) / 8 ≤ length f.bits

index-lt : (h : ℕ × ℕ) (m i : ℕ) → 0 < m → index h m i < m
unfolding index
index-lt h m i pos = omega arith

pub record Added (n i : ℕ) (h : ℕ × ℕ) (m : ℕ) (b : Bytes) : Type 0 where
  pub bits : Bytes
  pub done : add_loop n i h m b ≡ some bits
  pub same : length bits ≡ length b
  pub covers : Covers b bits
  pub all_set : (j : ℕ) → i ≤ j → j < i + n → get_bit bits (index h m j) ≡ some true

add_loop-next :
    (n i : ℕ) (h : ℕ × ℕ) (m : ℕ) (b b' : Bytes)
    → set_bit b (index h m i) ≡ some b'
    → add_loop (suc n) i h m b ≡ add_loop n (i + 1) h m b'
unfolding add_loop
add_loop-next n i h m b b' e = rw (e, add_loop)

pub add_loop-Added :
    (n i : ℕ) (h : ℕ × ℕ) (m : ℕ) (b : Bytes) → 0 < m → (m + 7) / 8 ≤ length b → Added n i h m b
add_loop-Added zero i h m b pos room = record {
  bits = b;
  done = unfold add_loop in refl;
  same = refl;
  covers = λ j e. e;
  all_set = λ j le lt. absurd (omega arith);
}
add_loop-Added (suc n) i h m b pos room =
    let lt = index-lt h m i pos in
    let s = set_bit-BitSet b (index h m i) (omega arith) in
    let r = add_loop-Added n (i + 1) h m s.bits pos (omega (arith, s.same)) in
    record {
      bits = r.bits;
      done = add_loop-next n i h m b s.bits s.done ∙ r.done;
      same = r.same ∙ s.same;
      covers = λ j e. r.covers j (s.covers j e);
      all_set = λ j le lt'. elim (Bool-cases (j == i)) [
        | inl t ↦ (let e : j ≡ i = ground arith in rw e (r.covers (index h m i) s.set_now))
        | inr f ↦ r.all_set j (ground arith) (omega arith)
      ];
    }

test_loop-yes :
    (n i : ℕ) (h : ℕ × ℕ) (m : ℕ) (b : Bytes)
    → get_bit b (index h m i) ≡ some true
    → test_loop (suc n) i h m b ≡ test_loop n (i + 1) h m b
unfolding test_loop
test_loop-yes n i h m b e = rw (e, test_loop)

test_loop-no :
    (n i : ℕ) (h : ℕ × ℕ) (m : ℕ) (b : Bytes)
    → get_bit b (index h m i) ≢ some true
    → test_loop (suc n) i h m b ≢ some true
unfolding test_loop
test_loop-no n i h m b ne = elim (Option-cases (get_bit b (index h m i))) [
  | inl e ↦ λ q. (let t : test_loop (suc n) i h m b ≡ none = rw (e, test_loop) in cc)
  | inr (true, e) ↦ absurd (ne e)
  | inr (false, e) ↦ λ q. (let t : test_loop (suc n) i h m b ≡ some false = rw (e, test_loop) in cc)
]

pub test_loop-true :
    (n i : ℕ) (h : ℕ × ℕ) (m : ℕ) (b : Bytes)
    → ((j : ℕ) → i ≤ j → j < i + n → get_bit b (index h m j) ≡ some true)
    → test_loop n i h m b ≡ some true
test_loop-true zero i h m b all = unfold test_loop in refl
test_loop-true (suc n) i h m b all =
    test_loop-yes n i h m b (all i (omega arith) (omega arith))
    ∙ test_loop-true n (i + 1) h m b (λ j le lt. all j (omega arith) (omega arith))

-- A test that answers yes answers yes on more bits.
pub test_loop-Covers :
    (n i : ℕ) (h : ℕ × ℕ) (m : ℕ) (b b' : Bytes)
    → Covers b b'
    → test_loop n i h m b ≡ some true
    → test_loop n i h m b' ≡ some true
test_loop-Covers zero i h m b b' c e = unfold test_loop in refl
test_loop-Covers (suc n) i h m b b' c e = elim (Option-cases (get_bit b (index h m i))) [
  | inl q ↦ absurd (test_loop-no n i h m b (λ t. cc) e)
  | inr (false, q) ↦ absurd (test_loop-no n i h m b (λ t. cc) e)
  | inr (true, q) ↦
      test_loop-yes n i h m b' (c (index h m i) q)
      ∙ test_loop-Covers n (i + 1) h m b b' c (sym (test_loop-yes n i h m b q) ∙ e)
]

get_bit-some : (b : Bytes) (i : ℕ) → i / 8 < length b → (v : Bool) × (get_bit b i ≡ some v)
get_bit-some b i lt =
    let (c, e) = byte_at b (i / 8) lt in (not (bit_and c (2 ^ (i % 8)) == 0), get_bit-byte b i c e)

test_loop-stop :
    (n i : ℕ) (h : ℕ × ℕ) (m : ℕ) (b : Bytes)
    → get_bit b (index h m i) ≡ some false
    → test_loop (suc n) i h m b ≡ some false
unfolding test_loop
test_loop-stop n i h m b e = rw (e, test_loop)

-- A test of bits that are there answers.
pub test_loop-some :
    (n i : ℕ) (h : ℕ × ℕ) (m : ℕ) (b : Bytes)
    → 0 < m
    → (m + 7) / 8 ≤ length b
    → (v : Bool) × (test_loop n i h m b ≡ some v)
test_loop-some zero i h m b pos room = (true, unfold test_loop in refl)
test_loop-some (suc n) i h m b pos room =
    let lt = index-lt h m i pos in
    let v = get_bit-some b (index h m i) (omega arith) in
    let r = test_loop-some n (i + 1) h m b pos room in
    elim (Bool-cases v.0) [
      | inl t ↦ (r.0, test_loop-yes n i h m b (v.1 ∙ ap some t) ∙ r.1)
      | inr f ↦ (false, test_loop-stop n i h m b (v.1 ∙ ap some f))
    ]
