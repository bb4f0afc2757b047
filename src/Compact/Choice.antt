-- ===== src/Compact/Choice.antt =====
-- What a compaction chooses: internal/compact/plan.go.
use mathlib.Core.List.{Memᴰ, Permᴰ}
use mathlib.Core.List.Permᴰ
use go_durable_engine.Prelude.{
  ℕ, zero, suc, ◌≤◌, ◌<◌, ◌≡◌, refl, ap, ◌∙◌, inl, inr, true, false, List, [], ◌∷◌, ◌++◌, arith,
  length, length-take, take-append-drop, drop, ltb, if◌then◌else◌, Bool-cases, Result, ok, All, min,
}
use go_durable_engine.Compact.{Error, FileRef, Input, input_of, sweep, exchange, pick_by_size}

-- No file is larger than one behind it.
abbrev pub Ascending : List FileRef → Type 0
Ascending [] = Unit {0}
Ascending (f ∷ files) = All (λ g. f.size ≤ g.size) files × Ascending files

sweep-Perm : (x : FileRef) (ys : List FileRef) → Permᴰ (x ∷ ys) ((sweep x ys).0 ∷ (sweep x ys).1)
unfolding sweep
sweep-Perm x [] = Permᴰ.refl (x ∷ [])
sweep-Perm x (y ∷ ys) = elim (Bool-cases (ltb y.size x.size)) [
  | inl e ↦ rw e (Permᴰ.trans (Permᴰ.cons refl (sweep-Perm y ys)) (Permᴰ.swap refl refl))
  | inr e ↦ rw e (
      Permᴰ.trans (Permᴰ.swap refl refl)
        (Permᴰ.trans (Permᴰ.cons refl (sweep-Perm x ys)) (Permᴰ.swap refl refl)))
]

sweep-All {ℓ} :
    (P : FileRef → Type ℓ) (x : FileRef) (ys : List FileRef)
    → P x
    → All P ys
    → P (sweep x ys).0 × All P (sweep x ys).1
unfolding sweep
sweep-All P x [] p h = (p, tt)
sweep-All P x (y ∷ ys) p h = elim (Bool-cases (ltb y.size x.size)) [
  | inl e ↦ let r = sweep-All P y ys h.0 h.1 in rw e (r.0, (p, r.1))
  | inr e ↦ let r = sweep-All P x ys p h.1 in rw e (r.0, (h.0, r.1))
]

All-weaken :
    (a b : ℕ) (fs : List FileRef) → a ≤ b → All (λ f. b ≤ f.size) fs → All (λ f. a ≤ f.size) fs
All-weaken a b [] le h = tt
All-weaken a b (f ∷ fs) le h = (omega (arith, h.0), All-weaken a b fs le h.1)

sweep-smaller :
    (x y : FileRef) (ys : List FileRef)
    → ltb y.size x.size ≡ true
    → sweep x (y ∷ ys) ≡ ((sweep y ys).0, x ∷ (sweep y ys).1)
unfolding sweep
sweep-smaller x y ys e = rw e refl

sweep-not_smaller :
    (x y : FileRef) (ys : List FileRef)
    → ltb y.size x.size ≡ false
    → sweep x (y ∷ ys) ≡ ((sweep x ys).0, y ∷ (sweep x ys).1)
unfolding sweep
sweep-not_smaller x y ys e = rw e refl

-- What a sweep returns in front is not larger than `x` and than the others.
abbrev IsLeast : FileRef → FileRef × List FileRef → Type 0
IsLeast x r = (r.0.size ≤ x.size) × All (λ f. r.0.size ≤ f.size) r.1

sweep-IsLeast : (x : FileRef) (ys : List FileRef) → IsLeast x (sweep x ys)
sweep-IsLeast x [] = unfold sweep in (omega arith, tt)
sweep-IsLeast x (y ∷ ys) = elim (Bool-cases (ltb y.size x.size)) [
  | inl e ↦
      let r = sweep-IsLeast y ys in
      let lt : y.size < x.size = ground arith in
      rw (sweep-smaller x y ys e) (omega (arith, r.0), (omega (arith, r.0), r.1))
  | inr e ↦
      let r = sweep-IsLeast x ys in
      let le : x.size ≤ y.size = ground arith in
      rw (sweep-not_smaller x y ys e) (r.0, (omega (arith, r.0), r.1))
]

length-sweep : (x : FileRef) (ys : List FileRef) → length (sweep x ys).1 ≡ length ys
unfolding sweep
length-sweep x [] = refl
length-sweep x (y ∷ ys) = ap suc (length-sweep (if ltb y.size x.size then y else x) ys)

exchange-Perm : (n : ℕ) (fs : List FileRef) → Permᴰ fs (exchange n fs)
unfolding exchange
exchange-Perm zero fs = Permᴰ.refl fs
exchange-Perm (suc n) [] = Permᴰ.nil
exchange-Perm (suc n) (x ∷ xs) =
    Permᴰ.trans (sweep-Perm x xs) (Permᴰ.cons refl (exchange-Perm n (sweep x xs).1))

exchange-All {ℓ} :
    (P : FileRef → Type ℓ) (n : ℕ) (fs : List FileRef) → All P fs → All P (exchange n fs)
unfolding exchange
exchange-All P zero fs h = h
exchange-All P (suc n) [] h = tt
exchange-All P (suc n) (x ∷ xs) h =
    let r = sweep-All P x xs h.0 h.1 in (r.0, exchange-All P n (sweep x xs).1 r.1)

exchange-Ascending : (n : ℕ) (fs : List FileRef) → length fs ≤ n → Ascending (exchange n fs)
unfolding exchange
exchange-Ascending zero [] h = tt
exchange-Ascending zero (x ∷ xs) h = absurd (omega arith)
exchange-Ascending (suc n) [] h = tt
exchange-Ascending (suc n) (x ∷ xs) h =
    let r = sweep x xs in
    (
      exchange-All (λ f. r.0.size ≤ f.size) n r.1 (sweep-IsLeast x xs).1,
      exchange-Ascending n r.1 (omega (arith, length-sweep x xs)),
    )

length-exchange : (n : ℕ) (fs : List FileRef) → length (exchange n fs) ≡ length fs
unfolding exchange
length-exchange zero fs = refl
length-exchange (suc n) [] = refl
length-exchange (suc n) (x ∷ xs) = ap suc (length-exchange n (sweep x xs).1 ∙ length-sweep x xs)

-- `pick_by_size` returns as many files as asked for, or all of them: with some rest they are the
-- given files in another order, and the whole is in order of size, so that no file of the rest is
-- smaller than a picked one.
pick_by_size_lem :
    (files : List FileRef) (n : ℕ)
    → (rest : List FileRef) × Permᴰ files (pick_by_size files n ++ rest)
      × Ascending (pick_by_size files n ++ rest)
      × (length (pick_by_size files n) ≡ min n (length files))
unfolding pick_by_size
pick_by_size_lem files n =
    let s = exchange (length files) files in
    (
      drop n s,
      rw (take-append-drop n s) (exchange-Perm (length files) files),
      rw (take-append-drop n s) (exchange-Ascending (length files) files (omega arith)),
      omega (arith, length-take n s, length-exchange (length files) files),
    )

-- An input of one of the files.
abbrev pub IsInputOf : List FileRef → Input → Type 0
IsInputOf files x = (f : FileRef) × Memᴰ f files × (x ≡ input_of f)

-- What is chosen has two inputs at least, all of them of the files.
abbrev pub IsChoice : List FileRef → Result Error (List Input) → Type 0
IsChoice files r =
    (inputs : List Input) × (r ≡ ok inputs) × (2 ≤ length inputs) × All (IsInputOf files) inputs
