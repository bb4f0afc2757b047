-- ===== src/Memtable/Search.antt =====
-- The search of the skip list: what `walk` and `descend` find in a well-formed heap.
use go_durable_engine.Prelude.{
  ℕ, zero, suc, ◌+◌, ◌≤◌, ◌<◌, ◌≡◌, ◌≢◌, refl, sym, ap, ◌∙◌, ◌⊎◌, inl, inr, true, false, Bool-cases,
  Option, none, some, List, [], ◌∷◌, ◌++◌, arith, length, ltb, ◌==◌, if◌then◌else◌, Bytes, All,
}
use go_durable_engine.Bytes.{compare, is_neg}
use go_durable_engine.Memtable.{Heap, key_at, walk, assign, descend}

-- The first node of a list that has level `i`.
abbrev pub first_tall : Heap → ℕ → List ℕ → Option ℕ
first_tall h i [] = none
first_tall h i (y ∷ ys) = if ltb i (h y).height then some y else first_tall h i ys

-- The last such node, `x` if there is none.
abbrev pub last_tall : Heap → ℕ → ℕ → List ℕ → ℕ
last_tall h i x [] = x
last_tall h i x (y ∷ ys) = if ltb i (h y).height then last_tall h i y ys else last_tall h i x ys

-- `x` stands in front of `ids`: on each of its levels it points to the first node of that level.
abbrev pub IsLinked : Heap → ℕ → List ℕ → Type 0
IsLinked h x ids = (i : ℕ) → i < (h x).height → (h x).next i ≡ first_tall h i ids

abbrev pub AreLinked : Heap → List ℕ → Type 0
AreLinked h [] = Unit {0}
AreLinked h (y ∷ ys) = IsLinked h y ys × AreLinked h ys

-- No node occurs twice.
abbrev pub AreDistinct : List ℕ → Type 0
AreDistinct [] = Unit {0}
AreDistinct (x ∷ xs) = All (λ q. x ≢ q) xs × AreDistinct xs

-- What holds of all the nodes holds of the last one of a level.
pub last_tall-All :
    (h : Heap) (P : ℕ → Type 0) (i x : ℕ) (b : List ℕ) → P x → All P b → P (last_tall h i x b)
last_tall-All h P i x [] p all = p
last_tall-All h P i x (y ∷ b) p all = elim (Bool-cases (ltb i (h y).height)) [
  | inl t ↦ rw t (last_tall-All h P i y b all.0 all.1)
  | inr f ↦ rw f (last_tall-All h P i x b p all.1)
]

-- Keys before the one that is searched for, and keys that are not.
abbrev pub AreBelow : Heap → Bytes → List ℕ → Type 0
AreBelow h key ids = All (λ y. is_neg (compare (key_at h y) key) ≡ true) ids

abbrev pub AreNotBelow : Heap → Bytes → List ℕ → Type 0
AreNotBelow h key ids = All (λ y. is_neg (compare (key_at h y) key) ≡ false) ids

walk-none :
    (h : Heap) (i : ℕ) (key : Bytes) (fuel x : ℕ)
    → (h x).next i ≡ none
    → walk (suc fuel) h i key x ≡ x
unfolding walk
walk-none h i key fuel x e = rw (e, walk)

walk-above :
    (h : Heap) (i : ℕ) (key : Bytes) (fuel x y : ℕ)
    → (h x).next i ≡ some y
    → is_neg (compare (key_at h y) key) ≡ false
    → walk (suc fuel) h i key x ≡ x
unfolding walk
walk-above h i key fuel x y e n = rw (e, walk) (rw n refl)

walk-below :
    (h : Heap) (i : ℕ) (key : Bytes) (fuel x y : ℕ)
    → (h x).next i ≡ some y
    → is_neg (compare (key_at h y) key) ≡ true
    → walk (suc fuel) h i key x ≡ walk fuel h i key y
unfolding walk
walk-below h i key fuel x y e n = rw (e, walk) (rw n refl)

-- The walk stops in front of nodes that are not below the key.
walk_stops :
    (h : Heap) (i : ℕ) (key : Bytes) (post : List ℕ) (fuel x : ℕ)
    → AreNotBelow h key post
    → (h x).next i ≡ first_tall h i post
    → walk fuel h i key x ≡ x
walk_stops h i key post zero x above e = unfold walk in refl
walk_stops h i key [] (suc fuel) x above e = walk-none h i key fuel x e
walk_stops h i key (y ∷ post) (suc fuel) x above e = elim (Bool-cases (ltb i (h y).height)) [
  | inl t ↦ walk-above h i key fuel x y (e ∙ rw t refl) above.0
  | inr f ↦ walk_stops h i key post (suc fuel) x above.1 (e ∙ rw f refl)
]

-- From a node in front of `b` and `post`, the walk goes to the last node of the level in `b`, and
-- that one points behind `b`.
walk_lem :
    (h : Heap) (i : ℕ) (key : Bytes) (b post : List ℕ) (fuel x : ℕ)
    → length b < fuel
    → AreBelow h key b
    → AreNotBelow h key post
    → AreLinked h (b ++ post)
    → (h x).next i ≡ first_tall h i (b ++ post)
    → (walk fuel h i key x ≡ last_tall h i x b)
      × ((h (last_tall h i x b)).next i ≡ first_tall h i post)
walk_lem h i key [] post fuel x lt below above linked e =
    (walk_stops h i key post fuel x above e, e)
walk_lem h i key (y ∷ b) post zero x lt below above linked e = absurd (omega arith)
walk_lem h i key (y ∷ b) post (suc fuel) x lt below above linked e =
    elim (Bool-cases (ltb i (h y).height)) [
      | inl t ↦
          let r =
            walk_lem h i key b post fuel y (omega arith) below.1 above linked.1
              (linked.0 i (ground arith)) in
          rw t (walk-below h i key fuel x y (e ∙ rw t refl) below.0 ∙ r.0, r.1)
      | inr f ↦
          let r =
            walk_lem h i key b post (suc fuel) x (omega arith) below.1 above linked.1
              (e ∙ rw f refl) in
          rw f r
    ]

-- What stands behind the last node of a level in `b`.
pub record Behind (h : Heap) (i : ℕ) (key : Bytes) (b post : List ℕ) (y : ℕ) : Type 0 where
  pub rest : List ℕ
  pub last : (x : ℕ) → last_tall h i x b ≡ y
  pub tall : i < (h y).height
  pub links : IsLinked h y (rest ++ post)
  pub linked : AreLinked h (rest ++ post)
  pub below : AreBelow h key rest
  pub shorter : length rest ≤ length b
  pub lower : (j x : ℕ) → j ≤ i → last_tall h j x b ≡ last_tall h j y rest

-- Either no node of `b` has level `i`, or there is a last one.
tall-cases :
    (h : Heap) (i : ℕ) (key : Bytes) (b post : List ℕ)
    → AreBelow h key b
    → AreLinked h (b ++ post)
    → ((x : ℕ) → last_tall h i x b ≡ x) ⊎ ((y : ℕ) × Behind h i key b post y)
tall-cases h i key [] post below linked = inl (λ x. refl)
tall-cases h i key (y ∷ b) post below linked = elim (tall-cases h i key b post below.1 linked.1) [
  | inr (z, w) ↦ inr (
    z,
    record {
      rest = w.rest;
      last = λ x. elim (Bool-cases (ltb i (h y).height)) [
        | inl t ↦ rw t (w.last y)
        | inr f ↦ rw f (w.last x)
      ];
      tall = w.tall;
      links = w.links;
      linked = w.linked;
      below = w.below;
      shorter = omega (arith, w.shorter);
      lower = λ j x le. elim (Bool-cases (ltb j (h y).height)) [
        | inl t ↦ rw t (w.lower j y le)
        | inr f ↦ rw f (w.lower j x le)
      ];
    },
  )
  | inl none_tall ↦ elim (Bool-cases (ltb i (h y).height)) [
    | inr f ↦ inl (λ x. rw f (none_tall x))
    | inl t ↦ inr (
      y,
      record {
        rest = b;
        last = λ x. rw t (none_tall y);
        tall = ground arith;
        links = linked.0;
        linked = linked.1;
        below = below.1;
        shorter = omega arith;
        lower = λ j x le. (let u : ltb j (h y).height ≡ true = ground arith in rw u refl);
      },
    )
  ]
]

-- What the search from `x` finds, in front of `b` and `post`: on each level the last node in `b`.
pub record Found (h : Heap) (n x : ℕ) (b : List ℕ) (update : ℕ → ℕ) (r : ℕ × (ℕ → ℕ)) : Type 0 where
  pub lasts : (j : ℕ) → j < n → r.1 j ≡ last_tall h j x b
  pub others : (j : ℕ) → n ≤ j → r.1 j ≡ update j
  pub end : 0 < n → r.0 ≡ last_tall h 0 x b

descend-next :
    (i fuel : ℕ) (h : Heap) (key : Bytes) (x z : ℕ) (update : ℕ → ℕ)
    → walk fuel h i key x ≡ z
    → descend (suc i) fuel h key x update ≡ descend i fuel h key z (assign update i z)
unfolding descend
descend-next i fuel h key x z update e =
    ap (λ (w : ℕ). descend i fuel h key w (assign update i w)) e

-- One level of the search, when the rest of it is known.
Found-next :
    (h : Heap) (i x z : ℕ) (b rest : List ℕ) (update : ℕ → ℕ) (r : ℕ × (ℕ → ℕ))
    → last_tall h i x b ≡ z
    → ((j : ℕ) → j < i → last_tall h j x b ≡ last_tall h j z rest)
    → (i ≡ 0 → r.0 ≡ z)
    → Found h i z rest (assign update i z) r
    → Found h (suc i) x b update r
Found-next h i x z b rest update r here lower first w = record {
  lasts = λ j lt. elim (Bool-cases (j == i)) [
    | inl e ↦
        (let s : j ≡ i = ground arith in
          let t : (i == i) ≡ true = ground arith in
          rw s (w.others i (omega arith) ∙ (rw t refl) ∙ sym here))
    | inr e ↦ (let lt' : j < i = ground arith in w.lasts j lt' ∙ sym (lower j lt'))
  ];
  others =
      λ j le. (let t : (j == i) ≡ false = ground arith in w.others j (omega arith) ∙ rw t refl);
  end = λ pos. elim (Bool-cases (i == 0)) [
    | inl e ↦
        (let s : i ≡ 0 = ground arith in
          let here' : last_tall h 0 x b ≡ z = rw s at here in first s ∙ sym here')
    | inr e ↦ (let pos' : 0 < i = ground arith in w.end pos' ∙ sym (lower 0 pos'))
  ];
}

descend-zero :
    (i fuel : ℕ) (h : Heap) (key : Bytes) (z : ℕ) (update : ℕ → ℕ)
    → i ≡ 0
    → (descend i fuel h key z update).0 ≡ z
unfolding descend
descend-zero zero fuel h key z update e = refl
descend-zero (suc i) fuel h key z update e = absurd (omega arith)

-- The search with `n` levels from `x`, in front of `b`, whose keys are below, and `post`, whose keys
-- are not.
pub descend-Found :
    (n fuel : ℕ) (h : Heap) (key : Bytes) (x : ℕ) (b post : List ℕ) (update : ℕ → ℕ)
    → n ≤ (h x).height
    → length b < fuel
    → AreBelow h key b
    → AreNotBelow h key post
    → AreLinked h (b ++ post)
    → IsLinked h x (b ++ post)
    → Found h n x b update (descend n fuel h key x update)
descend-Found zero fuel h key x b post update tall lt below above linked links = record {
  lasts = λ j k. absurd (omega arith);
  others = λ j k. unfold descend in refl;
  end = λ k. absurd (omega arith);
}
descend-Found (suc i) fuel h key x b post update tall lt below above linked links =
    let w = walk_lem h i key b post fuel x lt below above linked (links i (omega arith)) in
    elim (tall-cases h i key b post below linked) [
      | inl none_tall ↦
          let e = w.0 ∙ none_tall x in
          rw (descend-next i fuel h key x x update e) (
            Found-next h i x x b b update _ (none_tall x) (λ j k. refl)
              (descend-zero i fuel h key x (assign update i x))
              (descend-Found i fuel h key x b post (assign update i x) (omega arith) lt below above
                linked links))
      | inr (y, p) ↦
          let e = w.0 ∙ p.last x in
          rw (descend-next i fuel h key x y update e) (
            Found-next h i x y b p.rest update _ (p.last x) (λ j k. p.lower j x (omega arith))
              (descend-zero i fuel h key y (assign update i y))
              (descend-Found i fuel h key y p.rest post (assign update i y) (omega (arith, p.tall))
                (omega (arith, p.shorter)) p.below above p.linked p.links))
    ]

-- The last node in front of `post` points to the first node of `post` on its level.
pub last_tall-next :
    (h : Heap) (i x : ℕ) (key : Bytes) (b post : List ℕ)
    → AreBelow h key b
    → AreNotBelow h key post
    → AreLinked h (b ++ post)
    → (h x).next i ≡ first_tall h i (b ++ post)
    → (h (last_tall h i x b)).next i ≡ first_tall h i post
last_tall-next h i x key b post below above linked e =
    (walk_lem h i key b post (length b + 1) x (omega arith) below above linked e).1
