-- ===== src/Memtable/Insert.antt =====
-- A node that was linked behind its predecessors stands in the list at its place.
use go_durable_engine.Prelude.{
  ℕ, ◌≤◌, ◌<◌, ◌≡◌, ◌≢◌, refl, sym, ap, ◌∙◌, ◌⊎◌, inl, inr, true, false, Bool-cases, Option, none,
  some, List, [], ◌∷◌, ◌++◌, arith, ltb, ◌==◌, if◌then◌else◌, All,
}
use go_durable_engine.Memtable.{Entry, Node, Heap, store, link}
use go_durable_engine.Memtable.Search.{
  first_tall, last_tall, IsLinked, AreLinked, AreDistinct, last_tall-All,
}
use go_durable_engine.Memtable.Link.{
  link-entry, link-height, link-other, link-new, link-last, link-rest,
}

-- The heap `h'` is `h` with the node `n` of `lvl` levels linked in behind `update`.
pub record Inserted (h h' : Heap) (n lvl : ℕ) (update : ℕ → ℕ) : Type 0 where
  pub entries : (q : ℕ) → q ≢ n → (h' q).entry ≡ (h q).entry
  pub heights : (q : ℕ) → q ≢ n → (h' q).height ≡ (h q).height
  pub height : (h' n).height ≡ lvl
  pub higher : (q j : ℕ) → q ≢ n → lvl ≤ j → (h' q).next j ≡ (h q).next j
  pub new : (j : ℕ) → j < lvl → (h' n).next j ≡ (h (update j)).next j
  pub last : (j : ℕ) → j < lvl → (h' (update j)).next j ≡ some n
  pub rest : (q j : ℕ) → q ≢ n → q ≢ update j → (h' q).next j ≡ (h q).next j

store-other : (h : Heap) (n q : ℕ) (w : Node) → q ≢ n → store h n w q ≡ h q
store-other h n q w ne = (let t : (q == n) ≡ false = ground arith in rw t refl)

store_self : (h : Heap) (n : ℕ) (w : Node) → store h n w n ≡ w
store_self h n w = (let t : (n == n) ≡ true = ground arith in rw t refl)

pub link-Inserted :
    (h : Heap) (n lvl : ℕ) (update : ℕ → ℕ) (e : Entry)
    → ((j : ℕ) → update j ≢ n)
    → Inserted h
        (link lvl 0 (store h n (record { entry = e; height = lvl; next = λ i. none })) n update)
        n
        lvl
        update
link-Inserted h n lvl update e fresh =
    let w : Node = record { entry = e; height = lvl; next = λ i. none } in
    let h0 = store h n w in
    record {
      entries = λ q ne.
          link-entry n update lvl 0 h0 q ∙ ap (λ (x : Node). x.entry) (store-other h n q w ne);
      heights = λ q ne.
          link-height n update lvl 0 h0 q ∙ ap (λ (x : Node). x.height) (store-other h n q w ne);
      height = link-height n update lvl 0 h0 n ∙ ap (λ (x : Node). x.height) (store_self h n w);
      higher = λ q j ne le.
          link-other n update lvl 0 h0 q j (inr (omega arith))
          ∙ ap (λ (x : Node). x.next j) (store-other h n q w ne);
      new = λ j lt.
          link-new n update lvl 0 h0 j fresh (omega arith) (omega arith)
          ∙ ap (λ (x : Node). x.next j) (store-other h n (update j) w (fresh j));
      last = λ j lt. link-last n update lvl 0 h0 j (omega arith) (omega arith);
      rest = λ q j ne ne'.
          link-rest n update lvl 0 h0 q j ne ne'
          ∙ ap (λ (x : Node). x.next j) (store-other h n q w ne);
    }

pub link-own_entry :
    (h : Heap) (n lvl : ℕ) (update : ℕ → ℕ) (e : Entry)
    → (link lvl 0
        (store h n (record { entry = e; height = lvl; next = λ i. none }))
        n
        update
        n).entry
      ≡ e
link-own_entry h n lvl update e =
    let w : Node = record { entry = e; height = lvl; next = λ i. none } in
    link-entry n update lvl 0 (store h n w) n ∙ ap (λ (x : Node). x.entry) (store_self h n w)

module _ (h h' : Heap) (n lvl : ℕ) (update : ℕ → ℕ) (ins : Inserted h h' n lvl update) where
  first_tall-same :
      (i : ℕ) (ids : List ℕ) → All (λ q. q ≢ n) ids → first_tall h' i ids ≡ first_tall h i ids
  first_tall-same i [] ne = refl
  first_tall-same i (y ∷ ys) ne =
      rw (ins.heights y ne.0) (
        ap (λ (t : Option ℕ). if ltb i (h y).height then some y else t) (first_tall-same i ys ne.1))

  -- The new node is passed over on the levels that it does not have.
  first_tall-higher :
      (i : ℕ) (b post : List ℕ)
      → lvl ≤ i
      → All (λ q. q ≢ n) b
      → All (λ q. q ≢ n) post
      → first_tall h' i (b ++ n ∷ post) ≡ first_tall h i (b ++ post)
  first_tall-higher i [] post le nb np =
      let f : ltb i (h' n).height ≡ false = ground (arith, ins.height) in
      rw f (first_tall-same i post np)
  first_tall-higher i (y ∷ b) post le nb np = rw (ins.heights y nb.0) (
      ap (λ (t : Option ℕ). if ltb i (h y).height then some y else t)
        (first_tall-higher i b post le nb.1 np))

  -- On a level of the new node: whether there is another node of that level in front of it.
  IsFirst : (i x : ℕ) (b post : List ℕ) → Type 0
  IsFirst i x b post =
      ((last_tall h i x b ≡ x) × (first_tall h' i (b ++ n ∷ post) ≡ some n))
      ⊎ (((q : ℕ) → All (λ y. q ≢ y) b → q ≢ last_tall h i x b)
          × (first_tall h' i (b ++ n ∷ post) ≡ first_tall h i (b ++ post)))

  IsFirst-cases : (i x : ℕ) (b post : List ℕ) → i < lvl → All (λ q. q ≢ n) b → IsFirst i x b post
  unfolding IsFirst
  IsFirst-cases i x [] post lt nb =
      let t : ltb i (h' n).height ≡ true = ground (arith, ins.height) in inl (refl, rw t refl)
  IsFirst-cases i x (y ∷ b) post lt nb = elim (Bool-cases (ltb i (h y).height)) [
    | inl t ↦ inr (
      λ q nq. rw t (last_tall-All h (λ (z : ℕ). q ≢ z) i y b nq.0 nq.1),
      rw (ins.heights y nb.0) (rw t refl),
    )
    | inr f ↦ elim (IsFirst-cases i x b post lt nb.1) [
      | inl r ↦ inl (rw f r.0, rw (ins.heights y nb.0) (rw f r.1))
      | inr r ↦ inr (λ q nq. rw f (r.0 q nq.1), rw (ins.heights y nb.0) (rw f r.1))
    ]
  ]

  -- No predecessor of the new node stands in `ids`.
  abbrev AreApart : List ℕ → Type 0
  AreApart ids = All (λ q. (j : ℕ) → j < lvl → q ≢ update j) ids

  pub post-AreLinked :
      (post : List ℕ) → All (λ q. q ≢ n) post → AreApart post → AreLinked h post → AreLinked h' post
  post-AreLinked [] ne apart linked = tt
  post-AreLinked (y ∷ ys) ne apart linked = (
    λ i lt.
        (let lt0 : i < (h y).height = omega (arith, ins.heights y ne.0) in
          elim (Bool-cases (ltb i lvl)) [
            | inl t ↦
                ins.rest y i ne.0 (apart.0 i (ground arith))
                ∙ linked.0 i lt0
                ∙ sym (first_tall-same i ys ne.1)
            | inr f ↦
                ins.higher y i ne.0 (ground arith)
                ∙ linked.0 i lt0
                ∙ sym (first_tall-same i ys ne.1)
          ]),
    post-AreLinked ys ne.1 apart.1 linked.1,
  )

  pub new-IsLinked :
      (post : List ℕ)
      → All (λ q. q ≢ n) post
      → ((j : ℕ) → j < lvl → (h (update j)).next j ≡ first_tall h j post)
      → IsLinked h' n post
  new-IsLinked post ne links i lt =
      let lt' : i < lvl = omega (arith, ins.height) in
      ins.new i lt' ∙ links i lt' ∙ sym (first_tall-same i post ne)

  pub node-IsLinked :
      (x : ℕ) (p : ℕ → ℕ) (b post : List ℕ)
      → x ≢ n
      → All (λ q. x ≢ q) b
      → All (λ q. q ≢ n) b
      → All (λ q. q ≢ n) post
      → ((i : ℕ) → i < lvl → update i ≡ last_tall h i (p i) b)
      → ((i : ℕ) → i < (h x).height → p i ≡ x)
      → IsLinked h x (b ++ post)
      → IsLinked h' x (b ++ n ∷ post)
  unfolding IsFirst
  node-IsLinked x p b post ne nb nn np lasts here links i lt =
      let lt0 : i < (h x).height = omega (arith, ins.heights x ne) in
      elim (Bool-cases (ltb i lvl)) [
        | inr f ↦
            let le : lvl ≤ i = ground arith in
            ins.higher x i ne le ∙ links i lt0 ∙ sym (first_tall-higher i b post le nn np)
        | inl t ↦
            let lt' : i < lvl = ground arith in
            let u : update i ≡ last_tall h i x b =
              lasts i lt' ∙ ap (λ (z : ℕ). last_tall h i z b) (here i lt0) in
            elim (IsFirst-cases i x b post lt' nn) [
              | inl r ↦ ap (λ (z : ℕ). (h' z).next i) (sym (u ∙ r.0)) ∙ ins.last i lt' ∙ sym r.1
              | inr r ↦ ins.rest x i ne (λ e. r.0 x nb (e ∙ u)) ∙ links i lt0 ∙ sym r.1
            ]
      ]

  pub pre-AreLinked :
      (p : ℕ → ℕ) (b post : List ℕ)
      → AreDistinct b
      → All (λ q. q ≢ n) b
      → All (λ q. q ≢ n) post
      → ((i : ℕ) → i < lvl → update i ≡ last_tall h i (p i) b)
      → AreLinked h (b ++ post)
      → AreLinked h' (n ∷ post)
      → AreLinked h' (b ++ n ∷ post)
  pre-AreLinked p [] post d nn np lasts linked done = done
  pre-AreLinked p (y ∷ ys) post d nn np lasts linked done =
      let p' : ℕ → ℕ = λ i. if ltb i (h y).height then y else p i in
      let lasts' : (i : ℕ) → i < lvl → update i ≡ last_tall h i (p' i) ys =
        λ i lt. lasts i lt ∙ ground arith in
      let here : (i : ℕ) → i < (h y).height → p' i ≡ y = λ i lt. ground arith in
      (
        node-IsLinked y p' ys post nn.0 d.0 nn.1 np lasts' here linked.0,
        pre-AreLinked p' ys post d.1 nn.1 np lasts' linked.1 done,
      )
