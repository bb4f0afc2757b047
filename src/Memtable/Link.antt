-- ===== src/Memtable/Link.antt =====
-- What linking a new node does to the pointers of the heap.
use go_durable_engine.Prelude.{
  ℕ, zero, suc, ◌+◌, ◌≤◌, ◌<◌, ◌≡◌, ◌≢◌, refl, ◌∙◌, ◌⊎◌, inl, inr, Bool-cases, some, arith, ◌==◌,
  if◌then◌else◌,
}
use go_durable_engine.Memtable.{Heap, store, link}

-- One round of the loop.
abbrev once : ℕ → Heap → ℕ → ℕ → Heap
once i h n u =
    let h1 =
      store h n
        (record (h n) { next = λ (j : ℕ). if j == i then (h u).next i else (h n).next j }) in
    store h1 u (record (h1 u) { next = λ (j : ℕ). if j == i then some n else (h1 u).next j })

once-entry : (i : ℕ) (h : Heap) (n u q : ℕ) → (once i h n u q).entry ≡ (h q).entry
once-entry i h n u q = ground arith

once-height : (i : ℕ) (h : Heap) (n u q : ℕ) → (once i h n u q).height ≡ (h q).height
once-height i h n u q = ground arith

once-other : (i : ℕ) (h : Heap) (n u q j : ℕ) → j ≢ i → (once i h n u q).next j ≡ (h q).next j
once-other i h n u q j ne = ground arith

once-new : (i : ℕ) (h : Heap) (n u : ℕ) → u ≢ n → (once i h n u n).next i ≡ (h u).next i
once-new i h n u ne = ground arith

once-last : (i : ℕ) (h : Heap) (n u : ℕ) → (once i h n u u).next i ≡ some n
once-last i h n u = ground arith

once-rest : (i : ℕ) (h : Heap) (n u q : ℕ) → q ≢ n → q ≢ u → (once i h n u q).next i ≡ (h q).next i
once-rest i h n u q ne ne' = ground arith

module _ (n : ℕ) (update : ℕ → ℕ) where
  link-next :
      (k i : ℕ) (h : Heap)
      → link (suc k) i h n update ≡ link k (i + 1) (once i h n (update i)) n update
  unfolding link
  link-next k i h = refl

  pub link-entry : (k i : ℕ) (h : Heap) (q : ℕ) → (link k i h n update q).entry ≡ (h q).entry
  link-entry zero i h q = unfold link in refl
  link-entry (suc k) i h q =
      rw (link-next k i h)
        (link-entry k (i + 1) (once i h n (update i)) q ∙ once-entry i h n (update i) q)

  pub link-height : (k i : ℕ) (h : Heap) (q : ℕ) → (link k i h n update q).height ≡ (h q).height
  link-height zero i h q = unfold link in refl
  link-height (suc k) i h q =
      rw (link-next k i h)
        (link-height k (i + 1) (once i h n (update i)) q ∙ once-height i h n (update i) q)

  -- Levels out of reach keep their pointers.
  pub link-other :
      (k i : ℕ) (h : Heap) (q j : ℕ)
      → (j < i) ⊎ (i + k ≤ j)
      → (link k i h n update q).next j ≡ (h q).next j
  link-other zero i h q j out = unfold link in refl
  link-other (suc k) i h q j out =
      let out' : (j < i + 1) ⊎ (i + 1 + k ≤ j) = elim out [
        | inl lt ↦ inl (omega arith)
        | inr le ↦ inr (omega arith)
      ] in
      let ne : j ≢ i = elim out [ inl lt ↦ λ e. omega arith | inr le ↦ λ e. omega arith ] in
      rw (link-next k i h)
        (link-other k (i + 1) (once i h n (update i)) q j out' ∙ once-other i h n (update i) q j ne)

  -- The new node points to where its predecessor pointed.
  pub link-new :
      (k i : ℕ) (h : Heap) (j : ℕ)
      → ((m : ℕ) → update m ≢ n)
      → i ≤ j
      → j < i + k
      → (link k i h n update n).next j ≡ (h (update j)).next j
  link-new zero i h j fresh lo hi = absurd (omega arith)
  link-new (suc k) i h j fresh lo hi = elim (Bool-cases (j == i)) [
    | inl e ↦
        (let s : j ≡ i = ground arith in
          rw (s, link-next k i h)
            (link-other k (i + 1) (once i h n (update i)) n i (inl (omega arith))
              ∙ once-new i h n (update i) (fresh i)))
    | inr e ↦
        (let s : j ≢ i = ground arith in
          rw (link-next k i h) (
            link-new k (i + 1) (once i h n (update i)) j fresh (omega arith) (omega arith)
            ∙ once-other i h n (update i) (update j) j s))
  ]

  -- The predecessor points to the new node.
  pub link-last :
      (k i : ℕ) (h : Heap) (j : ℕ)
      → i ≤ j
      → j < i + k
      → (link k i h n update (update j)).next j ≡ some n
  link-last zero i h j lo hi = absurd (omega arith)
  link-last (suc k) i h j lo hi = elim (Bool-cases (j == i)) [
    | inl e ↦
        (let s : j ≡ i = ground arith in
          rw (s, link-next k i h)
            (link-other k (i + 1) (once i h n (update i)) (update i) i (inl (omega arith))
              ∙ once-last i h n (update i)))
    | inr e ↦
        (let s : j ≢ i = ground arith in
          rw (link-next k i h)
            (link-last k (i + 1) (once i h n (update i)) j (omega arith) (omega arith)))
  ]

  -- A node that is neither keeps its pointer.
  pub link-rest :
      (k i : ℕ) (h : Heap) (q j : ℕ)
      → q ≢ n
      → q ≢ update j
      → (link k i h n update q).next j ≡ (h q).next j
  link-rest zero i h q j ne ne' = unfold link in refl
  link-rest (suc k) i h q j ne ne' = elim (Bool-cases (j == i)) [
    | inl e ↦
        (let s : j ≡ i = ground arith in
          let ne1 : q ≢ update i = rw s at ne' in
          rw (s, link-next k i h)
            (link-rest k (i + 1) (once i h n (update i)) q i ne ne1
              ∙ once-rest i h n (update i) q ne ne1))
    | inr e ↦
        (let s : j ≢ i = ground arith in
          rw (link-next k i h) (
            link-rest k (i + 1) (once i h n (update i)) q j ne ne'
            ∙ once-other i h n (update i) q j s))
  ]
