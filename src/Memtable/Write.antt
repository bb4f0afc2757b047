-- ===== src/Memtable/Write.antt =====
-- Inserting a node keeps the invariant of the skip list.
use mathlib.Core.Path.{subst}
use go_durable_engine.Prelude.{
  ℕ, zero, suc, ◌+◌, ◌≤◌, ◌<◌, ◌≡◌, ◌≢◌, refl, sym, ap, ◌∙◌, inl, inr, Bool, false, Bool-cases,
  List, [], ◌∷◌, ◌++◌, arith, ltb, if◌then◌else◌, All, All-append_iff, All-append, length-append,
}
use go_durable_engine.Memtable.{
  Entry, Heap, SkipList, max_level, estimate_bytes, insert_node, random_level, level_loop,
}
use go_durable_engine.Memtable.Search.{
  last_tall, IsLinked, AreLinked, AreDistinct, last_tall-All, last_tall-next,
}
use go_durable_engine.Memtable.Insert.{
  Inserted, link-Inserted, link-own_entry, post-AreLinked, new-IsLinked, node-IsLinked,
  pre-AreLinked,
}
use go_durable_engine.Memtable.Contents.{key_of, IsAscending, total_bytes}
use go_durable_engine.Memtable.Invariant.{
  entries, entries-append, HaveLevels, Represents, Cut, AreLinked-behind,
}
use go_durable_engine.Memtable.Read.{search, search-Found}

All-true : (xs : List ℕ) → All (λ q. Unit {0}) xs
All-true [] = tt
All-true (x ∷ xs) = (tt, All-true xs)

All-map : {P Q : ℕ → Type 0} → ((q : ℕ) → P q → Q q) → (xs : List ℕ) → All P xs → All Q xs
All-map f [] all = tt
All-map f (x ∷ xs) all = (f x all.0, All-map f xs all.1)

All-zip :
    {P Q R : ℕ → Type 0}
    → ((q : ℕ) → P q → Q q → R q)
    → (xs : List ℕ) → All P xs
    → All Q xs
    → All R xs
All-zip f [] all all' = tt
All-zip f (x ∷ xs) all all' = (f x all.0 all'.0, All-zip f xs all.1 all'.1)

level_loop_bounds :
    (n : ℕ) (coins : ℕ → Bool) (lvl : ℕ)
    → (lvl ≤ level_loop n coins lvl) × (level_loop n coins lvl ≤ lvl + n)
unfolding level_loop
level_loop_bounds zero coins lvl = (omega arith, omega arith)
level_loop_bounds (suc n) coins lvl =
    let ih = level_loop_bounds n (λ k. coins (suc k)) (lvl + 1) in
    elim (Bool-cases (coins 0)) [
      | inl t ↦ rw t (omega (arith, ih.0), omega (arith, ih.1))
      | inr f ↦ rw f (omega arith, omega arith)
    ]

-- Whatever is drawn, a level lies between 1 and `max_level`.
pub random_level_bounds :
    (coins : ℕ → Bool) → (0 < random_level coins) × (random_level coins ≤ max_level)
unfolding random_level
random_level_bounds coins =
    let b = level_loop_bounds 15 coins 1 in (omega (arith, b.0), omega (arith, b.1))

last_tall-high :
    (h : Heap) (level i x : ℕ) (ids : List ℕ)
    → HaveLevels h level ids
    → level ≤ i
    → last_tall h i x ids ≡ x
last_tall-high h level i x [] have le = refl
last_tall-high h level i x (y ∷ ys) have le =
    let f : ltb i (h y).height ≡ false = ground (arith, have.0) in
    rw f (last_tall-high h level i x ys have.1 le)

AreDistinct-insert :
    (n : ℕ) (pre post : List ℕ)
    → All (λ q. q < n) (pre ++ post)
    → AreDistinct (pre ++ post)
    → AreDistinct (pre ++ n ∷ post)
AreDistinct-insert n [] post old d = (All-map (λ q lt e. omega arith) post old, d)
AreDistinct-insert n (x ∷ pre) post old d =
    let (a, b) = All-append_iff (λ q. x ≢ q) pre post d.0 in
    (
      All-append (λ q. x ≢ q) pre (n ∷ post) a ((λ e. omega (arith, old.0)), b),
      AreDistinct-insert n pre post old.1 d.1,
    )

AreDistinct-left : (pre post : List ℕ) → AreDistinct (pre ++ post) → AreDistinct pre
AreDistinct-left [] post d = tt
AreDistinct-left (x ∷ pre) post d =
    ((All-append_iff (λ q. x ≢ q) pre post d.0).0, AreDistinct-left pre post d.1)

pub AreDistinct-behind : (pre post : List ℕ) → AreDistinct (pre ++ post) → AreDistinct post
AreDistinct-behind [] post d = d
AreDistinct-behind (x ∷ pre) post d = AreDistinct-behind pre post d.1

-- Of distinct nodes, those of the second part differ from those of the first.
pub AreDistinct-parts :
    (pre post : List ℕ) → AreDistinct (pre ++ post) → All (λ q. All (λ y. q ≢ y) pre) post
AreDistinct-parts [] post d = All-map (λ q u. tt) post (All-true post)
AreDistinct-parts (x ∷ pre) post d =
    All-zip (λ q ne all. ((λ e. ne (sym e)), all)) post (All-append_iff (λ q. x ≢ q) pre post d.0).1
      (AreDistinct-parts pre post d.1)

pub total_bytes-append :
    (xs ys : List Entry) → total_bytes (xs ++ ys) ≡ total_bytes xs + total_bytes ys
total_bytes-append [] ys = omega arith
total_bytes-append (x ∷ xs) ys = omega (arith, total_bytes-append xs ys)

module _ (s : SkipList) (e : Entry) (es : List Entry) (c : Cut s (key_of e) es) (lvl : ℕ)
    (pos : 0 < lvl) (top : lvl ≤ max_level) where
  abbrev update : ℕ → ℕ
  update i = if ltb i s.level then (search s (key_of e)).1 i else s.head

  abbrev after : SkipList
  after = insert_node s e lvl (search s (key_of e)).1

  pre-old : All (λ q. q < s.fresh) (s.head ∷ c.pre) × All (λ q. q < s.fresh) c.post
  pre-old = All-append_iff (λ q. q < s.fresh) (s.head ∷ c.pre) c.post c.ok.allocated

  -- On each level, `update` is the last node in front of the place of the key.
  update-last_tall : (i : ℕ) → update i ≡ last_tall s.heap i s.head c.pre
  update-last_tall i = elim (Bool-cases (ltb i s.level)) [
    | inl t ↦ rw t ((search-Found s (key_of e) es c).lasts i (ground arith))
    | inr f ↦ rw f (
        sym (
          last_tall-high s.heap s.level i s.head c.pre
            (All-append_iff _ c.pre c.post c.ok.heights).0 (ground arith)))
  ]

  update-old : (i : ℕ) → update i ≢ s.fresh
  update-old i r =
      let lt : last_tall s.heap i s.head c.pre < s.fresh =
        last_tall-All s.heap (λ q. q < s.fresh) i s.head c.pre pre-old.0.0 pre-old.0.1 in
      omega (arith, update-last_tall i)

  after-Inserted : Inserted s.heap after.heap s.fresh lvl update
  unfolding insert_node
  after-Inserted = link-Inserted s.heap s.fresh lvl update e update-old

  ne_pre : All (λ q. q ≢ s.fresh) c.pre
  ne_pre = All-map (λ q lt r. omega arith) c.pre pre-old.0.1

  ne_post : All (λ q. q ≢ s.fresh) c.post
  ne_post = All-map (λ q lt r. omega arith) c.post pre-old.1

  -- No node behind the place is one that the new node was linked behind.
  post_apart : All (λ q. (j : ℕ) → j < lvl → q ≢ update j) c.post
  post_apart =
      All-map
        (λ q ne j lt r.
          last_tall-All s.heap (λ y. q ≢ y) j s.head c.pre ne.0 ne.1 (r ∙ update-last_tall j))
        c.post (AreDistinct-parts (s.head ∷ c.pre) c.post c.ok.distinct)

  after-links : IsLinked after.heap s.head (c.pre ++ s.fresh ∷ c.post)
  after-links =
      node-IsLinked s.heap after.heap s.fresh lvl update after-Inserted s.head (λ i. s.head) c.pre
        c.post (λ r. omega (arith, pre-old.0.0))
        (All-append_iff (λ q. s.head ≢ q) c.pre c.post c.ok.distinct.0).0 ne_pre ne_post
        (λ i lt. update-last_tall i) (λ i lt. refl) c.ok.links

  after-linked : AreLinked after.heap (c.pre ++ s.fresh ∷ c.post)
  after-linked =
      pre-AreLinked s.heap after.heap s.fresh lvl update after-Inserted (λ i. s.head) c.pre c.post
        (AreDistinct-left c.pre c.post c.ok.distinct.1) ne_pre ne_post (λ i lt. update-last_tall i)
        c.ok.linked
        (
          new-IsLinked s.heap after.heap s.fresh lvl update after-Inserted c.post ne_post (λ j lt.
              ap (λ (z : ℕ). (s.heap z).next j) (update-last_tall j)
              ∙ last_tall-next s.heap j s.head (key_of e) c.pre c.post c.below c.above c.ok.linked
                  (c.ok.links j (omega (arith, c.ok.full)))),
          post-AreLinked s.heap after.heap s.fresh lvl update after-Inserted c.post ne_post
              post_apart (AreLinked-behind s.heap c.pre c.post c.ok.linked),
        )

  entries-same :
      (ids : List ℕ) → All (λ q. q ≢ s.fresh) ids → entries after.heap ids ≡ entries s.heap ids
  entries-same [] ne = refl
  entries-same (x ∷ xs) ne =
      ap (λ (t : Entry). t ∷ entries after.heap xs) (after-Inserted.entries x ne.0)
      ∙ ap (λ (t : List Entry). (s.heap x).entry ∷ t) (entries-same xs ne.1)

  heights-same :
      (ids : List ℕ)
      → All (λ q. q ≢ s.fresh) ids
      → HaveLevels s.heap s.level ids
      → HaveLevels after.heap after.level ids
  unfolding insert_node
  heights-same ids ne have =
      All-zip
        (λ q n b. (
          omega (arith, after-Inserted.heights q n, b.0),
          ground (arith, after-Inserted.heights q n, b.1),
        ))
        ids ne have

  after-entries :
      entries after.heap (c.pre ++ s.fresh ∷ c.post)
      ≡ entries s.heap c.pre ++ e ∷ entries s.heap c.post
  unfolding insert_node
  after-entries =
      entries-append after.heap c.pre (s.fresh ∷ c.post)
      ∙ ap (λ (t : List Entry). t ++ entries after.heap (s.fresh ∷ c.post))
          (entries-same c.pre ne_pre)
      ∙ ap (λ (t : Entry). entries s.heap c.pre ++ t ∷ entries after.heap c.post)
          (link-own_entry s.heap s.fresh lvl update e)
      ∙ ap (λ (t : List Entry). entries s.heap c.pre ++ e ∷ t) (entries-same c.post ne_post)

  after-bytes : after.bytes ≡ total_bytes (entries after.heap (c.pre ++ s.fresh ∷ c.post))
  unfolding insert_node
  after-bytes =
      let old = c.ok.bytes ∙ ap total_bytes (entries-append s.heap c.pre c.post) in
      let l = total_bytes-append (entries s.heap c.pre) (entries s.heap c.post) in
      let r = total_bytes-append (entries s.heap c.pre) (e ∷ entries s.heap c.post) in
      let sum : s.bytes + estimate_bytes e
          ≡ total_bytes (entries s.heap c.pre ++ e ∷ entries s.heap c.post) =
        omega (arith, old, l, r) in
      sum ∙ ap total_bytes (sym after-entries)

  -- A new node stands at the place of its key.
  pub insert_node-Represents :
      IsAscending (entries s.heap c.pre ++ e ∷ entries s.heap c.post)
      → Represents after (entries s.heap c.pre ++ e ∷ entries s.heap c.post)
  unfolding insert_node
  insert_node-Represents asc =
      let len = length-append c.pre (s.fresh ∷ c.post) in
      let len' = length-append c.pre c.post in
      record {
        ids = c.pre ++ s.fresh ∷ c.post;
        ok = record {
          links = after-links;
          linked = after-linked;
          ascending = subst IsAscending (sym after-entries) asc;
          distinct =
              AreDistinct-insert s.fresh (s.head ∷ c.pre) c.post c.ok.allocated c.ok.distinct;
          allocated =
              All-append (λ q. q < s.fresh + 1) (s.head ∷ c.pre) (s.fresh ∷ c.post)
                (All-map (λ q lt. omega arith) (s.head ∷ c.pre) pre-old.0)
                (omega arith, All-map (λ q lt. omega arith) c.post pre-old.1);
          heights =
              (let (l, r) = All-append_iff _ c.pre c.post c.ok.heights in
                All-append _ c.pre (s.fresh ∷ c.post) (heights-same c.pre ne_pre l) (
                  (omega (arith, after-Inserted.height), ground (arith, after-Inserted.height)),
                  heights-same c.post ne_post r,
                ));
          full = after-Inserted.heights s.head (λ r. omega (arith, pre-old.0.0)) ∙ c.ok.full;
          low = ground (arith, c.ok.low);
          high = ground (arith, c.ok.high);
          room = omega (arith, len, len', c.ok.room);
          size = omega (arith, len, len', c.ok.size);
          bytes = after-bytes;
        };
        contents = after-entries;
      }
