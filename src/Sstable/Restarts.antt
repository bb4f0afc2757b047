-- ===== src/Sstable/Restarts.antt =====
-- The binary search over the restart points of a block, and the seek that uses it.
use mathlib.Core.Path.{subst}
use Prim.Native.Nat.{Ordering}
use go_durable_engine.Prelude.{
  ℕ, zero, suc, ◌+◌, ◌-◌, ◌/◌, ◌≤◌, ◌<◌, ◌≡◌, refl, sym, ap, ◌∙◌, ◌⊎◌, inl, inr, Bool, true, false,
  Bool-cases, List, [], ◌∷◌, ◌++◌, arith, length, get_or, ltb, if◌then◌else◌, ok, ◌>>=◌, Result,
  Bytes, All,
}
use go_durable_engine.Bytes.{compare, is_nonpos}
use go_durable_engine.Bytes.Order.{Before, Before-trans, compare-eq}
use go_durable_engine.Sstable.{Error, Entry}
use go_durable_engine.Sstable.Entries.{read_entry}
use go_durable_engine.Sstable.Reader.{BlockIter, Exit, jump, skip_below, restart_search, seek}
use go_durable_engine.Sstable.Seeking.{
  key_in, AreAscending, AreAscending-behind, lookup_in, lookup_in-below, Reads, length-Reads, Finds,
  skip_below-Finds,
}

-- A restart point: from it on, whatever stood in front, the block is read as the last of the entries.
pub record Point (b : Bytes) (es : List Entry) (off : ℕ) : Type 0 where
  pub pre : List Entry
  pub first : Entry
  pub post : List Entry
  pub whole : es ≡ pre ++ first ∷ post
  pub reads : Reads b off [] (first ∷ post)

-- The iterator that a jump to a restart point yields.
abbrev landed : (it : BlockIter) (es : List Entry) (off : ℕ) → Point it.block es off → BlockIter
landed it es off p =
    read_entry it p.reads.0 (key_in p.first) p.first.value p.first.seq p.first.deleted

jump-Point :
    (it : BlockIter) (es : List Entry) (off : ℕ) (p : Point it.block es off)
    → jump it off ≡ ok (landed it es off p)
unfolding jump
jump-Point it es off p = p.reads.2 (record it { off = off; key = [] }) refl refl refl

-- Nothing in front of the point has the key.
abbrev Skips : Bytes → List Entry → List Entry → Type 0
Skips key pre rest = lookup_in key (pre ++ rest) ≡ lookup_in key rest

All-middle :
    (P : Entry → Type 0) (xs : List Entry) (y : Entry) (ys : List Entry)
    → All P (xs ++ y ∷ ys)
    → P y
All-middle P [] y ys all = all.0
All-middle P (x ∷ xs) y ys all = All-middle P xs y ys all.1

All-Before :
    (key : Bytes) (xs : List Entry) (y : Entry) (ys : List Entry)
    → AreAscending (xs ++ y ∷ ys)
    → ((a : Bytes) → Before a (key_in y) → Before a key)
    → All (λ x. Before (key_in x) key) xs
All-Before key [] y ys asc le = tt
All-Before key (x ∷ xs) y ys asc le = (
  le (key_in x) (All-middle (λ z. Before (key_in x) (key_in z)) xs y ys asc.0),
  All-Before key xs y ys asc.1 le,
)

nonpos-Before : (a b key : Bytes) → is_nonpos (compare b key) ≡ true → Before a b → Before a key
nonpos-Before a b key t lt =
    elim (compare b key) as (λ o. compare b key ≡ o → Before a key) [
      | Ordering.lt ↦ λ q. Before-trans a b key lt q
      | Ordering.eq ↦ λ q. (let e = compare-eq b key q in ap (compare a) (sym e) ∙ lt)
      | Ordering.gt ↦ λ q. (let u = ap is_nonpos q in cc)
    ]
      refl

Skips-point :
    (key : Bytes) (xs : List Entry) (y : Entry) (ys : List Entry)
    → AreAscending (xs ++ y ∷ ys)
    → is_nonpos (compare (key_in y) key) ≡ true
    → Skips key xs (y ∷ ys)
Skips-point key xs y ys asc t =
    lookup_in-below key xs (y ∷ ys)
      (All-Before key xs y ys asc (λ a lt. nonpos-Before a (key_in y) key t lt))

-- The restart points of a block: each is one, and the first stands in front of all entries.
pub record Points (b : Bytes) (restarts : List ℕ) (es : List Entry) : Type 0 where
  pub each : All (Point b es) restarts
  pub first : get_or restarts 0 0 ≡ 0
  pub start : Reads b 0 [] es
  pub some_point : 0 < length restarts

Point-at :
    (b : Bytes) (es : List Entry) (restarts : List ℕ) (i : ℕ)
    → All (Point b es) restarts
    → i < length restarts
    → Point b es (get_or restarts i 0)
Point-at b es [] i all lt = absurd (omega arith)
Point-at b es (r ∷ rs) zero all lt = all.0
Point-at b es (r ∷ rs) (suc i) all lt = Point-at b es rs i all.1 (omega arith)

-- The entries from the point on have the key if any entry has it.
abbrev Good : BlockIter → List Entry → Bytes → ℕ → Type 0
Good it es key n =
    (n ≡ 0)
    ⊎ ((p : Point it.block es (get_or it.restarts n 0)) × (is_nonpos (compare (key_in p.first) key)
          ≡ true))

restart_search-step :
    (fuel : ℕ) (it it' : BlockIter) (key : Bytes) (lo hi : ℕ)
    → lo < hi
    → jump it (get_or it.restarts ((lo + hi + 1) / 2) 0) ≡ ok it'
    → it'.valid ≡ true
    → restart_search (suc fuel) it key lo hi ≡ (
        if is_nonpos (compare it'.key key)
        then restart_search fuel it' key ((lo + hi + 1) / 2) hi
        else restart_search fuel it' key lo ((lo + hi + 1) / 2 - 1))
unfolding restart_search
restart_search-step fuel it it' key lo hi lt j v =
    let t : ltb lo hi ≡ true = ground arith in rw (t, j, restart_search) (rw v refl)

restart_search-stop :
    (fuel : ℕ) (it : BlockIter) (key : Bytes) (lo hi : ℕ)
    → hi ≤ lo
    → restart_search fuel it key lo hi ≡ ok lo
restart_search-stop zero it key lo hi le = unfold restart_search in refl
restart_search-stop (suc fuel) it key lo hi le =
    let t : ltb lo hi ≡ false = ground arith in unfold restart_search in rw t refl

restart_search-Good :
    (fuel : ℕ) (it : BlockIter) (es : List Entry) (key : Bytes) (lo hi : ℕ)
    → Points it.block it.restarts es
    → lo ≤ hi
    → hi < length it.restarts
    → Good it es key lo
    → (n : ℕ) × (restart_search fuel it key lo hi ≡ ok n)
      × (n < length it.restarts)
      × Good it es key n
restart_search-Good zero it es key lo hi pts le lt good =
    (lo, unfold restart_search in refl, omega arith, good)
restart_search-Good (suc fuel) it es key lo hi pts le lt good = elim (Bool-cases (ltb lo hi)) [
  | inr f ↦ (lo, restart_search-stop (suc fuel) it key lo hi (ground arith), omega arith, good)
  | inl t ↦
      let mid = (lo + hi + 1) / 2 in
      let p = Point-at it.block es it.restarts mid pts.each (ground arith) in
      let it' = landed it es (get_or it.restarts mid 0) p in
      let e =
        restart_search-step fuel it it' key lo hi (ground arith)
          (jump-Point it es (get_or it.restarts mid 0) p) refl in
      elim (Bool-cases (is_nonpos (compare (key_in p.first) key))) [
        | inl u ↦
            let r = restart_search-Good fuel it' es key mid hi pts (ground arith) lt (inr (p, u)) in
            (
              r.0,
              e
                  ∙ ap
                      (λ (c : Bool).
                        if c
                        then restart_search fuel it' key mid hi
                        else restart_search fuel it' key lo (mid - 1))
                      u
                  ∙ r.1,
              r.2,
              r.3,
            )
        | inr u ↦
            let r =
              restart_search-Good fuel it' es key lo (mid - 1) pts (ground arith) (ground arith)
                good in
            (
              r.0,
              e
                  ∙ ap
                      (λ (c : Bool).
                        if c
                        then restart_search fuel it' key mid hi
                        else restart_search fuel it' key lo (mid - 1))
                      u
                  ∙ r.1,
              r.2,
              r.3,
            )
      ]
]

-- A jump to a point in front of which the key is not, and the loop behind it.
jump-Finds :
    (it : BlockIter) (es : List Entry) (off fuel : ℕ) (key : Bytes)
    → (p : Point it.block es off) → AreAscending es
    → Skips key p.pre (p.first ∷ p.post)
    → length it.block < fuel
    → Finds key es (jump it off >>= λ it'. skip_below fuel it' key)
jump-Finds it es off fuel key p asc skips lt =
    let asc' = AreAscending-behind p.pre (p.first ∷ p.post) (subst AreAscending p.whole asc) in
    let it' = landed it es off p in
    let n = length-Reads p.post it.block p.reads.0 (key_in p.first) p.reads.3 in
    let f = skip_below-Finds p.post p.first fuel it' key refl refl p.reads.3 asc' (omega arith) in
    (
      f.0,
      ap (λ (r : Exit). r >>= λ a. skip_below fuel a key) (jump-Point it es off p) ∙ f.1,
      f.2 ∙ sym skips ∙ ap (lookup_in key) (sym p.whole),
    )

-- What `seek` does where there are restart points.
abbrev searched : BlockIter → Bytes → Exit
searched it key = restart_search (length it.restarts) it key 0 (length it.restarts - 1) >>= λ lo.
    jump it (get_or it.restarts lo 0) >>= λ it'. skip_below (length it.block + 1) it' key

seek-searched :
    (it : BlockIter) (key : Bytes) → 0 < length it.restarts → seek it key ≡ searched it key
unfolding seek
seek-searched it key some_point =
    elim it.restarts
        as (λ (l : List ℕ).
          0 < length l
          → (elim l as (λ x. Exit) [
            | [] ↦ jump it 0 >>= λ it'. skip_below (length it.block + 1) it' key
            | r ∷ rs ↦ searched it key
          ])
            ≡ searched it key) [ [] ↦ λ lt. absurd (omega arith) | r ∷ rs ↦ λ lt. refl ]
      some_point

Point-Good :
    (it : BlockIter) (e : Entry) (es : List Entry) (key : Bytes) (n : ℕ)
    → Points it.block it.restarts (e ∷ es)
    → AreAscending (e ∷ es)
    → Good it (e ∷ es) key n
    → (p : Point it.block (e ∷ es) (get_or it.restarts n 0)) × Skips key p.pre (p.first ∷ p.post)
Point-Good it e es key n pts asc good = elim good [
  | inl z ↦ (
    record {
      pre = [];
      first = e;
      post = es;
      whole = refl;
      reads =
          subst (λ (i : ℕ). Reads it.block i [] (e ∷ es))
            (sym (ap (λ (i : ℕ). get_or it.restarts i 0) z ∙ pts.first)) pts.start;
    },
    refl,
  )
  | inr (p, u) ↦ (p, Skips-point key p.pre p.first p.post (subst AreAscending p.whole asc) u)
]

-- A seek in a block of entries in order, whose restart points are right, from wherever the iterator
-- is: it ends on the entry of the key if the block has one.
pub seek-Finds :
    (it : BlockIter) (e : Entry) (es : List Entry) (key : Bytes)
    → Points it.block it.restarts (e ∷ es)
    → AreAscending (e ∷ es)
    → Finds key (e ∷ es) (seek it key)
seek-Finds it e es key pts asc =
    let r =
      restart_search-Good (length it.restarts) it (e ∷ es) key 0 (length it.restarts - 1) pts
        (omega arith) (omega (arith, pts.some_point)) (inl refl) in
    let p = Point-Good it e es key r.0 pts asc r.3 in
    let f =
      jump-Finds it (e ∷ es) (get_or it.restarts r.0 0) (length it.block + 1) key p.0 asc p.1
        (omega arith) in
    (
      f.0,
      seek-searched it key pts.some_point
          ∙ ap
              (λ (x : Result Error ℕ). x >>= λ lo. jump it (get_or it.restarts lo 0) >>= λ it'.
                skip_below (length it.block + 1) it' key)
              r.1
          ∙ f.1,
      f.2,
    )
