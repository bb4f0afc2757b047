-- ===== src/Sstable/Picked.antt =====
-- The binary search over the index: the block that it picks is the only one that may have the key.
use mathlib.Core.Path.{subst}
use Prim.Native.Nat.{Ordering}
use go_durable_engine.Prelude.{
  ℕ, zero, suc, ◌≤◌, ◌<◌, ◌≡◌, refl, sym, ap, ◌∙◌, inl, inr, Bool, true, false, Bool-cases, Option,
  none, some, List, [], ◌∷◌, ◌++◌, arith, length, get_elem?, if◌then◌else◌, Bytes, All,
  All-append_iff,
}
use go_durable_engine.Bytes.{content, compare, is_nonneg, equal}
use go_durable_engine.Bytes.Order.{Before, Before-gt, Before-trans, compare-gt, compare-eq}
use go_durable_engine.Sstable.{Entry, IndexRec}
use go_durable_engine.Sstable.Reader.{Reader, block_for}
use go_durable_engine.Sstable.Blocks.{stored}
use go_durable_engine.Sstable.Seeking.{
  key_in, AreAscending, AreAscending-behind, lookup_in, lookup_in-below, lookup_in-above,
}
use go_durable_engine.Sstable.Indexed.{last_of, Stored, AllStored, concat}

-- What is documented of `sort.Search`: for a test that, once true, stays true, the first index at
-- which it is true, or the length.
abbrev pub IsSearch : (ℕ → (ℕ → Bool) → ℕ) → Type 0
IsSearch search =
    (n : ℕ) (p : ℕ → Bool)
    → ((i j : ℕ) → i ≤ j → j < n → p i ≡ true → p j ≡ true)
    → (search n p ≤ n)
      × ((i : ℕ) → i < search n p → p i ≡ false)
      × (search n p < n → p (search n p) ≡ true)

abbrev pub reaches : Bytes → Option IndexRec → Bool
reaches key none = false
reaches key (some r) = is_nonneg (compare (content r.last_key) key)

-- The first record whose last key is not below the key.
abbrev pub pick : Bytes → List IndexRec → Option IndexRec
pick key [] = none
pick key (r ∷ rs) = if is_nonneg (compare (content r.last_key) key) then some r else pick key rs

abbrev pub LastsAscending : List IndexRec → Type 0
LastsAscending [] = Unit {0}
LastsAscending (r ∷ rs) =
    All (λ q. Before (content r.last_key) (content q.last_key)) rs × LastsAscending rs

nonneg-Before : (a b key : Bytes) → is_nonneg (compare a key) ≡ true → Before a b → Before key b
nonneg-Before a b key t lt =
    elim (compare a key) as (λ o. compare a key ≡ o → Before key b) [
      | Ordering.lt ↦ λ q. (let u = ap is_nonneg q in cc)
      | Ordering.eq ↦
          λ q. (let e = compare-eq a key q in ap (λ (x : Bytes). compare x b) (sym e) ∙ lt)
      | Ordering.gt ↦ λ q. Before-trans key a b (compare-gt a key q) lt
    ]
      refl

Before-nonneg : (a key : Bytes) → is_nonneg (compare a key) ≡ false → Before a key
Before-nonneg a key f =
    elim (compare a key) as (λ o. compare a key ≡ o → Before a key) [
      | Ordering.lt ↦ λ q. q
      | Ordering.eq ↦ λ q. (let u = ap is_nonneg q in cc)
      | Ordering.gt ↦ λ q. (let u = ap is_nonneg q in cc)
    ]
      refl

Before-is_nonneg : (key b : Bytes) → Before key b → is_nonneg (compare b key) ≡ true
Before-is_nonneg key b lt = ap is_nonneg (Before-gt key b lt)

All-reaches :
    (key : Bytes) (r : IndexRec) (rs : List IndexRec) (j : ℕ)
    → All (λ q. Before (content r.last_key) (content q.last_key)) rs
    → is_nonneg (compare (content r.last_key) key) ≡ true
    → j < length rs
    → reaches key (get_elem? rs j) ≡ true
All-reaches key r [] j all t lt = absurd (omega arith)
All-reaches key r (q ∷ rs) zero all t lt =
    Before-is_nonneg key (content q.last_key)
      (nonneg-Before (content r.last_key) (content q.last_key) key t all.0)
All-reaches key r (q ∷ rs) (suc j) all t lt = All-reaches key r rs j all.1 t (omega arith)

reaches-monotone :
    (key : Bytes) (rs : List IndexRec) (i j : ℕ)
    → LastsAscending rs
    → i ≤ j
    → j < length rs
    → reaches key (get_elem? rs i) ≡ true
    → reaches key (get_elem? rs j) ≡ true
reaches-monotone key [] i j asc le lt t = absurd (omega arith)
reaches-monotone key (r ∷ rs) zero zero asc le lt t = t
reaches-monotone key (r ∷ rs) zero (suc j) asc le lt t =
    All-reaches key r rs j asc.0 t (omega arith)
reaches-monotone key (r ∷ rs) (suc i) zero asc le lt t = absurd (omega arith)
reaches-monotone key (r ∷ rs) (suc i) (suc j) asc le lt t =
    reaches-monotone key rs i j asc.1 (omega arith) (omega arith) t

get_elem?-pick :
    (key : Bytes) (rs : List IndexRec) (n : ℕ)
    → n ≤ length rs
    → ((i : ℕ) → i < n → reaches key (get_elem? rs i) ≡ false)
    → (n < length rs → reaches key (get_elem? rs n) ≡ true)
    → get_elem? rs n ≡ pick key rs
get_elem?-pick key [] n le before here = refl
get_elem?-pick key (r ∷ rs) zero le before here = rw (here (omega arith)) refl
get_elem?-pick key (r ∷ rs) (suc n) le before here = rw (before 0 (omega arith)) (
    get_elem?-pick key rs n (omega arith) (λ i lt. before (suc i) (omega arith))
      (λ lt. here (omega arith)))

-- The search finds the first record that reaches the key.
pub block_for-pick :
    (search : ℕ → (ℕ → Bool) → ℕ) (r : Reader) (key : Bytes)
    → IsSearch search
    → LastsAscending r.index
    → block_for search r key ≡ pick key r.index
unfolding block_for
block_for-pick search r key law asc =
    let s =
      law (length r.index) (λ i. reaches key (get_elem? r.index i))
        (λ i j le lt t. reaches-monotone key r.index i j asc le lt t) in
    get_elem?-pick key r.index _ s.0 s.1 s.2

-- The last of entries in order is not before any, and before what is behind it.
pub last_of-behind :
    (e : Entry) (es ys : List Entry)
    → AreAscending (e ∷ (es ++ ys))
    → All (λ y. Before (content (last_of none (e ∷ es))) (key_in y)) ys
last_of-behind e [] ys asc = asc.0
last_of-behind e (x ∷ es) ys asc = last_of-behind x es ys asc.1

last_of-below :
    (key : Bytes) (e : Entry) (es : List Entry)
    → AreAscending (e ∷ es)
    → Before (content (last_of none (e ∷ es))) key
    → All (λ y. Before (key_in y) key) (e ∷ es)
last_of-below key e [] asc lt = (lt, tt)
last_of-below key e (x ∷ es) asc lt =
    let rest = last_of-below key x es asc.1 lt in
    (Before-trans (key_in e) (key_in x) key asc.0.0 rest.0, rest)

All-nonneg :
    (a key : Bytes) (ys : List Entry)
    → is_nonneg (compare a key) ≡ true
    → All (λ y. Before a (key_in y)) ys
    → All (λ y. Before key (key_in y)) ys
All-nonneg a key [] t all = tt
All-nonneg a key (y ∷ ys) t all =
    (nonneg-Before a (key_in y) key t all.0, All-nonneg a key ys t all.1)

lookup_in-front :
    (key : Bytes) (xs ys : List Entry)
    → lookup_in key ys ≡ none
    → lookup_in key (xs ++ ys) ≡ lookup_in key xs
unfolding lookup_in
lookup_in-front key [] ys h = h
lookup_in-front key (x ∷ xs) ys h =
    ap (λ (t : Option Entry). if equal (key_in x) key then some (stored x) else t)
      (lookup_in-front key xs ys h)

AreAscending-front : (xs ys : List Entry) → AreAscending (xs ++ ys) → AreAscending xs
AreAscending-front [] ys asc = tt
AreAscending-front (x ∷ xs) ys asc = (
  (All-append_iff (λ y. Before (key_in x) (key_in y)) xs ys asc.0).0,
  AreAscending-front xs ys asc.1,
)

-- What the picked record has to do with the entries of the table.
abbrev pub Picks : Bytes → Bytes → List Entry → Option IndexRec → Type 0
Picks file key all none = lookup_in key all ≡ none
Picks file key all (some r) =
    (b : List Entry) × Stored file r b × AreAscending b × (lookup_in key all ≡ lookup_in key b)

Picks-more :
    (file key : Bytes) (xs ys : List Entry) (o : Option IndexRec)
    → lookup_in key (xs ++ ys) ≡ lookup_in key ys
    → Picks file key ys o
    → Picks file key (xs ++ ys) o
Picks-more file key xs ys none e h = e ∙ h
Picks-more file key xs ys (some r) e h = (h.0, h.1, h.2, e ∙ h.3)

pub pick-Picks :
    (rs : List IndexRec) (bs : List (List Entry)) (file key : Bytes)
    → AllStored file rs bs
    → AreAscending (concat bs)
    → Picks file key (concat bs) (pick key rs)
pick-Picks [] [] file key s asc = unfold lookup_in in refl
pick-Picks [] (b ∷ bs) file key s asc = absurd s
pick-Picks (r ∷ rs) [] file key s asc = absurd s
pick-Picks (r ∷ rs) (b ∷ bs) file key s asc =
    let st = s.0 in
    let asc' : AreAscending (b ++ concat bs) = asc in
    let split : AreAscending (st.first ∷ (st.others ++ concat bs)) =
      subst (λ (t : List Entry). AreAscending (t ++ concat bs)) st.whole asc' in
    let last : content r.last_key ≡ content (last_of none (st.first ∷ st.others)) =
      ap content (st.last ∙ ap (last_of none) st.whole) in
    elim (Bool-cases (is_nonneg (compare (content r.last_key) key))) [
      | inl t ↦
          let above =
            All-nonneg (content (last_of none (st.first ∷ st.others))) key (concat bs)
              (ap (λ (x : Bytes). is_nonneg (compare x key)) (sym last) ∙ t)
              (last_of-behind st.first st.others (concat bs) split) in
          rw t (
            b,
            st,
            AreAscending-front b (concat bs) asc',
            lookup_in-front key b (concat bs) (lookup_in-above key (concat bs) above),
          )
      | inr f ↦
          let below =
            last_of-below key st.first st.others
              (AreAscending-front (st.first ∷ st.others) (concat bs) split)
              (Before-nonneg (content (last_of none (st.first ∷ st.others))) key
                (ap (λ (x : Bytes). is_nonneg (compare x key)) (sym last) ∙ f)) in
          let skip : lookup_in key (b ++ concat bs) ≡ lookup_in key (concat bs) =
            lookup_in-below key b (concat bs)
              (subst (All (λ x. Before (key_in x) key)) (sym st.whole) below) in
          rw f (
            Picks-more file key b (concat bs) (pick key rs) skip
              (pick-Picks rs bs file key s.1 (AreAscending-behind b (concat bs) asc')))
    ]

last_of-All :
    (a : Bytes) (e : Entry) (es : List Entry)
    → All (λ y. Before a (key_in y)) (e ∷ es)
    → Before a (content (last_of none (e ∷ es)))
last_of-All a e [] all = all.0
last_of-All a e (x ∷ es) all = last_of-All a x es all.1

All-lasts :
    (a : Bytes) (rs : List IndexRec) (bs : List (List Entry)) (file : Bytes)
    → AllStored file rs bs
    → All (λ y. Before a (key_in y)) (concat bs)
    → All (λ q. Before a (content q.last_key)) rs
All-lasts a [] bs file s all = tt
All-lasts a (r ∷ rs) [] file s all = absurd s
All-lasts a (r ∷ rs) (b ∷ bs) file s all =
    let st = s.0 in
    let parts = All-append_iff (λ y. Before a (key_in y)) b (concat bs) all in
    let last : content r.last_key ≡ content (last_of none (st.first ∷ st.others)) =
      ap content (st.last ∙ ap (last_of none) st.whole) in
    (
      ap (compare a) last
          ∙ last_of-All a st.first st.others
              (subst (All (λ y. Before a (key_in y))) st.whole parts.0),
      All-lasts a rs bs file s.1 parts.1,
    )

-- The last keys of blocks in order are in order.
pub AllStored-LastsAscending :
    (rs : List IndexRec) (bs : List (List Entry)) (file : Bytes)
    → AllStored file rs bs
    → AreAscending (concat bs)
    → LastsAscending rs
AllStored-LastsAscending [] bs file s asc = tt
AllStored-LastsAscending (r ∷ rs) [] file s asc = absurd s
AllStored-LastsAscending (r ∷ rs) (b ∷ bs) file s asc =
    let st = s.0 in
    let split : AreAscending (st.first ∷ (st.others ++ concat bs)) =
      subst (λ (t : List Entry). AreAscending (t ++ concat bs)) st.whole asc in
    let last : content r.last_key ≡ content (last_of none (st.first ∷ st.others)) =
      ap content (st.last ∙ ap (last_of none) st.whole) in
    (
      All-lasts (content r.last_key) rs bs file s.1 (
          subst (λ (a : Bytes). All (λ y. Before a (key_in y)) (concat bs)) (sym last)
            (last_of-behind st.first st.others (concat bs) split)),
      AllStored-LastsAscending rs bs file s.1 (AreAscending-behind b (concat bs) asc),
    )
