-- ===== src/Memtable/Contents.antt =====
-- What a skip list promises: a list of entries in ascending order of their keys, and what a write, a
-- read and a seek do with such a list.
use Prim.Native.Nat.{Ordering}
use go_durable_engine.Prelude.{
  ℕ, ◌+◌, ◌≡◌, ◌≢◌, refl, sym, ap, ◌∙◌, inl, inr, true, false, Bool-cases, Option, none, some, List,
  [], ◌∷◌, ◌++◌, arith, leb, if◌then◌else◌, Bytes, All,
}
use go_durable_engine.Bytes.{content, compare, is_neg}
use go_durable_engine.Bytes.Order.{
  is_neg-Before, Before-is_neg, Before, Before-trans, Before-gt, compare_refl, compare-eq,
  compare-gt,
}
use go_durable_engine.Memtable.{Entry, estimate_bytes}

abbrev pub key_of : Entry → Bytes
key_of e = content e.key

abbrev pub IsAscending : List Entry → Type 0
IsAscending [] = Unit {0}
IsAscending (x ∷ xs) = All (λ y. Before (key_of x) (key_of y)) xs × IsAscending xs

-- An entry over an older one of the same key; the older one's key is kept.
abbrev pub newer : Entry → Entry → Entry
newer old e =
    if leb old.seq e.seq
    then record old { value = e.value; seq = e.seq; deleted = e.deleted }
    else old

unfoldable pub insert_entry : Entry → List Entry → List Entry
insert_entry e [] = e ∷ []
insert_entry e (x ∷ xs) = elim (compare (key_of x) (key_of e)) [
  | Ordering.lt ↦ x ∷ insert_entry e xs
  | Ordering.eq ↦ newer x e ∷ xs
  | Ordering.gt ↦ e ∷ x ∷ xs
]

unfoldable pub find_entry : Bytes → List Entry → Option Entry
find_entry key [] = none
find_entry key (x ∷ xs) = elim (compare (key_of x) key) [
  | Ordering.eq ↦ some x
  | _ ↦ find_entry key xs
]

-- The entries whose key is not below the target.
unfoldable pub seek : Bytes → List Entry → List Entry
seek key [] = []
seek key (x ∷ xs) = if is_neg (compare (key_of x) key) then seek key xs else x ∷ xs

abbrev pub total_bytes : List Entry → ℕ
total_bytes [] = 0
total_bytes (x ∷ xs) = estimate_bytes x + total_bytes xs

abbrev pub LiesBelow : Bytes → List Entry → Type 0
LiesBelow key xs = All (λ x. is_neg (compare (key_of x) key) ≡ true) xs

abbrev pub LiesNotBelow : Bytes → List Entry → Type 0
LiesNotBelow key xs = All (λ x. is_neg (compare (key_of x) key) ≡ false) xs

-- Behind an entry that is not below, nothing is.
pub Before-not_below :
    (a b key : Bytes) → Before a b → is_neg (compare a key) ≡ false → is_neg (compare b key) ≡ false
Before-not_below a b key lt e = elim (Bool-cases (is_neg (compare b key))) [
  | inr f ↦ f
  | inl t ↦ (let u = Before-is_neg a key (Before-trans a b key lt (is_neg-Before b key t)) in cc)
]

pub All-imply :
    {P Q : Entry → Type 0} → ((x : Entry) → P x → Q x) → (xs : List Entry) → All P xs → All Q xs
All-imply f [] all = tt
All-imply f (x ∷ xs) all = (f x all.0, All-imply f xs all.1)

pub data Compared (a b : Bytes) : Type 0 where
  before : Before a b → Compared a b
  same : compare a b ≡ Ordering.eq → Compared a b
  after : compare a b ≡ Ordering.gt → Compared a b

pub compare-cases : (a b : Bytes) → Compared a b
compare-cases a b =
    elim (compare a b) as (λ o. compare a b ≡ o → Compared a b) [
      | Ordering.lt ↦ λ e. Compared.before e
      | Ordering.eq ↦ λ e. Compared.same e
      | Ordering.gt ↦ λ e. Compared.after e
    ]
      refl

insert_entry-before :
    (e x : Entry) (xs : List Entry)
    → compare (key_of x) (key_of e) ≡ Ordering.lt
    → insert_entry e (x ∷ xs) ≡ x ∷ insert_entry e xs
unfolding insert_entry
insert_entry-before e x xs o = rw (o, insert_entry)

pub insert_entry-same :
    (e x : Entry) (xs : List Entry)
    → compare (key_of x) (key_of e) ≡ Ordering.eq
    → insert_entry e (x ∷ xs) ≡ newer x e ∷ xs
unfolding insert_entry
insert_entry-same e x xs o = rw (o, insert_entry)

pub insert_entry-after :
    (e x : Entry) (xs : List Entry)
    → compare (key_of x) (key_of e) ≡ Ordering.gt
    → insert_entry e (x ∷ xs) ≡ e ∷ x ∷ xs
unfolding insert_entry
insert_entry-after e x xs o = rw (o, insert_entry)

pub find_entry-hit :
    (key : Bytes) (x : Entry) (xs : List Entry)
    → compare (key_of x) key ≡ Ordering.eq
    → find_entry key (x ∷ xs) ≡ some x
unfolding find_entry
find_entry-hit key x xs e = rw (e, find_entry)

pub find_entry-skip :
    (key : Bytes) (x : Entry) (xs : List Entry)
    → compare (key_of x) key ≢ Ordering.eq
    → find_entry key (x ∷ xs) ≡ find_entry key xs
unfolding find_entry
find_entry-skip key x xs ne = elim (compare-cases (key_of x) key) [
  | Compared.before o ↦ rw (o, find_entry)
  | Compared.same o ↦ absurd (ne o)
  | Compared.after o ↦ rw (o, find_entry)
]

pub insert_entry-below :
    (e : Entry) (xs ys : List Entry)
    → LiesBelow (key_of e) xs
    → insert_entry e (xs ++ ys) ≡ xs ++ insert_entry e ys
unfolding insert_entry
insert_entry-below e [] ys below = refl
insert_entry-below e (x ∷ xs) ys below =
    insert_entry-before e x (xs ++ ys) (is_neg-Before (key_of x) (key_of e) below.0)
    ∙ (ap (λ (t : List Entry). x ∷ t) (insert_entry-below e xs ys below.1))

pub find_entry-below :
    (key : Bytes) (xs ys : List Entry)
    → LiesBelow key xs
    → find_entry key (xs ++ ys) ≡ find_entry key ys
unfolding find_entry
find_entry-below key [] ys below = refl
find_entry-below key (x ∷ xs) ys below =
    find_entry-skip key x (xs ++ ys) (let o = is_neg-Before (key_of x) key below.0 in λ q. cc)
    ∙ (find_entry-below key xs ys below.1)

pub seek-split :
    (key : Bytes) (xs ys : List Entry)
    → LiesBelow key xs
    → LiesNotBelow key ys
    → seek key (xs ++ ys) ≡ ys
unfolding seek
seek-split key [] [] below above = refl
seek-split key [] (y ∷ ys) below above = rw above.0 refl
seek-split key (x ∷ xs) ys below above = rw below.0 (seek-split key xs ys below.1 above)

-- Nothing behind the entry has the key.
pub find_entry-absent :
    (key : Bytes) (xs : List Entry) → All (λ x. Before key (key_of x)) xs → find_entry key xs ≡ none
unfolding find_entry
find_entry-absent key [] all = refl
find_entry-absent key (x ∷ xs) all =
    find_entry-skip key x xs (let o = Before-gt key (key_of x) all.0 in λ q. cc)
    ∙ find_entry-absent key xs all.1

newer-key_of : (x e : Entry) → key_of (newer x e) ≡ key_of x
newer-key_of x e = ground arith

All-insert_entry :
    (a : Bytes) (e : Entry) (xs : List Entry)
    → Before a (key_of e)
    → All (λ y. Before a (key_of y)) xs
    → All (λ y. Before a (key_of y)) (insert_entry e xs)
All-insert_entry a e [] lt all = unfold insert_entry in (lt, tt)
All-insert_entry a e (x ∷ xs) lt all = elim (compare-cases (key_of x) (key_of e)) [
  | Compared.before o ↦ rw (insert_entry-before e x xs o) (all.0, All-insert_entry a e xs lt all.1)
  | Compared.same o ↦
      rw (insert_entry-same e x xs o) (ap (compare a) (newer-key_of x e) ∙ all.0, all.1)
  | Compared.after o ↦ rw (insert_entry-after e x xs o) (lt, (all.0, all.1))
]

pub IsAscending-behind : (xs ys : List Entry) → IsAscending (xs ++ ys) → IsAscending ys
IsAscending-behind [] ys s = s
IsAscending-behind (x ∷ xs) ys s = IsAscending-behind xs ys s.1

-- A write keeps the order.
pub insert_entry-IsAscending :
    (e : Entry) (xs : List Entry) → IsAscending xs → IsAscending (insert_entry e xs)
insert_entry-IsAscending e [] s = unfold insert_entry in (tt, tt)
insert_entry-IsAscending e (x ∷ xs) s = elim (compare-cases (key_of x) (key_of e)) [
  | Compared.before o ↦
      rw (insert_entry-before e x xs o)
        (All-insert_entry (key_of x) e xs o s.0, insert_entry-IsAscending e xs s.1)
  | Compared.same o ↦ rw (insert_entry-same e x xs o) (
    All-imply (λ y lt. ap (λ (k : Bytes). compare k (key_of y)) (newer-key_of x e) ∙ lt) xs s.0,
    s.1,
  )
  | Compared.after o ↦ rw (insert_entry-after e x xs o) (
    (
      compare-gt (key_of x) (key_of e) o,
      All-imply
          (λ y lt.
            Before-trans (key_of e) (key_of x) (key_of y) (compare-gt (key_of x) (key_of e) o) lt)
          xs s.0,
    ),
    s,
  )
]

-- What a key holds after a write to it.
abbrev pub updated : Entry → Option Entry → Option Entry
updated e none = some e
updated e (some old) = some (newer old e)

pub insert_entry-read :
    (e : Entry) (xs : List Entry)
    → IsAscending xs
    → find_entry (key_of e) (insert_entry e xs) ≡ updated e (find_entry (key_of e) xs)
insert_entry-read e [] s =
    unfold insert_entry find_entry in find_entry-hit (key_of e) e [] (compare_refl (key_of e))
insert_entry-read e (x ∷ xs) s = elim (compare-cases (key_of x) (key_of e)) [
  | Compared.before o ↦
      let ne : compare (key_of x) (key_of e) ≢ Ordering.eq = λ q. cc in
      rw
        (
          insert_entry-before e x xs o,
          find_entry-skip (key_of e) x (insert_entry e xs) ne,
          find_entry-skip (key_of e) x xs ne,
        )
        (insert_entry-read e xs s.1)
  | Compared.same o ↦
      let hit = find_entry-hit (key_of e) x xs o in
      rw (insert_entry-same e x xs o, hit)
        (find_entry-hit (key_of e) (newer x e) xs
          (ap (λ (k : Bytes). compare k (key_of e)) (newer-key_of x e) ∙ o))
  | Compared.after o ↦
      let lt = compare-gt (key_of x) (key_of e) o in
      let absent =
        find_entry-absent (key_of e) (x ∷ xs)
          (lt, All-imply (λ y l. Before-trans (key_of e) (key_of x) (key_of y) lt l) xs s.0) in
      rw (insert_entry-after e x xs o, absent)
        (find_entry-hit (key_of e) e (x ∷ xs) (compare_refl (key_of e)))
]

insert_entry-skip :
    (key : Bytes) (e x : Entry) (xs : List Entry)
    → compare (key_of x) key ≢ Ordering.eq
    → find_entry key (insert_entry e xs) ≡ find_entry key xs
    → find_entry key (x ∷ insert_entry e xs) ≡ find_entry key (x ∷ xs)
insert_entry-skip key e x xs ne ih =
    find_entry-skip key x (insert_entry e xs) ne ∙ ih ∙ sym (find_entry-skip key x xs ne)

pub insert_entry-other :
    (key : Bytes) (e : Entry) (xs : List Entry)
    → compare (key_of e) key ≢ Ordering.eq
    → find_entry key (insert_entry e xs) ≡ find_entry key xs
insert_entry-other key e [] ne = unfold insert_entry in find_entry-skip key e [] ne
insert_entry-other key e (x ∷ xs) ne = elim (compare-cases (key_of x) (key_of e)) [
  | Compared.before o ↦ rw (insert_entry-before e x xs o) (elim (compare-cases (key_of x) key) [
    | Compared.same q ↦ find_entry-hit key x (insert_entry e xs) q ∙ sym (find_entry-hit key x xs q)
    | Compared.before q ↦ insert_entry-skip key e x xs (λ r. cc) (insert_entry-other key e xs ne)
    | Compared.after q ↦ insert_entry-skip key e x xs (λ r. cc) (insert_entry-other key e xs ne)
  ])
  | Compared.same o ↦ rw (insert_entry-same e x xs o) (
      let same = compare-eq (key_of x) (key_of e) o in
      find_entry-skip key (newer x e) xs
        (λ q. ne (ap (λ (k : Bytes). compare k key) (sym same ∙ sym (newer-key_of x e)) ∙ q))
      ∙ sym (find_entry-skip key x xs (λ q. ne (ap (λ (k : Bytes). compare k key) (sym same) ∙ q))))
  | Compared.after o ↦ rw (insert_entry-after e x xs o) (find_entry-skip key e (x ∷ xs) ne)
]
