-- ===== src/Sstable/Seeking.antt =====
-- A seek in a block of entries in order finds the entry of the key that was sought.
use Prim.Native.Nat.{Ordering}
use go_durable_engine.Prelude.{
  ℕ, zero, suc, ◌+◌, ◌≤◌, ◌<◌, ◌≡◌, ◌≢◌, refl, sym, ap, ◌∙◌, inl, inr, true, false, Bool-cases,
  Option, none, some, List, [], ◌∷◌, ◌++◌, arith, length, leb, if◌then◌else◌, ok, Result, Bytes,
  All,
}
use go_durable_engine.Bytes.{content, compare, is_neg, equal}
use go_durable_engine.Bytes.Order.{
  Before, Before-gt, Before-trans, is_neg-Before, Before-is_neg, compare-gt, equal-compare,
}
use go_durable_engine.Sstable.{Error, Entry}
use go_durable_engine.Sstable.Entries.{read_entry}
use go_durable_engine.Sstable.Blocks.{stored}
use go_durable_engine.Sstable.Reader.{BlockIter, next, skip_below, entry_of, found_entry}

abbrev pub key_in : Entry → Bytes
key_in e = content e.key

abbrev pub AreAscending : List Entry → Type 0
AreAscending [] = Unit {0}
AreAscending (x ∷ xs) = All (λ y. Before (key_in x) (key_in y)) xs × AreAscending xs

pub AreAscending-behind : (xs ys : List Entry) → AreAscending (xs ++ ys) → AreAscending ys
AreAscending-behind [] ys asc = asc
AreAscending-behind (x ∷ xs) ys asc = AreAscending-behind xs ys asc.1

-- The entry of a key, as it is read back.
unfoldable pub lookup_in : Bytes → List Entry → Option Entry
lookup_in key [] = none
lookup_in key (x ∷ xs) = if equal (key_in x) key then some (stored x) else lookup_in key xs

-- From `off` on, with the key `k` in front, the block is read as these entries, to its end.
abbrev pub Reads : Bytes → ℕ → Bytes → List Entry → Type 0
Reads b off k [] = off ≡ length b
Reads b off k (e ∷ es) =
    (off' : ℕ) × (off < off')
    × ((it : BlockIter)
        → it.block ≡ b
        → it.off ≡ off
        → it.key ≡ k
        → next it ≡ ok (read_entry it off' (key_in e) e.value e.seq e.deleted))
    × Reads b off' (key_in e) es

pub length-Reads :
    (es : List Entry) (b : Bytes) (off : ℕ) (k : Bytes)
    → Reads b off k es
    → off + length es ≤ length b
length-Reads [] b off k r = omega (arith, r)
length-Reads (e ∷ es) b off k r = omega (arith, r.1, length-Reads es b r.0 (key_in e) r.3)

pub lookup_in-skip :
    (key : Bytes) (x : Entry) (xs : List Entry)
    → compare (key_in x) key ≢ Ordering.eq
    → lookup_in key (x ∷ xs) ≡ lookup_in key xs
unfolding lookup_in
lookup_in-skip key x xs ne = elim (Bool-cases (equal (key_in x) key)) [
  | inl t ↦ absurd (ne ((equal-compare (key_in x) key).0 t))
  | inr f ↦ rw f refl
]

pub lookup_in-hit :
    (key : Bytes) (x : Entry) (xs : List Entry)
    → equal (key_in x) key ≡ true
    → lookup_in key (x ∷ xs) ≡ some (stored x)
unfolding lookup_in
lookup_in-hit key x xs e = rw e refl

-- Entries that are all above, or all below, do not have the key.
pub lookup_in-above :
    (key : Bytes) (xs : List Entry) → All (λ x. Before key (key_in x)) xs → lookup_in key xs ≡ none
lookup_in-above key [] all = unfold lookup_in in refl
lookup_in-above key (x ∷ xs) all =
    lookup_in-skip key x xs (λ e. (let s = Before-gt key (key_in x) all.0 in cc))
    ∙ lookup_in-above key xs all.1

pub lookup_in-below :
    (key : Bytes) (xs ys : List Entry)
    → All (λ x. Before (key_in x) key) xs
    → lookup_in key (xs ++ ys) ≡ lookup_in key ys
lookup_in-below key [] ys all = refl
lookup_in-below key (x ∷ xs) ys all =
    lookup_in-skip key x (xs ++ ys) (λ e. (let s = all.0 in cc)) ∙ lookup_in-below key xs ys all.1

All-above :
    (key : Bytes) (x : Entry) (xs : List Entry)
    → Before key (key_in x)
    → All (λ y. Before (key_in x) (key_in y)) xs
    → All (λ y. Before key (key_in y)) xs
All-above key x [] lt all = tt
All-above key x (y ∷ ys) lt all =
    (Before-trans key (key_in x) (key_in y) lt all.0, All-above key x ys lt all.1)

skip_below-invalid :
    (fuel : ℕ) (it : BlockIter) (target : Bytes)
    → it.valid ≡ false
    → skip_below fuel it target ≡ ok it
skip_below-invalid zero it target h = unfold skip_below in refl
skip_below-invalid (suc fuel) it target h = unfold skip_below in rw h refl

skip_below-stop :
    (fuel : ℕ) (it : BlockIter) (target : Bytes)
    → is_neg (compare it.key target) ≡ false
    → skip_below fuel it target ≡ ok it
skip_below-stop zero it target h = unfold skip_below in refl
skip_below-stop (suc fuel) it target h =
    unfold skip_below in elim (Bool-cases it.valid) [ inl t ↦ rw (t, h) refl | inr f ↦ rw f refl ]

skip_below-next :
    (fuel : ℕ) (it it' : BlockIter) (target : Bytes)
    → it.valid ≡ true
    → is_neg (compare it.key target) ≡ true
    → next it ≡ ok it'
    → skip_below (suc fuel) it target ≡ skip_below fuel it' target
unfolding skip_below
skip_below-next fuel it it' target v h n = rw (v, h, n, skip_below) refl

next-end : (it : BlockIter) → it.off ≡ length it.block → next it ≡ ok (record it { valid = false })
unfolding next
next-end it e = (let t : leb (length it.block) it.off ≡ true = ground (arith, e) in rw t refl)

found_entry-invalid : (it : BlockIter) (key : Bytes) → it.valid ≡ false → found_entry it key ≡ none
unfolding found_entry
found_entry-invalid it key h = rw h refl

above-key : (a b : Bytes) → is_neg (compare a b) ≡ false → compare a b ≢ Ordering.eq → Before b a
above-key a b ge ne =
    elim (compare a b) as (λ o. compare a b ≡ o → Before b a) [
      | Ordering.lt ↦ λ q. (let t = Before-is_neg a b q in cc)
      | Ordering.eq ↦ λ q. absurd (ne q)
      | Ordering.gt ↦ λ q. compare-gt a b q
    ]
      refl

-- What the iterator answers when the search ends on it.
found_entry-here :
    (it : BlockIter) (key : Bytes) (x : Entry) (xs : List Entry)
    → it.valid ≡ true
    → entry_of it ≡ stored x
    → is_neg (compare (key_in x) key) ≡ false
    → AreAscending (x ∷ xs)
    → found_entry it key ≡ lookup_in key (x ∷ xs)
unfolding found_entry
found_entry-here it key x xs v same ge asc =
    let k : it.key ≡ key_in x = ap (λ (e : Entry). content e.key) same in
    elim (Bool-cases (equal (key_in x) key)) [
      | inl t ↦
          let here : equal it.key key ≡ true = ap (λ (b : Bytes). equal b key) k ∙ t in
          rw (v, here, lookup_in-hit key x xs t) (ap some same)
      | inr f ↦
          let ne : compare (key_in x) key ≢ Ordering.eq =
            λ q. (let t = (equal-compare (key_in x) key).1 q in cc) in
          let lt = above-key (key_in x) key ge ne in
          let gone : equal it.key key ≡ false = ap (λ (b : Bytes). equal b key) k ∙ f in
          rw (v, gone, lookup_in-skip key x xs ne)
            (sym (lookup_in-above key xs (All-above key x xs lt asc.0)))
    ]

-- What a search ends with: an iterator that has the entry of the key, where there is one.
abbrev pub Finds : Bytes → List Entry → Result Error BlockIter → Type 0
Finds key es r = (it : BlockIter) × (r ≡ ok it) × (found_entry it key ≡ lookup_in key es)

skip_below-here :
    (xs : List Entry) (x : Entry) (fuel : ℕ) (it : BlockIter) (key : Bytes)
    → it.valid ≡ true
    → entry_of it ≡ stored x
    → is_neg (compare it.key key) ≡ false
    → AreAscending (x ∷ xs)
    → Finds key (x ∷ xs) (skip_below fuel it key)
skip_below-here xs x fuel it key v same f asc =
    let k : it.key ≡ key_in x = ap (λ (e : Entry). content e.key) same in
    (
      it,
      skip_below-stop fuel it key f,
      found_entry-here it key x xs v same (ap (λ (b : Bytes). is_neg (compare b key)) (sym k) ∙ f)
          asc,
    )

lookup_in-passed :
    (xs : List Entry) (x : Entry) (it : BlockIter) (key : Bytes)
    → entry_of it ≡ stored x
    → is_neg (compare it.key key) ≡ true
    → lookup_in key (x ∷ xs) ≡ lookup_in key xs
lookup_in-passed xs x it key same t =
    let k : it.key ≡ key_in x = ap (λ (e : Entry). content e.key) same in
    let lt = is_neg-Before it.key key t in
    let lt' : Before (key_in x) key = ap (λ (b : Bytes). compare b key) (sym k) ∙ lt in
    lookup_in-skip key x xs (λ q. cc)

-- From a valid iterator on, which stands on the first of the entries.
pub skip_below-Finds :
    (xs : List Entry) (x : Entry) (fuel : ℕ) (it : BlockIter) (key : Bytes)
    → it.valid ≡ true
    → entry_of it ≡ stored x
    → Reads it.block it.off it.key xs
    → AreAscending (x ∷ xs)
    → length xs < fuel
    → Finds key (x ∷ xs) (skip_below fuel it key)
skip_below-Finds xs x zero it key v same r asc lt = absurd (omega arith)
skip_below-Finds [] x (suc fuel) it key v same r asc lt =
    elim (Bool-cases (is_neg (compare it.key key))) [
      | inr f ↦ skip_below-here [] x (suc fuel) it key v same f asc
      | inl t ↦
          let last : BlockIter = record it { valid = false } in
          (
            last,
            skip_below-next fuel it last key v t (next-end it r)
                ∙ skip_below-invalid fuel last key refl,
            found_entry-invalid last key refl
                ∙ sym (lookup_in-passed [] x it key same t ∙ (unfold lookup_in in refl)),
          )
    ]
skip_below-Finds (y ∷ ys) x (suc fuel) it key v same r asc lt =
    elim (Bool-cases (is_neg (compare it.key key))) [
      | inr f ↦ skip_below-here (y ∷ ys) x (suc fuel) it key v same f asc
      | inl t ↦
          let it' = read_entry it r.0 (key_in y) y.value y.seq y.deleted in
          let f = skip_below-Finds ys y fuel it' key refl refl r.3 asc.1 (omega arith) in
          (
            f.0,
            skip_below-next fuel it it' key v t (r.2 it refl refl refl) ∙ f.1,
            f.2 ∙ sym (lookup_in-passed (y ∷ ys) x it key same t),
          )
    ]
