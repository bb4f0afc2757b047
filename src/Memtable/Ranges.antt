-- ===== src/Memtable/Ranges.antt =====
-- The walks of `Ascend` and `AscendRange`.
use mathlib.Core.Path.{subst}
use go_durable_engine.Prelude.{
  ℕ, zero, suc, ◌≡◌, refl, sym, ap, ◌∙◌, inl, inr, Bool, true, false, Bool-cases, Option, none,
  some, List, [], ◌∷◌, arith, if◌then◌else◌, Bytes, All,
}
use go_durable_engine.Bytes.{Slice, compare, is_neg, below_low, beyond_high, in_range}
use go_durable_engine.Bytes.Order.{Before}
use go_durable_engine.Memtable.{
  Entry, Heap, SkipList, visit, reaches, ascend_range, snapshot, entries_from, collect, seek_node,
}
use go_durable_engine.Memtable.Contents.{
  key_of, IsAscending, Before-not_below, LiesNotBelow, seek, seek-split, All-imply,
}
use go_durable_engine.Memtable.Invariant.{Represents}
use go_durable_engine.Memtable.Read.{snapshot_lem, entries_from-seek}

-- The entries of a list that a callback is called on.
unfoldable pub visited : (Entry → Bool) → Slice → List Entry → List Entry
visited fn hi [] = []
visited fn hi (e ∷ es) =
    let rest = visited fn hi es in
    if reaches hi (key_of e) then [] else e ∷ (if fn e then rest else [])

visit-collect :
    (fuel : ℕ) (h : Heap) (fn : Entry → Bool) (hi : Slice) (p : Option ℕ)
    → visit fuel h fn hi p ≡ visited fn hi (collect fuel h p)
unfolding visit visited collect
visit-collect zero h fn hi p = refl
visit-collect (suc fuel) h fn hi none = refl
visit-collect (suc fuel) h fn hi (some x) =
    ap
      (λ (t : List Entry).
        if reaches hi (key_of (h x).entry)
        then []
        else (h x).entry ∷ (if fn (h x).entry then t else []))
      (visit-collect fuel h fn hi ((h x).next 0))

-- The entries of a range: `lo` and above, below `hi`, where nil leaves that end open.
abbrev pub from_low : Slice → List Entry → List Entry
from_low none es = es
from_low (some lo) es = seek lo es

-- A walk over a range calls back on the entries from the lower end on, in order, until a key reaches
-- the upper end or the callback asks to stop.
pub ascend_range-visited :
    (s : SkipList) (es : List Entry) (fn : Entry → Bool) (lo hi : Slice)
    → Represents s es
    → ascend_range s fn lo hi ≡ visited fn hi (from_low lo es)
unfolding ascend_range
ascend_range-visited s es fn none hi rep =
    visit-collect s.fresh s.heap fn hi ((s.heap s.head).next 0)
    ∙ ap (visited fn hi) (unfold snapshot in snapshot_lem s es rep)
ascend_range-visited s es fn (some lo) hi rep =
    visit-collect s.fresh s.heap fn hi (seek_node s lo)
    ∙ ap (visited fn hi) (unfold entries_from in entries_from-seek s es lo rep)

-- The entries of the list whose keys lie in the range.
unfoldable pub within : Slice → Slice → List Entry → List Entry
within lo hi [] = []
within lo hi (e ∷ es) =
    let rest = within lo hi es in if in_range (key_of e) lo hi then e ∷ rest else rest

within-in :
    (lo hi : Slice) (e : Entry) (es : List Entry)
    → below_low (key_of e) lo ≡ false
    → beyond_high (key_of e) hi ≡ false
    → within lo hi (e ∷ es) ≡ e ∷ within lo hi es
unfolding within in_range
within-in lo hi e es l h = rw (l, h) refl

within-low :
    (lo hi : Slice) (e : Entry) (es : List Entry)
    → below_low (key_of e) lo ≡ true
    → within lo hi (e ∷ es) ≡ within lo hi es
unfolding within in_range
within-low lo hi e es l = rw l refl

within-high :
    (lo hi : Slice) (e : Entry) (es : List Entry)
    → beyond_high (key_of e) hi ≡ true
    → within lo hi (e ∷ es) ≡ within lo hi es
unfolding within in_range
within-high lo hi e es h = elim (Bool-cases (below_low (key_of e) lo)) [
  | inl t ↦ rw t refl
  | inr f ↦ rw (f, h) refl
]

reaches-beyond_high : (hi : Slice) (key : Bytes) → reaches hi key ≡ beyond_high key hi
unfolding beyond_high
reaches-beyond_high none key = refl
reaches-beyond_high (some h) key = refl

-- Behind a key that reaches the upper end, all do.
reaches-later :
    (hi : Slice) (a b : Bytes) → Before a b → beyond_high a hi ≡ true → beyond_high b hi ≡ true
unfolding beyond_high
reaches-later none a b lt r = r
reaches-later (some h) a b lt r =
    let f : is_neg (compare a h) ≡ false = ground (arith) in
    let g = Before-not_below a b h lt f in ground (arith)

within-none :
    (lo hi : Slice) (es : List Entry)
    → All (λ e. beyond_high (key_of e) hi ≡ true) es
    → within lo hi es ≡ []
within-none lo hi [] all = unfold within in refl
within-none lo hi (e ∷ es) all = within-high lo hi e es all.0 ∙ within-none lo hi es all.1

every : Entry → Bool
every e = true

visited-in :
    (hi : Slice) (e : Entry) (es : List Entry)
    → beyond_high (key_of e) hi ≡ false
    → visited every hi (e ∷ es) ≡ e ∷ visited every hi es
unfolding visited every
visited-in hi e es h = (let r = reaches-beyond_high hi (key_of e) ∙ h in rw r refl)

visited-end :
    (fn : Entry → Bool) (hi : Slice) (e : Entry) (es : List Entry)
    → beyond_high (key_of e) hi ≡ true
    → visited fn hi (e ∷ es) ≡ []
unfolding visited
visited-end fn hi e es h = (let r = reaches-beyond_high hi (key_of e) ∙ h in rw r refl)

-- Where the keys are not below the lower end, it plays no part.
visited-within :
    (lo hi : Slice) (es : List Entry)
    → IsAscending es
    → All (λ e. below_low (key_of e) lo ≡ false) es
    → visited every hi es ≡ within lo hi es
visited-within lo hi [] asc above = unfold visited within in refl
visited-within lo hi (e ∷ es) asc above = elim (Bool-cases (beyond_high (key_of e) hi)) [
  | inl t ↦
      visited-end every hi e es t
      ∙ sym (
          within-high lo hi e es t
          ∙ within-none lo hi es
              (All-imply (λ y lt. reaches-later hi (key_of e) (key_of y) lt t) es asc.0))
  | inr f ↦
      visited-in hi e es f
      ∙ ap (λ (t : List Entry). e ∷ t) (visited-within lo hi es asc.1 above.1)
      ∙ sym (within-in lo hi e es above.0 f)
]

all_open : (es : List Entry) → All (λ e. below_low (key_of e) none ≡ false) es
unfolding below_low
all_open [] = tt
all_open (e ∷ es) = (refl, all_open es)

seek-below :
    (key : Bytes) (e : Entry) (es : List Entry)
    → is_neg (compare (key_of e) key) ≡ true
    → seek key (e ∷ es) ≡ seek key es
unfolding seek
seek-below key e es t = rw t refl

from_low-within :
    (lo hi : Slice) (es : List Entry)
    → IsAscending es
    → visited every hi (from_low lo es) ≡ within lo hi es
unfolding below_low
from_low-within none hi es asc = visited-within none hi es asc (all_open es)
from_low-within (some l) hi [] asc = unfold seek visited within in refl
from_low-within (some l) hi (e ∷ es) asc = elim (Bool-cases (is_neg (compare (key_of e) l))) [
  | inl t ↦
      ap (visited every hi) (seek-below l e es t)
      ∙ from_low-within (some l) hi es asc.1
      ∙ sym (within-low (some l) hi e es t)
  | inr f ↦
      let above : LiesNotBelow l (e ∷ es) =
        (f, All-imply (λ y lt. Before-not_below (key_of e) (key_of y) l lt f) es asc.0) in
      ap (visited every hi) (seek-split l [] (e ∷ es) tt above)
      ∙ visited-within (some l) hi (e ∷ es) asc above
]

-- A walk over a range whose callback never asks to stop calls back on exactly the entries of the
-- skip list whose keys `in_range` accepts, in ascending order.
pub ascend_range-within :
    (s : SkipList) (es : List Entry) (lo hi : Slice)
    → Represents s es
    → ascend_range s (λ e. true) lo hi ≡ within lo hi es
unfolding every
ascend_range-within s es lo hi rep =
    ascend_range-visited s es every lo hi rep
    ∙ from_low-within lo hi es (subst IsAscending rep.contents rep.ok.ascending)
