-- ===== src/Memtable/Replace.antt =====
-- A write to a key that is there, and every write: the skip list refines a sorted list of entries.
use mathlib.Core.Path.{subst}
use go_durable_engine.Prelude.{
  ℕ, ◌+◌, ◌-◌, ◌≡◌, ◌≢◌, refl, sym, ap, ◌∙◌, inl, inr, false, Bool-cases, Option, some, List, [],
  ◌∷◌, ◌++◌, arith, leb, ltb, ◌==◌, if◌then◌else◌, All,
}
use go_durable_engine.Memtable.{Entry, Heap, SkipList, estimate_bytes, store, replace_at}
use go_durable_engine.Memtable.Search.{first_tall, IsLinked, AreLinked}
use go_durable_engine.Memtable.Contents.{IsAscending, newer, total_bytes}
use go_durable_engine.Memtable.Invariant.{
  entries, entries-append, HaveLevels, IsSkipList, Represents,
}
use go_durable_engine.Memtable.Write.{total_bytes-append, AreDistinct-parts, AreDistinct-behind}

-- Heaps that differ only in the entries.
record SameShape (h h' : Heap) : Type 0 where
  pub heights : (q : ℕ) → (h' q).height ≡ (h q).height
  pub nexts : (q i : ℕ) → (h' q).next i ≡ (h q).next i

first_tall-shape :
    (h h' : Heap)
    → SameShape h h'
    → (i : ℕ) (ids : List ℕ) → first_tall h' i ids ≡ first_tall h i ids
first_tall-shape h h' w i [] = refl
first_tall-shape h h' w i (y ∷ ys) =
    rw (w.heights y) (
      ap (λ (t : Option ℕ). if ltb i (h y).height then some y else t)
        (first_tall-shape h h' w i ys))

IsLinked-shape :
    (h h' : Heap) → SameShape h h' → (x : ℕ) (ids : List ℕ) → IsLinked h x ids → IsLinked h' x ids
IsLinked-shape h h' w x ids links i lt =
    w.nexts x i ∙ links i (omega (arith, w.heights x)) ∙ sym (first_tall-shape h h' w i ids)

AreLinked-shape :
    (h h' : Heap) → SameShape h h' → (ids : List ℕ) → AreLinked h ids → AreLinked h' ids
AreLinked-shape h h' w [] linked = tt
AreLinked-shape h h' w (y ∷ ys) linked =
    (IsLinked-shape h h' w y ys linked.0, AreLinked-shape h h' w ys linked.1)

HaveLevels-shape :
    (h h' : Heap) (level : ℕ)
    → SameShape h h'
    → (ids : List ℕ) → HaveLevels h level ids
    → HaveLevels h' level ids
HaveLevels-shape h h' level w [] have = tt
HaveLevels-shape h h' level w (y ∷ ys) have = (
  (omega (arith, w.heights y, have.0.0), omega (arith, w.heights y, have.0.1)),
  HaveLevels-shape h h' level w ys have.1,
)

-- The heap with another entry in one node.
abbrev with_entry : Heap → ℕ → Entry → Heap
with_entry h x e = store h x (record (h x) { entry = e })

with_entry-SameShape : (h : Heap) (x : ℕ) (e : Entry) → SameShape h (with_entry h x e)
with_entry-SameShape h x e = record { heights = λ q. ground arith; nexts = λ q i. ground arith }

with_entry-other :
    (h : Heap) (x : ℕ) (e : Entry) (ids : List ℕ)
    → All (λ q. x ≢ q) ids
    → entries (with_entry h x e) ids ≡ entries h ids
with_entry-other h x e [] ne = refl
with_entry-other h x e (y ∷ ys) ne =
    (let f : (y == x) ≡ false = ground (arith, ne.0) in
      rw f (ap (λ (t : List Entry). (h y).entry ∷ t) (with_entry-other h x e ys ne.1)))

with_entry_self : (h : Heap) (x : ℕ) (e : Entry) → (with_entry h x e x).entry ≡ e
with_entry_self h x e = ground arith

module _ (s : SkipList) (pre ys : List ℕ) (y : ℕ) (ok : IsSkipList s (pre ++ y ∷ ys))
    (n : Entry) where
  abbrev replaced : SkipList
  replaced = record s {
    heap = with_entry s.heap y n;
    bytes = s.bytes + estimate_bytes n - estimate_bytes (s.heap y).entry;
  }

  others : All (λ q. y ≢ q) pre × All (λ q. y ≢ q) ys
  others =
      let parts = AreDistinct-parts pre (y ∷ ys) ok.distinct.1 in
      (parts.0, (AreDistinct-behind pre (y ∷ ys) ok.distinct.1).0)

  replaced-entries :
      entries replaced.heap (pre ++ y ∷ ys) ≡ entries s.heap pre ++ n ∷ entries s.heap ys
  replaced-entries =
      entries-append replaced.heap pre (y ∷ ys)
      ∙ ap (λ (t : List Entry). t ++ entries replaced.heap (y ∷ ys))
          (with_entry-other s.heap y n pre others.0)
      ∙ ap (λ (t : Entry). entries s.heap pre ++ t ∷ entries replaced.heap ys)
          (with_entry_self s.heap y n)
      ∙ ap (λ (t : List Entry). entries s.heap pre ++ n ∷ t)
          (with_entry-other s.heap y n ys others.1)

  replaced-bytes : replaced.bytes ≡ total_bytes (entries replaced.heap (pre ++ y ∷ ys))
  replaced-bytes =
      let old = ok.bytes ∙ ap total_bytes (entries-append s.heap pre (y ∷ ys)) in
      let l = total_bytes-append (entries s.heap pre) ((s.heap y).entry ∷ entries s.heap ys) in
      let r = total_bytes-append (entries s.heap pre) (n ∷ entries s.heap ys) in
      let sum : s.bytes + estimate_bytes n - estimate_bytes (s.heap y).entry
          ≡ total_bytes (entries s.heap pre ++ n ∷ entries s.heap ys) =
        omega (arith, old, l, r) in
      sum ∙ ap total_bytes (sym replaced-entries)

  replaced-Represents :
      IsAscending (entries s.heap pre ++ n ∷ entries s.heap ys)
      → Represents replaced (entries s.heap pre ++ n ∷ entries s.heap ys)
  replaced-Represents asc =
      let w = with_entry-SameShape s.heap y n in
      record {
        ids = pre ++ y ∷ ys;
        ok = record {
          links = IsLinked-shape s.heap replaced.heap w s.head (pre ++ y ∷ ys) ok.links;
          linked = AreLinked-shape s.heap replaced.heap w (pre ++ y ∷ ys) ok.linked;
          ascending = subst IsAscending (sym replaced-entries) asc;
          distinct = ok.distinct;
          allocated = ok.allocated;
          heights = HaveLevels-shape s.heap replaced.heap s.level w (pre ++ y ∷ ys) ok.heights;
          full = w.heights s.head ∙ ok.full;
          low = ok.low;
          high = ok.high;
          room = ok.room;
          size = ok.size;
          bytes = replaced-bytes;
        };
        contents = replaced-entries;
      }

pub replace_at-Represents :
    (s : SkipList) (pre ys : List ℕ) (y : ℕ) (e : Entry)
    → IsSkipList s (pre ++ y ∷ ys)
    → IsAscending (entries s.heap pre ++ newer (s.heap y).entry e ∷ entries s.heap ys)
    → Represents
        (replace_at s y e.value e.seq e.deleted)
        (entries s.heap pre ++ newer (s.heap y).entry e ∷ entries s.heap ys)
unfolding replace_at
replace_at-Represents s pre ys y e ok asc = elim (Bool-cases (leb (s.heap y).entry.seq e.seq)) [
  | inl t ↦
      let n : Entry = record (s.heap y).entry {
        value = e.value;
        seq = e.seq;
        deleted = e.deleted;
      } in
      let same : newer (s.heap y).entry e ≡ n = rw t refl in
      rw (t) (
        replaced-Represents s pre ys y ok n
          (subst (λ z. IsAscending (entries s.heap pre ++ z ∷ entries s.heap ys)) same asc))
  | inr f ↦
      rw f (record { ids = pre ++ y ∷ ys; ok = ok; contents = entries-append s.heap pre (y ∷ ys) })
]
