-- ===== src/Memtable/Read.antt =====
-- Reads of a skip list: what the search, a lookup, a snapshot and a seek give.
use mathlib.Core.Path.{subst}
use go_durable_engine.Prelude.{
  ℕ, ◌≡◌, refl, sym, ap, ◌∙◌, true, false, Option, none, some, List, [], ◌∷◌, arith, Bytes,
  All-append_iff, length-append,
}
use go_durable_engine.Bytes.{compare, is_neg}
use go_durable_engine.Bytes.Order.{Before-is_neg, compare-gt, Before-trans}
use go_durable_engine.Memtable.{
  Entry, Heap, SkipList, key_at, descend, seek_node, collect, is_at, get, snapshot, entries_from,
}
use go_durable_engine.Memtable.Search.{AreNotBelow, Found, descend-Found, last_tall-next}
use go_durable_engine.Memtable.Contents.{
  key_of, find_entry, seek, IsAscending, IsAscending-behind, All-imply, find_entry-absent,
  find_entry-below, find_entry-hit, find_entry-skip, seek-split, Compared, compare-cases,
}
use go_durable_engine.Memtable.Invariant.{
  entries, HaveLevels, Represents, Cut, cut, first_id, first_tall-zero, collect_lem, entries-All,
  AreLinked-behind, entries-append,
}

abbrev pub search : SkipList → Bytes → ℕ × (ℕ → ℕ)
search s key = descend s.level s.fresh s.heap key s.head (λ i. 0)

module _ (s : SkipList) (key : Bytes) (es : List Entry) (c : Cut s key es) where
  pub search-Found : Found s.heap s.level s.head c.pre (λ i. 0) (search s key)
  search-Found =
      let n = length-append c.pre c.post in
      descend-Found s.level s.fresh s.heap key s.head c.pre c.post (λ i. 0)
        (omega (arith, c.ok.high, c.ok.full)) (omega (arith, c.ok.room, n)) c.below c.above
        c.ok.linked c.ok.links

  post-HaveLevels : HaveLevels s.heap s.level c.post
  post-HaveLevels = (All-append_iff _ c.pre c.post c.ok.heights).1

  -- The search stops in front of the first node that is not below the key.
  pub search_stops : (s.heap (search s key).0).next 0 ≡ first_id c.post
  search_stops =
      ap (λ (x : ℕ). (s.heap x).next 0) (search-Found.end c.ok.low)
      ∙ last_tall-next s.heap 0 s.head key c.pre c.post c.below c.above c.ok.linked
          (c.ok.links 0 (omega (arith, c.ok.full)))
      ∙ first_tall-zero s.heap s.level c.post post-HaveLevels

-- What the test of the node that the search stops at finds.
found_entry :
    (h : Heap) (key : Bytes) (ids : List ℕ)
    → AreNotBelow h key ids
    → IsAscending (entries h ids)
    → (elim (is_at h key (first_id ids)) [ none ↦ none | some x ↦ some (h x).entry ])
      ≡ find_entry key (entries h ids)
found_entry h key [] above s = unfold find_entry in refl
found_entry h key (y ∷ ys) above s = elim (compare-cases (key_at h y) key) [
  | Compared.before o ↦ (let t = Before-is_neg (key_at h y) key o in cc (above.0, t))
  | Compared.same o ↦ rw o (sym (find_entry-hit key (h y).entry (entries h ys) o))
  | Compared.after o ↦
      let lt = compare-gt (key_at h y) key o in
      let absent =
        find_entry-absent key (entries h ys)
          (All-imply (λ e l. Before-trans key (key_at h y) (key_of e) lt l) (entries h ys) s.0) in
      rw o (sym (find_entry-skip key (h y).entry (entries h ys) (λ q. cc) ∙ absent))
]

-- A lookup finds the entry of the key.
pub get-find_entry :
    (s : SkipList) (es : List Entry) (key : Bytes) → Represents s es → get s key ≡ find_entry key es
unfolding get seek_node
get-find_entry s es key rep =
    let c = cut s key es rep in
    let asc : IsAscending (entries s.heap c.post) =
      IsAscending-behind (entries s.heap c.pre) (entries s.heap c.post)
        (subst IsAscending (entries-append s.heap c.pre c.post) c.ok.ascending) in
    ap
      (λ (p : Option ℕ). elim (is_at s.heap key p) [ none ↦ none | some x ↦ some (s.heap x).entry ])
      (search_stops s key es c)
    ∙ found_entry s.heap key c.post c.above asc
    ∙ sym (
        find_entry-below key (entries s.heap c.pre) (entries s.heap c.post)
          (entries-All (λ e. is_neg (compare (key_of e) key) ≡ true) s.heap c.pre c.below))
    ∙ ap (find_entry key) c.contents

-- A snapshot of a well-formed skip list is all of its entries.
pub snapshot_lem : (s : SkipList) (es : List Entry) → Represents s es → snapshot s ≡ es
unfolding snapshot
snapshot_lem s es rep =
    ap (collect s.fresh s.heap) (
      rep.ok.links 0 (omega (arith, rep.ok.full))
      ∙ first_tall-zero s.heap s.level rep.ids rep.ok.heights)
    ∙ collect_lem s.heap s.level s.fresh rep.ids rep.ok.linked rep.ok.heights rep.ok.room
    ∙ rep.contents

-- An iterator that was moved to a target yields the entries whose keys are not below it.
pub entries_from-seek :
    (s : SkipList) (es : List Entry) (target : Bytes)
    → Represents s es
    → entries_from s target ≡ seek target es
unfolding entries_from seek_node
entries_from-seek s es target rep =
    let c = cut s target es rep in
    let n = length-append c.pre c.post in
    ap (collect s.fresh s.heap) (search_stops s target es c)
    ∙ collect_lem s.heap s.level s.fresh c.post (AreLinked-behind s.heap c.pre c.post c.ok.linked)
        (post-HaveLevels s target es c) (omega (arith, c.ok.room, n))
    ∙ sym (
        seek-split target (entries s.heap c.pre) (entries s.heap c.post)
          (entries-All (λ e. is_neg (compare (key_of e) target) ≡ true) s.heap c.pre c.below)
          (entries-All (λ e. is_neg (compare (key_of e) target) ≡ false) s.heap c.post c.above))
    ∙ ap (seek target) c.contents
