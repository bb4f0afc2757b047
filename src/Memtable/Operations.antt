-- ===== src/Memtable/Operations.antt =====
-- Each operation of the skip list on the sorted list that it stands for.
use mathlib.Core.Path.{subst}
use go_durable_engine.Prelude.{
  ℕ, ◌≡◌, refl, sym, ap, ◌∙◌, Bool, true, Option, none, some, List, [], ◌∷◌, ◌++◌, arith,
}
use go_durable_engine.Bytes.{compare, is_neg}
use go_durable_engine.Bytes.Order.{Before-is_neg}
use go_durable_engine.Memtable.{
  Entry, SkipList, key_at, replace_at, insert_node, set_entry, new, clear, is_at, random_level,
}
use go_durable_engine.Memtable.Search.{AreBelow, AreNotBelow}
use go_durable_engine.Memtable.Contents.{
  key_of, IsAscending, newer, insert_entry, insert_entry-below, insert_entry-same,
  insert_entry-after, insert_entry-IsAscending, Compared, compare-cases,
}
use go_durable_engine.Memtable.Invariant.{
  entries, entries-All, IsSkipList, Represents, Cut, cut, first_id,
}
use go_durable_engine.Memtable.Read.{search, search_stops}
use go_durable_engine.Memtable.Write.{insert_node-Represents, random_level_bounds}
use go_durable_engine.Memtable.Replace.{replace_at-Represents}

module _ (s : SkipList) (coins : ℕ → Bool) (e : Entry) where
  abbrev stop : Option ℕ
  stop = (s.heap (search s (key_of e)).0).next 0

  set_entry-present :
      (x : ℕ)
      → is_at s.heap (key_of e) stop ≡ some x
      → set_entry s coins e ≡ replace_at s x e.value e.seq e.deleted
  unfolding set_entry
  set_entry-present x q = rw (q, set_entry)

  set_entry-absent :
      is_at s.heap (key_of e) stop ≡ none
      → set_entry s coins e ≡ insert_node s e (random_level coins) (search s (key_of e)).1
  unfolding set_entry
  set_entry-absent q = rw (q, set_entry)

  module _ (es : List Entry) (asc : IsAscending es) where
    insert_entry-Cut :
        (c : Cut s (key_of e) es) (zs : List Entry)
        → insert_entry e (entries s.heap c.post) ≡ zs
        → insert_entry e es ≡ entries s.heap c.pre ++ zs
    insert_entry-Cut c zs here =
        ap (insert_entry e) (sym c.contents)
        ∙ insert_entry-below e (entries s.heap c.pre) (entries s.heap c.post)
            (entries-All (λ x. is_neg (compare (key_of x) (key_of e)) ≡ true) s.heap c.pre c.below)
        ∙ ap (λ (t : List Entry). entries s.heap c.pre ++ t) here

    -- A write whose key is not there.
    set-new :
        (c : Cut s (key_of e) es)
        → is_at s.heap (key_of e) (first_id c.post) ≡ none
        → insert_entry e (entries s.heap c.post) ≡ e ∷ entries s.heap c.post
        → Represents (set_entry s coins e) (insert_entry e es)
    set-new c absent here =
        let whole = insert_entry-Cut c (e ∷ entries s.heap c.post) here in
        let code =
          set_entry-absent
            (ap (is_at s.heap (key_of e)) (search_stops s (key_of e) es c) ∙ absent) in
        let b = random_level_bounds coins in
        rw (code, whole)
          (insert_node-Represents s e es c (random_level coins) b.0 b.1
            (subst IsAscending whole (insert_entry-IsAscending e es asc)))

    set-cases :
        (pre post : List ℕ)
        → IsSkipList s (pre ++ post)
        → AreBelow s.heap (key_of e) pre
        → AreNotBelow s.heap (key_of e) post
        → entries s.heap pre ++ entries s.heap post ≡ es
        → Represents (set_entry s coins e) (insert_entry e es)
    set-cases pre [] ok below above contents =
        set-new
          (record {
            pre = pre;
            post = [];
            ok = ok;
            below = below;
            above = above;
            contents = contents;
          })
          refl (unfold insert_entry in refl)
    set-cases pre (y ∷ ys) ok below above contents =
        let c : Cut s (key_of e) es = record {
          pre = pre;
          post = y ∷ ys;
          ok = ok;
          below = below;
          above = above;
          contents = contents;
        } in
        elim (compare-cases (key_at s.heap y) (key_of e)) [
          | Compared.before o ↦
              (let t = Before-is_neg (key_at s.heap y) (key_of e) o in cc (above.0, t))
          | Compared.same o ↦
              let old = (s.heap y).entry in
              let whole =
                insert_entry-Cut c (newer old e ∷ entries s.heap ys)
                  (insert_entry-same e old (entries s.heap ys) o) in
              let found : is_at s.heap (key_of e) (some y) ≡ some y = rw (o, is_at) in
              let code =
                set_entry-present y
                  (ap (is_at s.heap (key_of e)) (search_stops s (key_of e) es c) ∙ found) in
              rw (code, whole)
                (replace_at-Represents s pre ys y e ok
                  (subst IsAscending whole (insert_entry-IsAscending e es asc)))
          | Compared.after o ↦
              set-new c (rw (o, is_at))
                (insert_entry-after e (s.heap y).entry (entries s.heap ys) o)
        ]

-- Setting an entry of a skip list, whatever level is drawn, gives a well-formed skip list again,
-- and does to its entries what `insert_entry` does to a sorted list: a new key is put at its place,
-- the entry of a key that is there is replaced unless it has a greater sequence number.
pub set_entry-insert_entry :
    (s : SkipList) (coins : ℕ → Bool) (e : Entry) (es : List Entry)
    → Represents s es
    → Represents (set_entry s coins e) (insert_entry e es)
set_entry-insert_entry s coins e es rep =
    let c = cut s (key_of e) es rep in
    set-cases s coins e es (subst IsAscending rep.contents rep.ok.ascending) c.pre c.post c.ok
      c.below c.above c.contents

-- A new skip list is well formed and empty.
pub new-Represents : Represents new []
unfolding new
new-Represents = record {
  ids = [];
  ok = record {
    links = λ i lt. refl;
    linked = tt;
    ascending = tt;
    distinct = (tt, tt);
    allocated = (omega arith, tt);
    heights = tt;
    full = refl;
    low = omega arith;
    high = omega arith;
    room = omega arith;
    size = refl;
    bytes = refl;
  };
  contents = refl;
}

pub clear-Represents : (s : SkipList) → Represents (clear s) []
unfolding clear
clear-Represents s = record {
  ids = [];
  ok = record {
    links = λ i lt. ground arith;
    linked = tt;
    ascending = tt;
    distinct = (tt, tt);
    allocated = (omega arith, tt);
    heights = tt;
    full = ground arith;
    low = omega arith;
    high = omega arith;
    room = omega arith;
    size = refl;
    bytes = refl;
  };
  contents = refl;
}
