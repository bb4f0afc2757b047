-- ===== src/Examples/Memtables.antt =====
-- The skip list at concrete inputs.
use go_durable_engine.Prelude.{ℕ, ◌≡◌, Bool, true, false, none, some, List, [], ◌∷◌, ltb, Bytes}
use go_durable_engine.Memtable.{
  Entry, SkipList, new, set_entry, get, snapshot, entries_from, ascend_range,
}
use go_durable_engine.Memtable.Contents.{IsAscending, insert_entry, find_entry, seek}
use go_durable_engine.Memtable.Invariant.{Represents}
use go_durable_engine.Memtable.Read.{get-find_entry, entries_from-seek}
use go_durable_engine.Memtable.Ranges.{within, ascend_range-within}
use go_durable_engine.Memtable.Operations.{new-Represents, set_entry-insert_entry}
use go_durable_engine.Memtable.Refinement.{Op, run, held, run-held}

-- Two draws of 0, then no more.
abbrev coins : ℕ → Bool
coins k = ltb k 2

abbrev entry_b : Entry
entry_b = record { key = some (98 ∷ []); value = 1 ∷ []; seq = 5; deleted = false }

abbrev entry_a : Entry
entry_a = record { key = some (97 ∷ []); value = 2 ∷ []; seq = 6; deleted = true }

abbrev one : SkipList
one = set_entry new coins entry_b

abbrev one_entry : List Entry
one_entry = insert_entry entry_b []

abbrev ops : List Op
ops =
    Op.put_op coins (some (98 ∷ [])) (1 ∷ []) 5
    ∷ Op.put_op coins (some (97 ∷ [])) (2 ∷ []) 6
    ∷ Op.delete_op coins (some (98 ∷ [])) 7
    ∷ []

set_entry-insert_entry_example :
    Represents (set_entry one coins entry_a) (insert_entry entry_a one_entry)
set_entry-insert_entry_example =
    set_entry-insert_entry one coins entry_a one_entry
      (set_entry-insert_entry new coins entry_b [] new-Represents)

get-find_entry_example : get one (98 ∷ []) ≡ find_entry (98 ∷ []) one_entry
get-find_entry_example =
    get-find_entry one one_entry (98 ∷ [])
      (set_entry-insert_entry new coins entry_b [] new-Represents)

entries_from-seek_example : entries_from one (97 ∷ []) ≡ seek (97 ∷ []) one_entry
entries_from-seek_example =
    entries_from-seek one one_entry (97 ∷ [])
      (set_entry-insert_entry new coins entry_b [] new-Represents)

run-held_example :
    ((key : Bytes) → get (run new ops) key ≡ held key none ops)
    × ((key : Bytes) → find_entry key (snapshot (run new ops)) ≡ held key none ops)
    × IsAscending (snapshot (run new ops))
run-held_example = run-held ops

ascend_range-within_example :
    ascend_range one (λ e. true) (some (97 ∷ [])) none ≡ within (some (97 ∷ [])) none one_entry
ascend_range-within_example =
    ascend_range-within one one_entry (some (97 ∷ [])) none
      (set_entry-insert_entry new coins entry_b [] new-Represents)
