-- ===== src/Sstable/Iterator.antt =====
-- The iterator over a table, internal/sstable/iter.go.
use go_durable_engine.Prelude.{
  ℕ, ◌+◌, Bool, false, Option, none, some, List, [], ◌∷◌, length, get_elem?, drop, if◌then◌else◌,
  Result, ok, err, ◌>>=◌, Bytes,
}
use go_durable_engine.Bytes.{content, compare, is_nonneg}
use go_durable_engine.Sstable.{Error, Entry, IndexRec}
use go_durable_engine.Sstable.Reader.{
  BlockIter, Reader, read_block, new_block_iter, next, seek, entry_of,
}

-- `pos` is the field `bi` and one more, the number of the block that comes next.
pub record Iterator : Type 0 where
  pub pos : ℕ
  pub block_it : Option BlockIter
  pub error : Option Error

abbrev pub is_valid_block : Option BlockIter → Bool
is_valid_block none = false
is_valid_block (some b) = b.valid

unfoldable pub is_valid : Iterator → Bool
is_valid it = elim it.error [ none ↦ is_valid_block it.block_it | some e ↦ false ]

-- `it.err = err`; a panic is no error that is kept.
abbrev pub failed : Iterator → Error → Result Error Iterator
failed it Error.panic = err Error.panic
failed it e = ok (record it { error = some e })

-- The loop over the blocks that are left.
unfoldable pub find_block : Bytes → List IndexRec → Iterator → Result Error Iterator
find_block file [] it = ok (record it { pos = it.pos + 1; block_it = none })
find_block file (r ∷ rs) it =
    let it1 = record it { pos = it.pos + 1 } in
    elim (read_block file r >>= new_block_iter) [
      | err e ↦ failed it1 e
      | ok b ↦
          let it2 = record it1 { block_it = some b } in
          let more = find_block file rs it2 in if b.valid then ok it2 else more
    ]

unfoldable pub next_of_table : Reader → Iterator → Result Error Iterator
unfolding find_block
next_of_table r it = elim it.error [
  | some e ↦ ok it
  | none ↦ elim it.block_it [
    | none ↦ find_block r.file (drop it.pos r.index) it
    | some b ↦ elim (next b) [
      | err e ↦ err e
      | ok b' ↦
          let it' = record it { block_it = some b' } in
          if b'.valid then ok it' else find_block r.file (drop it.pos r.index) it'
    ]
  ]
]

unfoldable pub new_iterator : Reader → Result Error Iterator
unfolding next_of_table
new_iterator r = next_of_table r (record { pos = 0; block_it = none; error = none })

-- `search n p` is `sort.Search`.
unfoldable pub seek_table : (ℕ → (ℕ → Bool) → ℕ) → Reader → Iterator → Bytes → Result Error Iterator
unfolding next_of_table
seek_table search r it target =
    let idx = search (length r.index) (λ i. elim (get_elem? r.index i) [
      | none ↦ false
      | some rec ↦ is_nonneg (compare (content rec.last_key) target)
    ]) in
    let it0 = record it { error = none } in
    elim (get_elem? r.index idx) [
      | none ↦ ok (record it0 {
        pos = elim r.index [ [] ↦ it.pos | x ∷ xs ↦ length r.index + 1 ];
        block_it = none;
      })
      | some rec ↦
          let it1 = record it0 { pos = idx + 1 } in
          elim (read_block r.file rec >>= new_block_iter) [
            | err e ↦ failed it1 e
            | ok b ↦ elim (seek b target) [
              | err e ↦ err e
              | ok b' ↦
                  let it2 = record it1 { block_it = some b' } in
                  if b'.valid then ok it2 else next_of_table r it2
            ]
          ]
    ]

-- `Entry`: the current entry, or the zero one.
unfoldable pub current : Iterator → Option Entry
current it = elim it.error [
  | some e ↦ none
  | none ↦ elim it.block_it [ none ↦ none | some b ↦ if b.valid then some (entry_of b) else none ]
]
