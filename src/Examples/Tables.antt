-- ===== src/Examples/Tables.antt =====
-- The Bloom filter and the tables at concrete inputs.
use go_durable_engine.Prelude.{
  ℕ, ◌+◌, ◌^◌, ◌<◌, ◌≤◌, ◌≡◌, ◌↔◌, refl, false, true, some, List, [], ◌∷◌, ◌++◌, map, arith, length,
  replicate, ok, Bytes, All,
}
use go_durable_engine.Bytes.Endian.{le_bytes}
use go_durable_engine.Bloom.{Filter, add_all, may_contain, marshal_binary, unmarshal_binary, build}
use go_durable_engine.Bloom.Members.{add_all-may_contain}
use go_durable_engine.Bloom.Codec.{IsMarshallable, unmarshal_binary-marshal_binary}
use go_durable_engine.Sstable.{Entry, IndexRec, Meta}
use go_durable_engine.Sstable.Writer.{Writer, create, flush_block, add_entries, index_bytes, finish}
use go_durable_engine.Sstable.Reader.{BlockIter, read_block, parse_restarts, open_table, seek}
use go_durable_engine.Sstable.Blocks.{fill, scan, stored, IsStorable, length-fill, scan-fill}
use go_durable_engine.Sstable.Flush.{read_block-flush_block}
use go_durable_engine.Sstable.Table.{IsIndexRec, stored_rec, length-index_bytes}
use go_durable_engine.Sstable.Footer.{open_table-finish}
use go_durable_engine.Sstable.Progress.{Ended, seek-Ended}
use go_durable_engine.Sstable.Adding.{InOrder, add_entries_iff}

-- A filter of 64 bits and three hash functions.
abbrev small_filter : Filter
small_filter = record { bits = replicate 8 0; m = 64; k = 3; n_added = 0 }

add_all-may_contain_example :
    (f' : Filter) × (add_all small_filter ((1 ∷ []) ∷ (2 ∷ []) ∷ []) ≡ some f')
    × All (λ key. may_contain f' key ≡ some true) ((1 ∷ []) ∷ (2 ∷ []) ∷ [])
    × ((key : Bytes) → may_contain small_filter key ≡ some true → may_contain f' key ≡ some true)
add_all-may_contain_example =
    add_all-may_contain small_filter ((1 ∷ []) ∷ (2 ∷ []) ∷ []) (omega arith)

abbrev small_filter-IsMarshallable : IsMarshallable small_filter
small_filter-IsMarshallable = record {
  m = omega arith;
  k = omega arith;
  n_added = omega arith;
  bits = omega arith;
}

unmarshal_binary-marshal_binary_example :
    unmarshal_binary (marshal_binary small_filter) ≡ ok small_filter
unmarshal_binary-marshal_binary_example =
    unmarshal_binary-marshal_binary small_filter small_filter-IsMarshallable

abbrev two_entries : List Entry
two_entries =
    record { key = some (97 ∷ 98 ∷ []); value = 1 ∷ []; seq = 3; deleted = false }
    ∷ record { key = some (97 ∷ 99 ∷ []); value = []; seq = 4; deleted = true }
    ∷ []

two_entries-IsStorable : All IsStorable two_entries
two_entries-IsStorable =
    ((omega arith, omega arith, omega arith), ((omega arith, omega arith, omega arith), tt))

abbrev bare : Writer
bare = create 0 0

bare-buf : bare.buf ≡ []
unfolding create
bare-buf = refl

bare-block_entries : bare.block_entries ≡ 0
unfolding create
bare-block_entries = refl

scan-fill_example :
    scan 3 (record {
      block = (fill bare two_entries).buf;
      restarts = 0 ∷ [];
      off = 0;
      key = [];
      value = [];
      seq = 0;
      deleted = false;
      valid = false;
    })
    ≡ ok (map stored two_entries)
scan-fill_example =
    scan-fill bare two_entries (0 ∷ []) 3 bare-buf bare-block_entries two_entries-IsStorable
      (omega
        (arith, length-fill bare two_entries bare-buf bare-block_entries two_entries-IsStorable))
      (omega arith)

abbrev buffering : Writer
buffering = record bare { buf = 1 ∷ 2 ∷ 3 ∷ []; restarts = 0 ∷ 2 ∷ []; last_key = some (97 ∷ []) }

read_block-flush_block_example :
    (r : IndexRec) × (body : Bytes) × ((flush_block buffering).index ≡ buffering.index ++ r ∷ [])
    × (r.last_key ≡ buffering.last_key)
    × (read_block ((flush_block buffering).file ++ 9 ∷ []) r ≡ ok body)
    × (parse_restarts body ≡ ok (buffering.buf, buffering.restarts))
read_block-flush_block_example =
    read_block-flush_block buffering (9 ∷ []) (omega arith) (omega arith, (omega arith, tt))
      (omega arith)

abbrev flushed : Writer
flushed = record bare {
  file = 7 ∷ 7 ∷ [];
  index = record { last_key = some (97 ∷ []); offset = 0; length = 2 } ∷ [];
  max_seq = 3;
  entry_count = 1;
}

abbrev sizes : ℕ → ℕ × ℕ
sizes n = (64, 3)

flushed-build : build sizes flushed.bloom ≡ some small_filter
unfolding build create
flushed-build = refl

abbrev flushed-recs : All IsIndexRec (flush_block flushed).index
flushed-recs = unfold flush_block create in ((omega arith, omega arith, omega arith), tt)

flushed-file : length (flush_block flushed).file ≡ 2
unfolding flush_block create
flushed-file = refl

small_filter-marshal_binary : length (marshal_binary small_filter) ≡ 33
unfolding marshal_binary le_bytes
small_filter-marshal_binary = refl

flushed-index_bytes : length (index_bytes (flush_block flushed).index) ≤ 45
unfolding flush_block create
flushed-index_bytes = length-index_bytes (flush_block flushed).index flushed-recs (omega arith)

flushed-small :
    length (flush_block flushed).file
      + length (marshal_binary small_filter)
      + length (index_bytes (flush_block flushed).index)
    < 2 ^ 63
flushed-small = omega (arith, flushed-file, small_filter-marshal_binary, flushed-index_bytes)

open_table-finish_example :
    (m : Meta) × (w' : Writer) × (finish sizes flushed ≡ ok (m, w'))
    × (open_table w'.file
        ≡ ok (record {
          file = w'.file;
          index = map stored_rec (flush_block flushed).index;
          bloom = small_filter;
          max_seq = (flush_block flushed).max_seq;
          entries = (flush_block flushed).entry_count;
        }))
    × (m.file_size ≡ length w'.file)
open_table-finish_example =
    open_table-finish sizes flushed small_filter (unfold create in refl) flushed-build
      small_filter-IsMarshallable flushed-recs (unfold flush_block create in omega arith)
      (unfold flush_block create in omega arith) (unfold flush_block create in omega arith)
      flushed-small

add_entries_iff_example :
    ((w' : Writer) × (add_entries bare two_entries ≡ ok w')) ↔ InOrder bare.last_key two_entries
add_entries_iff_example = add_entries_iff two_entries bare (unfold create in refl)

-- One entry, then a byte that starts a number without its end.
abbrev damaged : BlockIter
damaged = record {
  block = 0 ∷ 1 ∷ 0 ∷ 3 ∷ 0 ∷ 97 ∷ 0x80 ∷ [];
  restarts = 0 ∷ [];
  off = 0;
  key = [];
  value = [];
  seq = 0;
  deleted = false;
  valid = false;
}

seek-Ended_example : Ended (98 ∷ []) (seek damaged (98 ∷ []))
seek-Ended_example = seek-Ended damaged (98 ∷ [])
