-- ===== src/Sstable/Reader.antt =====
-- The reader of internal/sstable/reader.go: blocks and the index. `ReadAt` beyond the end of the file
-- is an error, which is `corrupt` here.
use go_durable_engine.Prelude.{
  can_make, ℕ, zero, suc, ◌+◌, ◌-◌, ◌*◌, ◌/◌, ◌%◌, ◌^◌, Bool, true, false, not, ◌&&◌, Option, none,
  some, List, [], ◌∷◌, ◌++◌, length, get_elem?, get_or, take, drop, ltb, leb, ◌==◌, if◌then◌else◌,
  Result, ok, err, ◌>>=◌, ◌>>◌, guard, or_else, Bytes,
}
use go_durable_engine.Bytes.{content, compare, is_neg, is_nonpos, is_nonneg, equal}
use go_durable_engine.Bytes.Endian.{le_value}
use go_durable_engine.Crc.{checksum_castagnoli}
use go_durable_engine.Varint.{decode_uint64}
use go_durable_engine.Bloom.{Filter, may_contain, unmarshal_binary}
use go_durable_engine.Sstable.{Error, Entry, IndexRec, magic_footer, flag_delete}

-- `ReadAt` of `n` bytes at `off`. A length that `make` refuses is beyond the end of any file, and an
-- error here, where Go panics.
unfoldable pub read_at : Bytes → ℕ → ℕ → Result Error Bytes
read_at file off n =
    if ltb (length file) (off + n) then err Error.corrupt else ok (take n (drop off file))

-- The body in front of a checksum of four bytes, for a slice of at least `least` bytes.
unfoldable pub checked : ℕ → Bytes → Result Error Bytes
checked least buf =
    let body = take (length buf - 4) buf in
    if ltb (length buf) least
    then err Error.corrupt
    else if checksum_castagnoli body == le_value (drop (length buf - 4) buf)
    then ok body
    else err Error.corrupt

unfoldable pub read_block : Bytes → IndexRec → Result Error Bytes
unfolding read_at checked
read_block file r = do buf ← read_at file r.offset r.length; checked 8 buf

unfoldable pub restarts_loop : ℕ → Bytes → List ℕ
restarts_loop zero b = []
restarts_loop (suc n) b = le_value (take 4 b) ∷ restarts_loop n (drop 4 b)

unfoldable pub parse_restarts : Bytes → Result Error (Bytes × List ℕ)
unfolding restarts_loop
parse_restarts block =
    let n = le_value (drop (length block - 4) block) in
    let need = n * 4 + 4 in
    let off = length block - need in
    if ltb (length block) 4
    then err Error.corrupt
    else if ltb (length block) need
    then err Error.corrupt
    else ok (take off block, restarts_loop n (drop off block))

pub record BlockIter : Type 0 where
  pub block : Bytes
  pub restarts : List ℕ
  pub off : ℕ
  pub key : Bytes
  pub value : Bytes
  pub seq : ℕ
  pub deleted : Bool
  pub valid : Bool

-- An early return of `Next`: with the iterator that is no longer valid, or with a panic.
abbrev pub Exit : Type 0
Exit = Result Error BlockIter

abbrev pub stopped : BlockIter → ℕ → Exit
stopped it off = ok (record it { off = off; valid = false })

-- A varint of the block at `off`, and the offset behind it.
unfoldable pub number : BlockIter → ℕ → Result Exit (ℕ × ℕ)
number it off = elim (decode_uint64 (drop off it.block)) [
  | err e ↦ err (stopped it off)
  | ok (v, n) ↦ ok (v, off + n)
]

-- `it.off+int(nonShared)+int(vlen) > len(it.block)`, where the sum of ints wraps.
abbrev pub is_beyond : ℕ → ℕ → Bool
is_beyond len sum = ltb (sum % 2 ^ 64) (2 ^ 63) && ltb len (sum % 2 ^ 64)

-- What stands behind the numbers of an entry, at `off`. A sum that wrapped, or a key that shares more
-- than there is, passes the test and makes a slice expression panic.
unfoldable pub entry_at : BlockIter → ℕ → ℕ → ℕ → ℕ → ℕ → Result Exit BlockIter
entry_at it shared non_shared vlen seq off =
    let start = off + 1 in
    let sum = start + non_shared + vlen in
    if ltb off (length it.block)
    then (if is_beyond (length it.block) sum
        then err (stopped it start)
        else if leb sum (length it.block) && leb shared (length it.key)
        then ok (record it {
          off = sum;
          key = take shared it.key ++ take non_shared (drop start it.block);
          value = take vlen (drop (start + non_shared) it.block);
          seq = seq;
          deleted = get_or it.block off 0 == flag_delete;
          valid = true;
        })
        else err (err Error.panic))
    else err (stopped it off)

-- The entry at `it.off`.
unfoldable pub next_entry : BlockIter → Result Exit BlockIter
unfolding number entry_at
next_entry it = do
  (shared, o1) ← number it it.off
  (non_shared, o2) ← number it o1
  (vlen, o3) ← number it o2
  (seq, o4) ← number it o3
  entry_at it shared non_shared vlen seq o4

unfoldable pub next : BlockIter → Exit
unfolding next_entry
next it =
    if leb (length it.block) it.off
    then stopped it it.off
    else elim (next_entry it) [ err e ↦ e | ok it' ↦ ok it' ]

unfoldable pub new_block_iter : Bytes → Exit
unfolding parse_restarts next
new_block_iter block = do
  (block', restarts) ← parse_restarts block
  next (record {
    block = block';
    restarts = restarts;
    off = 0;
    key = [];
    value = [];
    seq = 0;
    deleted = false;
    valid = false;
  })

-- `it.off = off; it.key = nil; it.Next()`
unfoldable pub jump : BlockIter → ℕ → Exit
unfolding next
jump it off = next (record it { off = off; key = [] })

-- `for it.valid && Compare(it.key, target) < 0 { it.Next() }`; each round moves on in the block.
unfoldable pub skip_below : ℕ → BlockIter → Bytes → Exit
unfolding next
skip_below zero it target = ok it
skip_below (suc fuel) it target =
    if it.valid && is_neg (compare it.key target)
    then (elim (next it) [ err e ↦ err e | ok it' ↦ skip_below fuel it' target ])
    else ok it

-- The binary search over the restart points, between `lo` and `hi`.
unfoldable pub restart_search : ℕ → BlockIter → Bytes → ℕ → ℕ → Result Error ℕ
unfolding jump
restart_search zero it target lo hi = ok lo
restart_search (suc fuel) it target lo hi =
    let mid = (lo + hi + 1) / 2 in
    if ltb lo hi
    then (elim (jump it (get_or it.restarts mid 0)) [
      | err e ↦ err e
      | ok it' ↦
          let up = restart_search fuel it' target mid hi in
          let down = restart_search fuel it' target lo (mid - 1) in
          if it'.valid && is_nonpos (compare it'.key target) then up else down
    ])
    else ok lo

unfoldable pub seek : BlockIter → Bytes → Exit
unfolding restart_search jump skip_below
seek it target =
    let fuel = length it.block + 1 in
    elim it.restarts [
      | [] ↦ do it' ← jump it 0; skip_below fuel it' target
      | r ∷ rs ↦ do
        lo ← restart_search (length it.restarts) it target 0 (length it.restarts - 1)
        it' ← jump it (get_or it.restarts lo 0)
        skip_below fuel it' target
    ]

pub record Reader : Type 0 where
  pub file : Bytes
  pub index : List IndexRec
  pub bloom : Filter
  pub max_seq : ℕ
  pub entries : ℕ

-- A varint of the index, and the offset behind it.
unfoldable pub index_number : Bytes → ℕ → Result Error (ℕ × ℕ)
index_number body off = do
  (v, n) ← or_else (decode_uint64 (drop off body)) Error.corrupt
  ok (v, off + n)

-- `off+int(klen) > len(body)`; a sum that wrapped makes the slice expression panic.
unfoldable pub index_key : Bytes → ℕ → ℕ → Result Error Bytes
index_key body off n =
    if leb (2 ^ 63) (off + n)
    then err Error.panic
    else if ltb (length body) (off + n)
    then err Error.corrupt
    else ok (take n (drop off body))

unfoldable pub index_loop : ℕ → Bytes → ℕ → Result Error (List IndexRec)
unfolding index_number index_key
index_loop zero body off = ok []
index_loop (suc n) body off = do
  (klen, o1) ← index_number body off
  key ← index_key body o1 klen
  (boff, o2) ← index_number body (o1 + klen)
  (blen, o3) ← index_number body o2
  rest ← index_loop n body o3
  ok (record { last_key = some key; offset = boff; length = blen } ∷ rest)

-- The bytes of an `indexRec` in memory.
abbrev pub index_rec_size : ℕ
index_rec_size = 40

unfoldable pub parse_index : Bytes → Result Error (List IndexRec)
unfolding checked index_number index_loop
parse_index b = do
  body ← checked 4 b
  (n, off) ← index_number body 0
  guard (can_make n index_rec_size) Error.panic
  index_loop n body off

unfoldable pub open_table : Bytes → Result Error Reader
unfolding read_at parse_index
open_table file = do
  guard (not (ltb (length file) 56)) Error.corrupt
  footer ← read_at file (length file - 56) 56
  guard (le_value (take 4 footer) == magic_footer) Error.bad_magic
  guard (le_value (take 4 (drop 52 footer)) == magic_footer) Error.bad_magic
  bloom_data ←
      read_at file (le_value (take 8 (drop 20 footer))) (le_value (take 8 (drop 28 footer)))
  bf ← or_else (unmarshal_binary bloom_data) Error.corrupt
  index_data ← read_at file (le_value (take 8 (drop 4 footer))) (le_value (take 8 (drop 12 footer)))
  index ← parse_index index_data
  ok (record {
    file = file;
    index = index;
    bloom = bf;
    max_seq = le_value (take 8 (drop 36 footer));
    entries = le_value (take 8 (drop 44 footer));
  })

abbrev pub entry_of : BlockIter → Entry
entry_of it = record { key = some it.key; value = it.value; seq = it.seq; deleted = it.deleted }

-- `it.Valid() && Equal(it.key, key)`
unfoldable pub found_entry : BlockIter → Bytes → Option Entry
found_entry it key = if it.valid && equal it.key key then some (entry_of it) else none

-- The lookup; `search n p` is `sort.Search`.
unfoldable pub block_for : (ℕ → (ℕ → Bool) → ℕ) → Reader → Bytes → Option IndexRec
block_for search r key = get_elem? r.index (
    search (length r.index) (λ i. elim (get_elem? r.index i) [
      | none ↦ false
      | some rec ↦ is_nonneg (compare (content rec.last_key) key)
    ]))

unfoldable pub get : (ℕ → (ℕ → Bool) → ℕ) → Reader → Bytes → Result Error (Option Entry)
unfolding block_for read_block new_block_iter seek found_entry
get search r key = elim (may_contain r.bloom key) [
  | none ↦ err Error.panic
  | some false ↦ ok none
  | some true ↦ elim (block_for search r key) [
    | none ↦ ok none
    | some rec ↦ do
      block ← read_block r.file rec
      it ← new_block_iter block
      it' ← seek it key
      ok (found_entry it' key)
  ]
]
