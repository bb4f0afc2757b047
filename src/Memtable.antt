-- ===== src/Memtable.antt =====
-- internal/memtable: the skip list of skiplist.go on an explicit heap, and the memtable over it.
-- A `*node` is an address, nil is `none`. An array of pointers is a function of the index with the
-- length of the array beside it; the theorems on the search keep every read below that length.
pub mod Search
pub mod Link
pub mod Insert
pub mod Contents
pub mod Invariant
pub mod Read
pub mod Write
pub mod Replace
pub mod Operations
pub mod Refinement
pub mod Ranges
use Prim.Native.Nat.{Ordering}
use go_durable_engine.Prelude.{
  ℕ, zero, suc, ◌+◌, ◌-◌, ◌*◌, ◌^◌, Bool, true, false, Option, none, some, List, [], ◌∷◌, ◌++◌,
  length, ltb, leb, ◌==◌, if◌then◌else◌, Bytes,
}
use go_durable_engine.Bytes.{Slice, content, compare, is_neg, is_nonneg}

abbrev pub max_level : ℕ
max_level = 16

pub record Entry : Type 0 where
  pub key : Slice
  pub value : Bytes
  pub seq : ℕ
  pub deleted : Bool

pub record Node : Type 0 where
  pub entry : Entry
  pub height : ℕ
  pub next : ℕ → Option ℕ

abbrev pub Heap : Type 0
Heap = ℕ → Node

-- `fresh` is the address of the next node that is allocated.
pub record SkipList : Type 0 where
  pub heap : Heap
  pub fresh : ℕ
  pub head : ℕ
  pub level : ℕ
  pub size : ℕ
  pub bytes : ℕ

-- The heap after a write of one node.
abbrev pub store : Heap → ℕ → Node → Heap
store h p n q = if q == p then n else h q

abbrev pub empty_entry : Entry
empty_entry = record { key = none; value = []; seq = 0; deleted = false }

abbrev pub head_node : Node
head_node = record { entry = empty_entry; height = max_level; next = λ i. none }

unfoldable pub new : SkipList
new = record { heap = λ p. head_node; fresh = 1; head = 0; level = 1; size = 0; bytes = 0 }

-- `coins k` says whether the `k`-th draw of `rnd.Intn(4)` is 0; `n` is how far `lvl` may still rise.
unfoldable pub level_loop : ℕ → (ℕ → Bool) → ℕ → ℕ
level_loop zero coins lvl = lvl
level_loop (suc n) coins lvl =
    let more = level_loop n (λ k. coins (suc k)) (lvl + 1) in if coins 0 then more else lvl

unfoldable pub random_level : (ℕ → Bool) → ℕ
unfolding level_loop
random_level coins = level_loop (max_level - 1) coins 1

abbrev pub key_at : Heap → ℕ → Bytes
key_at h p = content (h p).entry.key

-- The inner loop of a search on level `i`; each round moves on to another node, so that the number
-- of allocated nodes is enough fuel.
unfoldable pub walk : ℕ → Heap → ℕ → Bytes → ℕ → ℕ
walk zero h i key x = x
walk (suc fuel) h i key x = elim ((h x).next i) [
  | none ↦ x
  | some y ↦ elim (is_neg (compare (key_at h y) key)) [ true ↦ walk fuel h i key y | false ↦ x ]
]

-- `update[i] = x`.
abbrev pub assign : (ℕ → ℕ) → ℕ → ℕ → ℕ → ℕ
assign update i x j = if j == i then x else update j

-- The outer loop, from level `n - 1` down to 0: the last `x`, and the nodes that it left levels at.
unfoldable pub descend : ℕ → ℕ → Heap → Bytes → ℕ → (ℕ → ℕ) → ℕ × (ℕ → ℕ)
unfolding walk
descend zero fuel h key x update = (x, update)
descend (suc i) fuel h key x update =
    let x' = walk fuel h i key x in descend i fuel h key x' (assign update i x')

-- `x.next[0]` behind the search from the head.
unfoldable pub seek_node : SkipList → Bytes → Option ℕ
unfolding descend
seek_node s key = (s.heap (descend s.level s.fresh s.heap key s.head (λ i. 0)).0).next 0

abbrev pub estimate_bytes : Entry → ℕ
estimate_bytes e = length (content e.key) + length e.value + 16

-- The loop that links the new node `n`, on `k` levels from `i` on.
unfoldable pub link : ℕ → ℕ → Heap → ℕ → (ℕ → ℕ) → Heap
link zero i h n update = h
link (suc k) i h n update =
    let u = update i in
    let h1 =
      store h n (record (h n) { next = λ j. if j == i then (h u).next i else (h n).next j }) in
    let h2 = store h1 u (record (h1 u) { next = λ j. if j == i then some n else (h1 u).next j }) in
    link k (i + 1) h2 n update

-- A node with this key is there: its value is replaced unless it is newer.
unfoldable pub replace_at : SkipList → ℕ → Bytes → ℕ → Bool → SkipList
replace_at s x value seq deleted =
    let old = (s.heap x).entry in
    let e = record old { value = value; seq = seq; deleted = deleted } in
    if leb old.seq seq
    then record s {
      heap = store s.heap x (record (s.heap x) { entry = e });
      bytes = s.bytes + estimate_bytes e - estimate_bytes old;
    }
    else s

unfoldable pub insert_node : SkipList → Entry → ℕ → (ℕ → ℕ) → SkipList
unfolding link
insert_node s e lvl update =
    let update' = λ (i : ℕ). if ltb i s.level then update i else s.head in
    let n = s.fresh in
    let h = store s.heap n (record { entry = e; height = lvl; next = λ i. none }) in
    record s {
      heap = link lvl 0 h n update';
      fresh = n + 1;
      level = if ltb s.level lvl then lvl else s.level;
      size = s.size + 1;
      bytes = s.bytes + estimate_bytes e;
    }

-- `x != nil && compareKey(x.entry.Key, key) == 0`.
abbrev pub is_at : Heap → Bytes → Option ℕ → Option ℕ
is_at h key none = none
is_at h key (some x) = elim (compare (key_at h x) key) [ Ordering.eq ↦ some x | _ ↦ none ]

unfoldable pub set_entry : SkipList → (ℕ → Bool) → Entry → SkipList
unfolding descend replace_at insert_node random_level
set_entry s coins e =
    let key = content e.key in
    let r = descend s.level s.fresh s.heap key s.head (λ i. 0) in
    elim (is_at s.heap key ((s.heap r.0).next 0)) [
      | some x ↦ replace_at s x e.value e.seq e.deleted
      | none ↦ insert_node s e (random_level coins) r.1
    ]

unfoldable pub put : SkipList → (ℕ → Bool) → Slice → Bytes → ℕ → SkipList
unfolding set_entry
put s coins key value seq =
    set_entry s coins (record { key = key; value = value; seq = seq; deleted = false })

unfoldable pub delete : SkipList → (ℕ → Bool) → Slice → ℕ → SkipList
unfolding set_entry
delete s coins key seq =
    set_entry s coins (record { key = key; value = []; seq = seq; deleted = true })

unfoldable pub get : SkipList → Bytes → Option Entry
unfolding seek_node
get s key = elim (is_at s.heap key (seek_node s key)) [
  | none ↦ none
  | some x ↦ some (s.heap x).entry
]

-- `for n := p; n != nil; n = n.next[0]`, collecting the entries.
unfoldable pub collect : ℕ → Heap → Option ℕ → List Entry
collect zero h p = []
collect (suc fuel) h none = []
collect (suc fuel) h (some x) = (h x).entry ∷ collect fuel h ((h x).next 0)

unfoldable pub snapshot : SkipList → List Entry
unfolding collect
snapshot s = collect s.fresh s.heap ((s.heap s.head).next 0)

-- `hi != nil && compareKey(key, hi) >= 0`
abbrev pub reaches : Slice → Bytes → Bool
reaches none key = false
reaches (some hi) key = is_nonneg (compare key hi)

-- The entries from `target` on, which an iterator yields after `Seek`.
unfoldable pub entries_from : SkipList → Bytes → List Entry
unfolding collect seek_node
entries_from s target = collect s.fresh s.heap (seek_node s target)

-- The callback of `Ascend` answers whether to go on; these are the entries that it is called on, up to
-- the first key that is not below `hi`.
unfoldable pub visit : ℕ → Heap → (Entry → Bool) → Slice → Option ℕ → List Entry
visit zero h fn hi p = []
visit (suc fuel) h fn hi none = []
visit (suc fuel) h fn hi (some x) =
    let rest = visit fuel h fn hi ((h x).next 0) in
    let e = (h x).entry in
    if reaches hi (content e.key) then [] else e ∷ (if fn e then rest else [])

unfoldable pub ascend : SkipList → (Entry → Bool) → List Entry
unfolding visit
ascend s fn = visit s.fresh s.heap fn none ((s.heap s.head).next 0)

unfoldable pub ascend_range : SkipList → (Entry → Bool) → Slice → Slice → List Entry
unfolding visit seek_node
ascend_range s fn none hi = visit s.fresh s.heap fn hi ((s.heap s.head).next 0)
ascend_range s fn (some lo) hi = visit s.fresh s.heap fn hi (seek_node s lo)

max_seq_loop : List Entry → ℕ → ℕ
max_seq_loop [] best = best
max_seq_loop (e ∷ es) best = max_seq_loop es (if ltb best e.seq then e.seq else best)

unfoldable pub max_seq : SkipList → ℕ
unfolding snapshot max_seq_loop
max_seq s = max_seq_loop (snapshot s) 0

-- A new head; the old nodes are garbage.
unfoldable pub clear : SkipList → SkipList
clear s = record {
  heap = store s.heap s.fresh head_node;
  fresh = s.fresh + 1;
  head = s.fresh;
  level = 1;
  size = 0;
  bytes = 0;
}

pub record MemTable : Type 0 where
  pub sl : SkipList
  pub max_bytes : ℕ

-- An int that is not positive is 0 here.
unfoldable pub new_mem_table : ℕ → MemTable
unfolding new
new_mem_table max_bytes = record {
  sl = new;
  max_bytes = if max_bytes == 0 then 4 * 2 ^ 20 else max_bytes;
}

unfoldable pub should_flush : MemTable → Bool
should_flush m = leb m.max_bytes m.sl.bytes
