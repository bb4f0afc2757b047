-- ===== src/Db/Read.antt =====
-- The calls of lsmkv/read.go.
use go_durable_engine.Prelude.{
  ℕ, Bool, true, false, Option, none, some, List, [], ◌∷◌, length, ltb, if◌then◌else◌, Result, ok,
  err, Bytes,
}
use mathlib.Core.List.{reverse}
use go_durable_engine.Memtable
use go_durable_engine.Sstable
use go_durable_engine.Bloom.{may_contain}
use go_durable_engine.Sstable.Reader
use go_durable_engine.Sstable.Reader.{Reader, block_for}
use go_durable_engine.Db.{Error, closed, not_found, io, of_table, Db, Env, Table}

-- `Get` of a table that was closed, which has no file to read a block from.
unfoldable pub closed_get :
    (ℕ → (ℕ → Bool) → ℕ) → Reader → Bytes → Result Error (Option Sstable.Entry)
closed_get search r key = elim (may_contain r.bloom key) [
  | none ↦ err (of_table Sstable.Error.panic)
  | some false ↦ ok none
  | some true ↦ elim (block_for search r key) [ none ↦ ok none | some rec ↦ err io ]
]

unfoldable pub table_get :
    (ℕ → (ℕ → Bool) → ℕ) → Table → Bytes → Result Error (Option Sstable.Entry)
unfolding closed_get
table_get search t key =
    if t.is_closed
    then closed_get search t.reader key
    else (elim (Reader.get search t.reader key) [ err e ↦ err (of_table e) | ok found ↦ ok found ])

-- `if !found || e.Seq > best.Seq { best = e; found = true }`.
abbrev pub better : Option Sstable.Entry → Sstable.Entry → Option Sstable.Entry
better none e = some e
better (some best) e = if ltb best.seq e.seq then some e else some best

abbrev pub best_of : Option Sstable.Entry → Option Sstable.Entry → Option Sstable.Entry
best_of best none = best
best_of best (some e) = better best e

-- The loop over the tables, the newest in front.
unfoldable pub scan_tables :
    (ℕ → (ℕ → Bool) → ℕ)
    → Bytes
    → List Table
    → Option Sstable.Entry
    → Result Error (Option Sstable.Entry)
unfolding table_get
scan_tables search key [] best = ok best
scan_tables search key (t ∷ ts) best = elim (table_get search t key) [
  | err e ↦ err e
  | ok found ↦ scan_tables search key ts (best_of best found)
]

abbrev pub table_answer : Result Error (Option Sstable.Entry) → Result Error Bytes
table_answer (err e) = err e
table_answer (ok none) = err not_found
table_answer (ok (some best)) = if best.deleted then err not_found else ok best.value

unfoldable pub db_get : Env → Db → Bytes → Result Error Bytes
unfolding scan_tables
db_get env db key = if db.is_closed then err closed else (elim (Memtable.get db.mem.sl key) [
  | some e ↦ if e.deleted then err not_found else ok e.value
  | none ↦ table_answer (scan_tables env.search key (reverse db.tables) none)
])

unfoldable pub has : Env → Db → Bytes → Result Error Bool
unfolding db_get
has env db key = elim (db_get env db key) [
  | ok value ↦ ok true
  | err e ↦ elim e [ not_found ↦ ok false | other ↦ err other ]
]

pub record Stats : Type 0 where
  pub memtable_bytes : ℕ
  pub memtable_keys : ℕ
  pub sst_files : ℕ
  pub wal_size : ℕ

unfoldable pub stats : Db → Stats
stats db = record {
  memtable_bytes = db.mem.sl.bytes;
  memtable_keys = db.mem.sl.size;
  sst_files = length db.tables;
  wal_size = db.wal.size;
}

unfoldable pub table_count : Db → ℕ
table_count db = length db.tables
