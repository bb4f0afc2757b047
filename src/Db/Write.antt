-- ===== src/Db/Write.antt =====
-- The calls of lsmkv/write.go that change the database. What the operating system answers, and what
-- the memtable draws, is an argument.
use go_durable_engine.Prelude.{
  ℕ, suc, ◌+◌, ◌-◌, ◌^◌, ◌%◌, Bool, true, false, Option, none, some, List, [], ◌∷◌, ◌++◌, length,
  map, ltb, ◌==◌, if◌then◌else◌, Result, ok, err, Bytes,
}
use go_durable_engine.Bytes.{Slice, content, clone, compare, is_neg, is_pos}
use go_durable_engine.Wal
use go_durable_engine.Wal.{BatchEntry}
use go_durable_engine.Wal.Encode.{next}
use go_durable_engine.Wal.Log
use go_durable_engine.Wal.Log.{
  Log, Io, ResetIo, append_put, append_delete, append_batch, reset, set_next_seq,
}
use go_durable_engine.Memtable
use go_durable_engine.Memtable.{MemTable, put, delete, clear, snapshot, should_flush}
use go_durable_engine.Manifest
use go_durable_engine.Manifest.{FileMeta}
use go_durable_engine.Manifest.Store.{Manifest, alloc_file_name, add_file}
use go_durable_engine.Sstable
use go_durable_engine.Sstable.{Meta}
use go_durable_engine.Sstable.Writer.{Writer, create, write_file}
use go_durable_engine.Sstable.Reader.{Reader, open_table}
use go_durable_engine.Db.{
  Error, closed, invalid, read_only, io, of_wal, of_manifest, of_table, Db, Env, write_path,
  remove_path,
}

-- What happens in one flush: the two writes of the manifest with their times, the write of the
-- table, which may fail and leave some bytes, its opening, and the reset of the log.
pub record FlushIo : Type 0 where
  pub now : Bytes
  pub alloc_fails : Bool
  pub table_left : Option Bytes
  pub added : Bytes
  pub add_fails : Bool
  pub open_fails : Bool
  pub reset : ResetIo

abbrev pub table_entry : Memtable.Entry → Sstable.Entry
table_entry e = record { key = e.key; value = e.value; seq = e.seq; deleted = e.deleted }

-- The loop over the snapshot: `maxSeq`, `minKey` and `maxKey`.
abbrev first_or : (Bytes → Bytes → Bool) → Slice → Slice → Slice
first_or better key none = key
first_or better key (some best) = if better (content key) best then key else some best

unfoldable pub key_range : List Memtable.Entry → ℕ → Slice → Slice → ℕ × Slice × Slice
key_range [] max_seq min_key max_key = (max_seq, min_key, max_key)
key_range (e ∷ es) max_seq min_key max_key =
    key_range es (if ltb max_seq e.seq then e.seq else max_seq)
      (first_or (λ a b. is_neg (compare a b)) e.key min_key)
      (first_or (λ a b. is_pos (compare a b)) e.key max_key)

unfoldable pub file_meta : Bytes → List Memtable.Entry → Meta → FileMeta
unfolding key_range
file_meta name es m =
    let r = key_range es 0 none none in
    record {
      name = name;
      level = 0;
      min_key = content (clone r.1);
      max_key = content (clone r.2);
      max_seq = r.0;
      entries = length es;
      file_size = m.file_size;
    }

unfoldable pub max_seq_of : List Memtable.Entry → ℕ
unfolding key_range
max_seq_of es = (key_range es 0 none none).0

abbrev pub Outcome : Type 0
Outcome = Db × Result Error (Unit {0})

-- The steps of `flushLocked` in their order, each on the result of the one in front of it.
abbrev pub flush_reset : Db → ℕ → Log × Result Wal.Error (Unit {0}) → Outcome
flush_reset db max_seq (l, err e) = (record db { wal = l }, err (of_wal e))
flush_reset db max_seq (l, ok _) = (record db { wal = set_next_seq l max_seq }, ok tt)

abbrev pub flush_opened : FlushIo → Db → ℕ → Bytes → Result Error Reader → Outcome
flush_opened o db max_seq name (err e) = (db, err e)
flush_opened o db max_seq name (ok r) =
    flush_reset
      (record db {
        tables = db.tables ++ record { path = name; reader = r; is_closed = false } ∷ [];
        mem = record db.mem { sl = clear db.mem.sl };
      })
      max_seq (reset db.wal o.reset)

-- `sstable.Open`, which may fail before it reads the file.
abbrev pub opened_file : Bool → Bytes → Result Error Reader
opened_file fails file =
    if fails then err io else (elim (open_table file) [ err e ↦ err (of_table e) | ok r ↦ ok r ])

abbrev pub flush_added :
    FlushIo → Db → ℕ → Bytes → Bytes → Manifest × Result Manifest.Error (Unit {0}) → Outcome
flush_added o db max_seq name file (m, err e) =
    (record db { manif = m; files = remove_path db.files name }, err (of_manifest e))
flush_added o db max_seq name file (m, ok _) =
    flush_opened o (record db { manif = m }) max_seq name (opened_file o.open_fails file)

-- A table whose writer refuses an entry is removed by `Abort`; one of which the writing failed at the
-- file system is left as far as it was written.
abbrev pub flush_written :
    Env
    → FlushIo
    → Db
    → List Memtable.Entry
    → Bytes
    → Option Bytes
    → Result Sstable.Error (Meta × Writer)
    → Outcome
flush_written env o db es name left (err e) =
    (record db { files = remove_path db.files name }, err (of_table e))
flush_written env o db es name (some left) (ok (m, w)) =
    (record db { files = write_path db.files name left }, err io)
flush_written env o db es name none (ok (m, w)) =
    flush_added o (record db { files = write_path db.files name w.file }) (max_seq_of es) name
      w.file (add_file (file_meta name es m) (max_seq_of es) env.json o.added o.add_fails db.manif)

abbrev pub flush_named :
    Env → FlushIo → Db → List Memtable.Entry → Manifest × Result Manifest.Error Bytes → Outcome
flush_named env o db es (m, err e) = (record db { manif = m }, err (of_manifest e))
flush_named env o db es (m, ok name) =
    flush_written env o (record db { manif = m }) es name o.table_left
      (write_file env.sizes (create 0 0) (map table_entry es))

abbrev pub flush_entries : Env → FlushIo → Db → List Memtable.Entry → Outcome
flush_entries env o db [] = (db, ok tt)
flush_entries env o db (e ∷ es) =
    flush_named env o db (e ∷ es) (alloc_file_name env.format env.json o.now o.alloc_fails db.manif)

unfoldable pub flush_locked : Env → FlushIo → Db → Outcome
flush_locked env o db = flush_entries env o db (snapshot db.mem.sl)

-- `if db.mem.ShouldFlush() { return db.flushLocked() }; return nil`.
unfoldable pub flush_if_full : Env → FlushIo → Db → Outcome
unfolding flush_locked
flush_if_full env o db = if should_flush db.mem then flush_locked env o db else (db, ok tt)

-- The guards that the writing calls share.
unfoldable pub guarded : Db → Outcome → Outcome
guarded db done =
    if db.is_closed
    then (db, err closed)
    else if db.opts.read_only
    then (db, err read_only)
    else done

abbrev pub put_logged :
    Env → FlushIo → (ℕ → Bool) → Db → Bytes → Bytes → Log × Result Wal.Error ℕ → Outcome
put_logged env o coins db key value (l, err e) = (record db { wal = l }, err (of_wal e))
put_logged env o coins db key value (l, ok seq) =
    flush_if_full env o
      (record db { wal = l; mem = record db.mem { sl = put db.mem.sl coins (some key) value seq } })

unfoldable pub db_put : Env → Io → FlushIo → (ℕ → Bool) → Db → Bytes → Bytes → Outcome
unfolding guarded flush_if_full
db_put env w o coins db key value =
    if length key == 0
    then (db, err invalid)
    else guarded db (put_logged env o coins db key value (append_put db.wal key value w))

abbrev pub delete_logged :
    Env → FlushIo → (ℕ → Bool) → Db → Bytes → Log × Result Wal.Error ℕ → Outcome
delete_logged env o coins db key (l, err e) = (record db { wal = l }, err (of_wal e))
delete_logged env o coins db key (l, ok seq) =
    flush_if_full env o
      (record db { wal = l; mem = record db.mem { sl = delete db.mem.sl coins (some key) seq } })

unfoldable pub db_delete : Env → Io → FlushIo → (ℕ → Bool) → Db → Bytes → Outcome
unfolding guarded flush_if_full
db_delete env w o coins db key =
    if length key == 0
    then (db, err invalid)
    else guarded db (delete_logged env o coins db key (append_delete db.wal key w))

-- A batch is the list of its entries.
unfoldable pub batch_put : List BatchEntry → Slice → Bytes → List BatchEntry
batch_put b key value = b ++ record { key = clone key; value = value; deleted = false } ∷ []

unfoldable pub batch_delete : List BatchEntry → Slice → List BatchEntry
batch_delete b key = b ++ record { key = clone key; value = []; deleted = true } ∷ []

abbrev pub batch_clear : List BatchEntry → List BatchEntry
batch_clear b = []

-- The loop that applies a batch to the memtable, where `seq` is `first + uint64(i)`.
unfoldable pub apply_batch :
    Memtable.SkipList → (ℕ → ℕ → Bool) → ℕ → List BatchEntry → Memtable.SkipList
apply_batch s coins seq [] = s
apply_batch s coins seq (e ∷ es) =
    let s' =
      if e.deleted then delete s (coins 0) e.key seq else put s (coins 0) e.key e.value seq in
    apply_batch s' (λ i. coins (suc i)) (next seq) es

-- `last := NextSeq() - 1`, where `NextSeq` is one more than the field, and `last - len + 1`.
unfoldable pub first_seq : Log → List BatchEntry → ℕ
first_seq l entries =
    let last = (next l.next_seq + (2 ^ 64 - 1)) % 2 ^ 64 in
    next ((last + (2 ^ 64 - length entries % 2 ^ 64)) % 2 ^ 64)

abbrev pub batch_logged :
    Env → FlushIo → (ℕ → ℕ → Bool) → Db → List BatchEntry → Log × Result Wal.Error ℕ → Outcome
batch_logged env o coins db b (l, err e) = (record db { wal = l }, err (of_wal e))
batch_logged env o coins db b (l, ok last) = flush_if_full env o (record db {
  wal = l;
  mem = record db.mem { sl = apply_batch db.mem.sl coins (first_seq l b) b };
})

unfoldable pub db_write : Env → Io → FlushIo → (ℕ → ℕ → Bool) → Db → List BatchEntry → Outcome
unfolding guarded flush_if_full apply_batch first_seq
db_write env w o coins db b =
    if length b == 0
    then (db, ok tt)
    else guarded db (batch_logged env o coins db b (append_batch db.wal b w))

abbrev pub of_wal_result : Result Wal.Error (Unit {0}) → Result Error (Unit {0})
of_wal_result (ok _) = ok tt
of_wal_result (err e) = err (of_wal e)

abbrev pub with_log : Db → Log × Result Wal.Error (Unit {0}) → Outcome
with_log db (l, r) = (record db { wal = l }, of_wal_result r)

unfoldable pub db_sync : Db → Bool → Outcome
db_sync db sync_fails =
    if db.is_closed then (db, err closed) else with_log db (Log.sync db.wal sync_fails)

unfoldable pub db_flush : Env → FlushIo → Db → Outcome
unfolding guarded flush_locked
db_flush env o db = guarded db (flush_locked env o db)
