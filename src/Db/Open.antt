-- ===== src/Db/Open.antt =====
-- Opening and closing: lsmkv/open.go. The effects of an opening that fails, on the directory and on
-- the lock, are left out; a database that is not returned cannot be used.
use go_durable_engine.Prelude.{
  ℕ, ◌+◌, Bool, true, false, not, ◌&&◌, Option, none, some, List, [], ◌∷◌, ltb, if◌then◌else◌,
  Result, ok, err, ◌>>=◌, Bytes,
}
use go_durable_engine.Wal
use go_durable_engine.Wal.{Record}
use go_durable_engine.Wal.Log
use go_durable_engine.Wal.Log.{Log, open_log, set_next_seq, replay_context}
use go_durable_engine.Memtable.{SkipList, put, delete, new_mem_table}
use go_durable_engine.Manifest
use go_durable_engine.Manifest.{FileMeta}
use go_durable_engine.Manifest.Store.{Manifest, open_manifest, max_seq_among_files}
use go_durable_engine.Db.{
  Error, invalid, cancelled, locked, io, of_wal, of_manifest, Options, normalize, wal_opts, Table,
  Db, Env,
}
use go_durable_engine.Db.Write.{FlushIo, Outcome, opened_file, flush_locked, of_wal_result}

-- What a restart finds: the manifest, the log and the tables.
pub record Disk : Type 0 where
  pub manifest : Option Bytes
  pub wal : Bytes
  pub files : Bytes → Option Bytes

-- What happens in one opening; `dir_given` is `dir != ""`.
pub record OpenIo : Type 0 where
  pub dir_given : Bool
  pub mkdir_fails : Bool
  pub is_locked : Bool
  pub now : Bytes
  pub persist_fails : Bool

abbrev pub opened_table : Bytes → Option Bytes → Result Error Table
opened_table name none = err io
opened_table name (some content) = do
  r ← opened_file false content
  ok (record { path = name; reader = r; is_closed = false })

unfoldable pub open_tables : (Bytes → Option Bytes) → List FileMeta → Result Error (List Table)
open_tables files [] = ok []
open_tables files (f ∷ fs) = do
  t ← opened_table f.name (files f.name)
  ts ← open_tables files fs
  ok (t ∷ ts)

-- The callback of the replay, with the number of records that were replayed; `coins i` is what is
-- drawn for the `i`-th.
unfoldable pub replay_record :
    (ℕ → ℕ → Bool) → SkipList × ℕ → Record → Result Wal.Error (SkipList × ℕ)
replay_record coins (s, i) r = ok (
  if r.deleted then delete s (coins i) r.key r.seq else put s (coins i) r.key r.value r.seq,
  i + 1,
)

-- `max(manifest files, wal recovered)`.
unfoldable pub recovered_seq : Manifest → ℕ
recovered_seq m =
    let max_seq = max_seq_among_files m in
    if ltb max_seq m.state.log_seq then m.state.log_seq else max_seq

abbrev pub of_manifest_result : Result Manifest.Error Manifest → Result Error Manifest
of_manifest_result (ok m) = ok m
of_manifest_result (err e) = err (of_manifest e)

abbrev pub of_log_result : Result Wal.Error Log → Result Error Log
of_log_result (ok l) = ok l
of_log_result (err e) = err (of_wal e)

abbrev pub replayed_into : Db → Log × Result Wal.Error (SkipList × ℕ) → Result Error Db
replayed_into db (l, err e) = err (of_wal e)
replayed_into db (l, ok (s, i)) = ok (record db { wal = l; mem = record db.mem { sl = s } })

-- `replayWALContext`, where `ctx 0` was asked for before.
unfoldable pub replay_wal_context : (ℕ → Bool) → (ℕ → ℕ → Bool) → Db → Result Error Db
unfolding replay_record
replay_wal_context ctx coins db =
    replayed_into db (replay_context db.wal (λ k. ctx (k + 1)) (replay_record coins) (db.mem.sl, 0))

unfoldable pub open_parts :
    Env → OpenIo → (ℕ → Bool) → (ℕ → ℕ → Bool) → Options → Disk → Result Error Db
unfolding open_tables recovered_seq replay_wal_context
open_parts env o ctx coins opts disk = do
  m ← of_manifest_result (open_manifest env.json o.now o.persist_fails disk.manifest)
  l ← of_log_result (open_log disk.wal (wal_opts opts))
  ts ← open_tables disk.files m.state.files
  replay_wal_context ctx coins (record {
    opts = opts;
    wal = set_next_seq l (recovered_seq m);
    mem = new_mem_table opts.memtable_bytes;
    manif = m;
    tables = ts;
    is_closed = false;
    files = disk.files;
  })

unfoldable pub open_context :
    Env → OpenIo → (ℕ → Bool) → (ℕ → ℕ → Bool) → Option Options → Disk → Result Error Db
unfolding normalize open_parts
open_context env o ctx coins opts disk =
    if ctx 0
    then err cancelled
    else if not o.dir_given
    then err invalid
    else if o.mkdir_fails
    then err io
    else if o.is_locked
    then err locked
    else open_parts env o ctx coins (normalize opts) disk

-- What happens in one closing.
pub record CloseIo : Type 0 where
  pub flush : FlushIo
  pub wal_sync_fails : Bool
  pub wal_close_fails : Bool
  pub table_fails : Table → Bool
  pub lock_fails : Bool

-- `if err := ...; err != nil && first == nil { first = err }`.
abbrev pub keep_first : Result Error (Unit {0}) → Result Error (Unit {0}) → Result Error (Unit {0})
keep_first (ok _) r = r
keep_first (err e) r = err e

abbrev pub failing : Bool → Result Error (Unit {0})
failing fails = if fails then err io else ok tt

-- The loop that closes the tables.
unfoldable pub close_tables :
    (Table → Bool) → List Table → Result Error (Unit {0}) → List Table × Result Error (Unit {0})
close_tables fails [] first = ([], first)
close_tables fails (t ∷ ts) first =
    let (ts', r) =
      close_tables fails ts (keep_first first (failing (not t.is_closed && fails t))) in
    (record t { is_closed = true } ∷ ts', r)

unfoldable pub close_unlocked : Env → CloseIo → Db → Outcome
unfolding close_tables
close_unlocked env o db =
    if db.is_closed
    then (db, ok tt)
    else let db0 : Db = record db { is_closed = true } in
      let (db1, r1) =
        if not db0.opts.read_only && ltb 0 db0.mem.sl.size
        then flush_locked env o.flush db0
        else (db0, ok tt) in
      let (l, r2) = Log.close db1.wal o.wal_sync_fails o.wal_close_fails in
      let (ts, r3) = close_tables o.table_fails db1.tables (keep_first r1 (of_wal_result r2)) in
      (record db1 { wal = l; tables = ts }, keep_first r3 (failing o.lock_fails))
