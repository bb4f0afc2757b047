-- ===== src/Examples/Restarts.antt =====
-- Restarts of a small database, with a stand-in for JSON that reads back every state.
use go_durable_engine.Manifest.Store.{Manifest, open_manifest}
use go_durable_engine.Prelude.{
  ◌≤◌, All, ℕ, zero, suc, ◌==◌, ◌≡◌, err, refl, Bool, true, false, Option, none, some, List, [],
  ◌∷◌, ◌++◌, arith, length, ltb, take, drop, take-append, drop-append, ok, Bytes,
}
use go_durable_engine.Bytes.Endian.{le_value}
use go_durable_engine.Wal.{type_put}
use go_durable_engine.Wal.Encode.{encode_kv}
use go_durable_engine.Wal.Torn.{short}
use go_durable_engine.Wal.Log.{Log, append_put}
use go_durable_engine.Wal.Log.Appends.{Holds, IsClean}
use go_durable_engine.Wal.Log.Adding.{length-encode_kv, kv_frame, append_put-Holds}
use go_durable_engine.Memtable.{Entry, new, snapshot, put, set_entry, should_flush}
use go_durable_engine.Memtable.Contents.{insert_entry}
use go_durable_engine.Memtable.Read.{snapshot_lem}
use go_durable_engine.Memtable.Operations.{new-Represents, set_entry-insert_entry}
use go_durable_engine.Memtable.Refinement.{entry_put}
use go_durable_engine.Manifest.{FileMeta, State}
use go_durable_engine.Manifest.Codec.{Json, has_magic, decode}
use go_durable_engine.Db.{Db, Env}
use go_durable_engine.Db.Read.{db_get}
use go_durable_engine.Db.Write.{FlushIo, db_put, flush_locked}
use go_durable_engine.Db.Open.{OpenIo, open_tables, open_context}
use go_durable_engine.Db.Sound.{IsSound}
use go_durable_engine.Db.Kept.{IsLawful}
use go_durable_engine.Db.Writing.{inserted, inserted-IsInserted}
use go_durable_engine.Db.Recovery.{IsRecoverable, open_context-reads}
use go_durable_engine.Wal.Log.Calls.{decode_frame-put, put_record}
use go_durable_engine.Db.Recoverable.{put-replayed, db_put-IsRecoverable}
use go_durable_engine.Db.{wal_opts}
use go_durable_engine.Db.Puts.{IsWritable}
use go_durable_engine.Db.Syncing.{IsSynced, db_put-IsSynced}
use go_durable_engine.Db.Fresh.{open_context-nothing}
use go_durable_engine.Db.{not_found}
use go_durable_engine.Db.Flushed.{IsReadBack, flush_locked-IsRecoverable}
use go_durable_engine.Examples.Databases.{
  linear, linear-IsSearch, sizes, sizes-AreSizes, empty_log, coins, clean, flush_io, empty,
  empty-room,
}

-- A list behind its length.
abbrev block : Bytes → Bytes → Bytes
block b rest = length b ∷ (b ++ rest)

get_block : Bytes → Option (Bytes × Bytes)
get_block [] = none
get_block (n ∷ rest) = some (take n rest, drop n rest)

get_block-block : (b rest : Bytes) → get_block (block b rest) ≡ some (b, rest)
unfolding get_block
get_block-block b rest = rw (take-append b rest, drop-append b rest) refl

put_meta : FileMeta → Bytes → Bytes
put_meta f rest =
    f.level
    ∷ f.max_seq
    ∷ f.entries
    ∷ f.file_size
    ∷ block f.name (block f.min_key (block f.max_key rest))

get_meta : Bytes → Option (FileMeta × Bytes)
get_meta (level ∷ max_seq ∷ entries ∷ file_size ∷ rest) = elim (get_block rest) [
  | none ↦ none
  | some (name, r1) ↦ elim (get_block r1) [
    | none ↦ none
    | some (min_key, r2) ↦ elim (get_block r2) [
      | none ↦ none
      | some (max_key, r3) ↦ some (
        record {
          name = name;
          level = level;
          min_key = min_key;
          max_key = max_key;
          max_seq = max_seq;
          entries = entries;
          file_size = file_size;
        },
        r3,
      )
    ]
  ]
]
get_meta _ = none

get_meta-put_meta : (f : FileMeta) (rest : Bytes) → get_meta (put_meta f rest) ≡ some (f, rest)
unfolding get_meta put_meta
get_meta-put_meta f rest =
    rw (get_block-block f.name (block f.min_key (block f.max_key rest)), get_meta)
      (rw (get_block-block f.min_key (block f.max_key rest), get_meta)
        (rw (get_block-block f.max_key rest, get_meta) refl))

put_metas : List FileMeta → Bytes
unfolding put_meta
put_metas [] = []
put_metas (f ∷ fs) = put_meta f (put_metas fs)

get_metas : ℕ → Bytes → Option (List FileMeta)
unfolding get_meta
get_metas zero b = some []
get_metas (suc n) b = elim (get_meta b) [
  | none ↦ none
  | some (f, rest) ↦ elim (get_metas n rest) [ none ↦ none | some fs ↦ some (f ∷ fs) ]
]

get_metas-put_metas : (fs : List FileMeta) → get_metas (length fs) (put_metas fs) ≡ some fs
unfolding get_metas put_metas
get_metas-put_metas [] = refl
get_metas-put_metas (f ∷ fs) =
    rw (get_meta-put_meta f (put_metas fs), get_metas) (rw (get_metas-put_metas fs) refl)

text : State → Bytes
unfolding put_metas
text st =
    0
    ∷ 0
    ∷ 0
    ∷ 0
    ∷ st.version
    ∷ st.next_file
    ∷ st.log_seq
    ∷ block st.updated_at (length st.files ∷ put_metas st.files)

parse_files : ℕ → ℕ → ℕ → Bytes → Bytes → Option State
unfolding get_metas
parse_files version next_file log_seq now [] = none
parse_files version next_file log_seq now (n ∷ rest) = elim (get_metas n rest) [
  | none ↦ none
  | some fs ↦ some (record {
    version = version;
    next_file = next_file;
    log_seq = log_seq;
    files = fs;
    updated_at = now;
  })
]

parse : Bytes → Option State
unfolding parse_files
parse (a ∷ b ∷ c ∷ d ∷ version ∷ next_file ∷ log_seq ∷ rest) = elim (get_block rest) [
  | none ↦ none
  | some (now, r) ↦ parse_files version next_file log_seq now r
]
parse _ = none

parse-text : (st : State) → parse (text st) ≡ some st
unfolding parse text parse_files
parse-text st =
    rw (get_block-block st.updated_at (length st.files ∷ put_metas st.files), parse)
      (rw (get_metas-put_metas st.files, parse_files) refl)

text-has_magic : (st : State) → has_magic (text st) ≡ false
unfolding text le_value
text-has_magic st = (let t : ltb (length (text st)) 4 ≡ false = ground arith in rw t refl)

abbrev json : Json
json = record { to_json = text; of_json = parse }

json-IsReadBack : (st : State) → IsReadBack json st
json-IsReadBack st = (parse-text st, text-has_magic st)

abbrev env : Env
env = record { json = json; format = λ n. n ∷ []; sizes = sizes; search = linear }

env-IsLawful : IsLawful env
env-IsLawful = record { finds = linear-IsSearch; sizes = sizes-AreSizes }

abbrev start : Db
start = record empty {
  manif = record { state = empty.manif.state; stored = some (text empty.manif.state) };
}

start-IsSound : IsSound linear start
start-IsSound = record {
  es = [];
  rep = new-Represents;
  keyed = tt;
  seqs = tt;
  stores = [];
  serve = tt;
  old = λ key. tt;
  newest = λ key e q. tt;
  limit = omega arith;
}

empty_log-Holds : Holds empty_log []
empty_log-Holds = record {
  bytes = refl;
  size = refl;
  frames = tt;
  seqs = omega arith;
  is_open = refl;
}

open-text :
    (st : State) (now : Bytes) (fails : Bool)
    → (st.version == 0) ≡ false
    → open_manifest json now fails (some (text st))
      ≡ ok (record { state = st; stored = some (text st) })
unfolding open_manifest decode
open-text st now fails h = rw (text-has_magic st, parse-text st, h) refl

start-IsRecoverable : IsRecoverable env start
start-IsRecoverable = record {
  frames = [];
  holds = empty_log-Holds;
  decodes = tt;
  contents = new-Represents;
  manifest = λ now fails. (
    record { state = start.manif.state; stored = start.manif.stored },
    open-text start.manif.state now fails refl,
    refl,
  );
  tables = unfold open_tables in refl;
}

abbrev open_io : OpenIo
open_io = record {
  dir_given = true;
  mkdir_fails = false;
  is_locked = false;
  now = [];
  persist_fails = false;
}

open_context-reads_example :
    (db : Db) × (open_context env open_io
        (λ k. false)
        (λ i. coins)
        none
        (record { manifest = some (text empty.manif.state); wal = 1 ∷ 2 ∷ []; files = λ p. none })
      ≡ ok db)
    × ((key : Bytes) → db_get env db key ≡ db_get env start key)
    × IsRecoverable env db
    × (m : Manifest) × (open_manifest json [] false (some (text empty.manif.state)) ≡ ok m)
    × (m.state.log_seq ≤ db.wal.next_seq)
    × All (λ f. f.max_seq ≤ db.wal.next_seq) m.state.files
open_context-reads_example =
    open_context-reads env start (1 ∷ 2 ∷ []) open_io (λ k. false) (λ i. coins) none start-IsSound
      start-IsRecoverable refl (short (omega arith))
      (record { running = λ k. refl; named = refl; made = refl; free = refl })

open_context-nothing_example :
    (db : Db) × (open_context env open_io
        (λ k. false)
        (λ i. coins)
        none
        (record { manifest = none; wal = []; files = λ p. none })
      ≡ ok db)
    × IsSound linear db
    × IsRecoverable env db
    × ((k : Bytes) → db_get env db k ≡ err not_found)
open_context-nothing_example =
    open_context-nothing env open_io (λ k. false) (λ i. coins) none (json-IsReadBack _)
      (record { running = λ k. refl; named = refl; made = refl; free = refl }) refl

abbrev key : Bytes
key = 7 ∷ []

abbrev value : Bytes
value = 8 ∷ []

clean-IsClean : IsClean clean (encode_kv 1 key value)
clean-IsClean = record {
  not_injected = refl;
  header_full = (omega arith, refl);
  payload_full = (omega (arith, length-encode_kv 1 key value (omega arith) (omega arith)), refl);
  synced = refl;
}

still_small :
    should_flush (record start.mem { sl = put start.mem.sl coins (some key) value 1 }) ≡ false
unfolding should_flush put new
still_small = refl

start-IsWritable : IsWritable env start key value
start-IsWritable = record {
  sound = start-IsSound;
  is_open = refl;
  writes = refl;
  keyed = omega arith;
  number = omega arith;
  room = omega (arith, empty-room);
}

db_put-IsRecoverable_example :
    ((db_put env clean flush_io coins start key value).1 ≡ ok tt)
    × IsRecoverable env (db_put env clean flush_io coins start key value).0
db_put-IsRecoverable_example =
    db_put-IsRecoverable env clean flush_io coins start key value start-IsWritable
      start-IsRecoverable (omega arith) clean-IsClean still_small

-- The database behind this put, with the log that the append leaves.
abbrev log : Log
log = (append_put empty_log key value clean).0

abbrev entry : Entry
entry = entry_put (some key) value 1

abbrev one : Db
one = inserted start log coins entry

log-Holds :
    ((append_put empty_log key value clean).1 ≡ ok 1)
    × (log.next_seq ≡ 1)
    × Holds log (kv_frame type_put 1 key value ∷ [])
log-Holds =
    append_put-Holds empty_log [] key value clean empty_log-Holds (omega arith) (omega arith)
      clean-IsClean

db_put-IsSynced_example : IsSynced (db_put env clean flush_io coins start key value).0.wal
db_put-IsSynced_example =
    db_put-IsSynced env clean flush_io coins start key value 1 start-IsWritable
      (unfold wal_opts in refl) refl log-Holds.0

one-IsSound : IsSound linear one
one-IsSound =
    (inserted-IsInserted env start log coins entry start-IsSound refl refl (omega arith)
      (omega (arith, log-Holds.1)) (omega (arith, log-Holds.1))).sound

one-snapshot : snapshot one.mem.sl ≡ entry ∷ []
one-snapshot =
    snapshot_lem (set_entry new coins entry) (entry ∷ [])
      (unfold insert_entry in set_entry-insert_entry new coins entry [] new-Represents)

one-IsRecoverable : IsRecoverable env one
one-IsRecoverable = record {
  frames = kv_frame type_put 1 key value ∷ [];
  holds = log-Holds.2;
  decodes =
      ((put_record 1 key value ∷ [], decode_frame-put 1 key value (omega arith) (omega arith)), tt);
  contents =
      unfold put in
      put-replayed start [] coins 1 key value new-Represents (omega arith) (omega arith)
        (omega arith);
  manifest = start-IsRecoverable.manifest;
  tables = start-IsRecoverable.tables;
}

abbrev flush_clean : FlushIo
flush_clean = record flush_io { open_fails = false }

flush_locked-IsRecoverable_example :
    ((flush_locked env flush_clean one).1 ≡ ok tt)
    × ((flush_locked env flush_clean one).0.wal.file.bytes ≡ [])
    × IsRecoverable env (flush_locked env flush_clean one).0
flush_locked-IsRecoverable_example =
    flush_locked-IsRecoverable env flush_clean one entry [] env-IsLawful (json-IsReadBack _)
      one-IsSound one-IsRecoverable one-snapshot (omega arith) tt
      (record {
        allocated = refl;
        whole = refl;
        added = refl;
        opened = refl;
        truncated = refl;
        sought = refl;
        synced = refl;
      })
