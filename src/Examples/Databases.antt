-- ===== src/Examples/Databases.antt =====
-- The database at concrete inputs: an empty one, and one with a single entry.
use go_durable_engine.Prelude.{
  ℕ, zero, suc, ◌+◌, ◌≤◌, ◌<◌, ◌≡◌, refl, ap, ◌⊎◌, inl, inr, Bool, true, false, Bool-cases, none,
  some, List, [], ◌∷◌, arith, length, ◌==◌, if◌then◌else◌, ok, err, Bytes,
}
use go_durable_engine.Bytes.{compare, equal}
use go_durable_engine.Wal
use go_durable_engine.Wal.{type_put}
use go_durable_engine.Wal.Log.{Log, Io, append_put, append_delete}
use go_durable_engine.Memtable.{Entry, new, snapshot}
use go_durable_engine.Memtable.Read.{snapshot_lem}
use go_durable_engine.Memtable.Operations.{new-Represents}
use go_durable_engine.Memtable.Refinement.{entry_put}
use go_durable_engine.Bloom.Built.{AreSizes}
use go_durable_engine.Sstable
use go_durable_engine.Sstable.Writer.{create}
use go_durable_engine.Sstable.Blocks.{room_for}
use go_durable_engine.Sstable.Picked.{IsSearch}
use go_durable_engine.Sstable.Lookup.{Written, get-write_file}
use go_durable_engine.Db.{SyncPolicy, Db, Env, not_found, of_wal}
use go_durable_engine.Db.Read.{db_get}
use go_durable_engine.Db.Write.{FlushIo, db_put, db_delete, flush_locked}
use go_durable_engine.Db.Serving.{table_entries}
use go_durable_engine.Db.Sound.{IsSound}
use go_durable_engine.Db.Kept.{IsLawful, Kept}
use go_durable_engine.Db.Flushing.{flush_locked-Kept}
use go_durable_engine.Db.Writing.{inserted, inserted-IsInserted, inserted-FitsTable}
use go_durable_engine.Db.Puts.{IsWritable, db_put-Ends, db_delete-Ends}

-- A search that tries one index after the other.
unfoldable pub linear_from : ℕ → ℕ → (ℕ → Bool) → ℕ
linear_from zero i p = i
linear_from (suc n) i p = let rest = linear_from n (i + 1) p in if p i then i else rest

abbrev pub linear : ℕ → (ℕ → Bool) → ℕ
linear n p = linear_from n 0 p

linear_from-first :
    (n i : ℕ) (p : ℕ → Bool)
    → (i ≤ linear_from n i p)
      × (linear_from n i p ≤ i + n)
      × ((j : ℕ) → i ≤ j → j < linear_from n i p → p j ≡ false)
      × (linear_from n i p < i + n → p (linear_from n i p) ≡ true)
unfolding linear_from
linear_from-first zero i p =
    (omega arith, omega arith, λ j le lt. absurd (omega arith), λ lt. absurd (omega arith))
linear_from-first (suc n) i p = elim (Bool-cases (p i)) [
  | inl t ↦ rw t (omega arith, omega arith, λ j le lt. absurd (omega arith), λ lt. t)
  | inr f ↦
      let r = linear_from-first n (i + 1) p in
      rw f (
        omega (arith, r.0),
        omega (arith, r.1),
        λ j le lt. elim (Bool-cases (j == i)) [
          | inl e ↦ (let q : j ≡ i = ground arith in rw q f)
          | inr ne ↦ r.2 j (ground arith) lt
        ],
        λ lt. r.3 (omega arith),
      )
]

pub linear-IsSearch : IsSearch linear
linear-IsSearch n p monotone =
    let r = linear_from-first n 0 p in
    (omega (arith, r.1), λ i lt. r.2 i (omega arith) lt, λ lt. r.3 (omega arith))

abbrev pub sizes : ℕ → ℕ × ℕ
sizes n = (64, 3)

pub sizes-AreSizes : AreSizes sizes
sizes-AreSizes n = (omega arith, omega arith, omega arith)

abbrev two : List Sstable.Entry
two =
    record { key = some (1 ∷ []); value = 5 ∷ []; seq = 1; deleted = false }
    ∷ record { key = some (1 ∷ 2 ∷ []); value = []; seq = 2; deleted = true }
    ∷ []

get-write_file_example : Written sizes linear (create 0 0) two
get-write_file_example =
    get-write_file sizes linear 0 0 two sizes-AreSizes linear-IsSearch
      (((unfold compare in refl), tt), (tt, tt)) (refl, (refl, tt))
      ((omega arith, omega arith, omega arith), ((omega arith, omega arith, omega arith), tt))
      (omega arith)

abbrev env : Env
env = record {
  json = record { to_json = λ st. []; of_json = λ b. none };
  format = λ n. n ∷ [];
  sizes = sizes;
  search = linear;
}

env-IsLawful : IsLawful env
env-IsLawful = record { finds = linear-IsSearch; sizes = sizes-AreSizes }

abbrev pub empty_log : Log
empty_log = record {
  file = record { bytes = []; pos = 0 };
  opts = record { sync_every_n = 0; sync_on_write = true };
  appends = 0;
  is_closed = false;
  size = 0;
  next_seq = 0;
  stable = [];
}

abbrev pub empty : Db
empty = record {
  opts = record {
    memtable_bytes = 100;
    sync_policy = SyncPolicy.sync_full;
    sync_every_n = 32;
    compact_threshold = 2;
    read_only = false;
  };
  wal = empty_log;
  mem = record { sl = new; max_bytes = 100 };
  manif = record {
    state = record { version = 1; next_file = 1; log_seq = 0; files = []; updated_at = [] };
    stored = some [];
  };
  tables = [];
  is_closed = false;
  files = λ p. none;
}

empty-IsSound : IsSound linear empty
empty-IsSound = record {
  es = [];
  rep = new-Represents;
  keyed = tt;
  seqs = tt;
  stores = [];
  serve = tt;
  old = λ key. tt;
  newest = λ key e q. tt;
  limit = omega arith;
}

abbrev pub coins : ℕ → Bool
coins k = false

abbrev pub entry : Entry
entry = entry_put (some (7 ∷ [])) (8 ∷ 9 ∷ []) 1

pub empty-room : room_for (table_entries (snapshot new)) ≡ 0
empty-room =
    ap (λ (t : List Entry). room_for (table_entries t)) (snapshot_lem new [] new-Represents)

abbrev one : Db
one = inserted empty (record empty_log { next_seq = 1 }) coins entry

one-IsSound : IsSound linear one
one-IsSound =
    (inserted-IsInserted env empty (record empty_log { next_seq = 1 }) coins entry empty-IsSound
      refl refl (omega arith) (omega arith) (omega arith)).sound

abbrev pub flush_io : FlushIo
flush_io = record {
  now = [];
  alloc_fails = false;
  table_left = none;
  added = [];
  add_fails = false;
  open_fails = true;
  reset = record { truncate_fails = false; seek_fails = false; sync_fails = false };
}

flush_locked-Kept_example : Kept env one (flush_locked env flush_io one).0
flush_locked-Kept_example = flush_locked-Kept env flush_io one env-IsLawful one-IsSound refl (
    inserted-FitsTable linear empty (record empty_log { next_seq = 1 }) coins entry empty-IsSound
      (omega (arith, empty-room)))

abbrev pub clean : Io
clean = record {
  injected = false;
  header_write = record { written = 100; failed = false };
  payload_write = record { written = 100; failed = false };
  sync_fails = false;
}

empty-IsWritable : (value : Bytes) → length value < 100 → IsWritable env empty (7 ∷ []) value
empty-IsWritable value h = record {
  sound = empty-IsSound;
  is_open = refl;
  writes = refl;
  keyed = omega arith;
  number = omega arith;
  room = omega (arith, empty-room);
}

db_put-Ends_example :
    (let r = db_put env clean flush_io coins empty (7 ∷ []) (8 ∷ []) in
      let a = append_put empty_log (7 ∷ []) (8 ∷ []) clean in
      IsSound linear r.0
      × (((x : Wal.Error) × (a.1 ≡ err x)
            × (r.1 ≡ err (of_wal x))
            × ((k : Bytes) → db_get env r.0 k ≡ db_get env empty k))
          ⊎ ((seq : ℕ) × (a.1 ≡ ok seq)
              × ((k : Bytes)
                  → db_get env r.0 k
                    ≡ (if equal (7 ∷ []) k then ok (8 ∷ []) else db_get env empty k)))))
db_put-Ends_example =
    db_put-Ends env clean flush_io coins empty (7 ∷ []) (8 ∷ []) env-IsLawful
      (empty-IsWritable (8 ∷ []) (omega arith))

db_delete-Ends_example :
    (let r = db_delete env clean flush_io coins empty (7 ∷ []) in
      let a = append_delete empty_log (7 ∷ []) clean in
      IsSound linear r.0
      × (((x : Wal.Error) × (a.1 ≡ err x)
            × (r.1 ≡ err (of_wal x))
            × ((k : Bytes) → db_get env r.0 k ≡ db_get env empty k))
          ⊎ ((seq : ℕ) × (a.1 ≡ ok seq)
              × ((k : Bytes)
                  → db_get env r.0 k
                    ≡ (if equal (7 ∷ []) k then err not_found else db_get env empty k)))))
db_delete-Ends_example =
    db_delete-Ends env clean flush_io coins empty (7 ∷ []) env-IsLawful
      (empty-IsWritable [] (omega arith))
