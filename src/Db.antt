-- ===== src/Db.antt =====
-- lsmkv: the database over the log, the memtable, the manifest and the tables. Its lock is always
-- free where one call runs after the other. A file of the directory is known by its name, to which
-- `filepath.Join` and `filepath.Base` go; `files` is what the directory holds of tables.
pub mod Write
pub mod Read
pub mod Serving
pub mod Sound
pub mod Kept
pub mod Flushing
pub mod Numbers
pub mod Writing
pub mod Puts
pub mod Syncing
pub mod Open
pub mod Recovery
pub mod Recoverable
pub mod Flushed
pub mod Fresh
use go_durable_engine.Prelude.{
  ℕ, ◌^◌, ◌*◌, Bool, true, false, Option, none, some, List, [], ◌∷◌, length, ◌==◌, if◌then◌else◌,
  Result, ok, err, Bytes,
}
use go_durable_engine.Bytes.{equal}
use go_durable_engine.Wal
use go_durable_engine.Wal.Log
use go_durable_engine.Wal.Log.{Log}
use go_durable_engine.Memtable.{MemTable}
use go_durable_engine.Manifest
use go_durable_engine.Manifest.Codec.{Json}
use go_durable_engine.Manifest.Store.{Manifest}
use go_durable_engine.Sstable
use go_durable_engine.Sstable.Reader
use go_durable_engine.Sstable.Reader.{Reader}

-- The errors of this package, and those that it hands on.
pub data Error : Type 0 where
  closed not_found invalid read_only io cancelled locked : Error
  of_wal : Wal.Error → Error
  of_manifest : Manifest.Error → Error
  of_table : Sstable.Error → Error

pub data SyncPolicy : Type 0 where
  sync_full sync_batch sync_none : SyncPolicy

-- A number that is not positive is 0 here.
pub record Options : Type 0 where
  pub memtable_bytes : ℕ
  pub sync_policy : SyncPolicy
  pub sync_every_n : ℕ
  pub compact_threshold : ℕ
  pub read_only : Bool

abbrev positive_or : ℕ → ℕ → ℕ
positive_or n default = if n == 0 then default else n

unfoldable pub normalize : Option Options → Options
normalize none = record {
  memtable_bytes = 4 * 2 ^ 20;
  sync_policy = SyncPolicy.sync_full;
  sync_every_n = 32;
  compact_threshold = 2;
  read_only = false;
}
normalize (some o) = record {
  memtable_bytes = positive_or o.memtable_bytes (4 * 2 ^ 20);
  sync_policy = o.sync_policy;
  sync_every_n = positive_or o.sync_every_n 32;
  compact_threshold = positive_or o.compact_threshold 2;
  read_only = o.read_only;
}

unfoldable pub wal_opts : Options → Log.Options
wal_opts o = elim o.sync_policy [
  | SyncPolicy.sync_none ↦ record { sync_every_n = 0; sync_on_write = false }
  | SyncPolicy.sync_batch ↦ record { sync_every_n = o.sync_every_n; sync_on_write = false }
  | SyncPolicy.sync_full ↦ record { sync_every_n = 0; sync_on_write = true }
]

-- An open table: its file descriptor is gone after `Close`.
pub record Table : Type 0 where
  pub path : Bytes
  pub reader : Reader
  pub is_closed : Bool

pub record Db : Type 0 where
  pub opts : Options
  pub wal : Log
  pub mem : MemTable
  pub manif : Manifest
  pub tables : List Table
  pub is_closed : Bool
  pub files : Bytes → Option Bytes

-- What the code uses of other packages: JSON, the printing of a file's number, the sizes of a Bloom
-- filter and `sort.Search`.
pub record Env : Type 0 where
  pub json : Json
  pub format : ℕ → Bytes
  pub sizes : ℕ → ℕ × ℕ
  pub search : ℕ → (ℕ → Bool) → ℕ

-- The directory after a file was written, and after one was removed.
abbrev pub write_path : (Bytes → Option Bytes) → Bytes → Bytes → Bytes → Option Bytes
write_path files path content p = if equal p path then some content else files p

abbrev pub remove_path : (Bytes → Option Bytes) → Bytes → Bytes → Option Bytes
remove_path files path p = if equal p path then none else files p
