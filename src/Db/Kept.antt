-- ===== src/Db/Kept.antt =====
-- What keeps every read of the database, and what a flush writes of the memtable.
use go_durable_engine.Prelude.{
  ℕ, ◌^◌, ◌≤◌, ◌<◌, ◌≡◌, refl, ap, ◌∙◌, inl, inr, Bool-cases, Option, none, some, List, [], ◌∷◌,
  arith, Bytes, IsUint64, All,
}
use go_durable_engine.Bytes.{content, equal}
use go_durable_engine.Wal.Log.{Log}
use go_durable_engine.Memtable
use go_durable_engine.Memtable.{clear, snapshot}
use go_durable_engine.Memtable.Contents.{find_entry}
use go_durable_engine.Bloom.Built.{AreSizes}
use go_durable_engine.Manifest.Store.{Manifest}
use go_durable_engine.Sstable
use go_durable_engine.Sstable.{Meta}
use go_durable_engine.Sstable.Blocks.{IsStorable, room_for}
use go_durable_engine.Sstable.Seeking.{lookup_in}
use go_durable_engine.Sstable.Picked.{IsSearch}
use go_durable_engine.Sstable.Taken.{HasKey}
use go_durable_engine.Db.{Db, Env}
use go_durable_engine.Db.Read.{db_get}
use go_durable_engine.Db.Serving.{table_entries}
use go_durable_engine.Db.Sound.{IsSound, IsSound-relabel, IsSound-wal}

-- What is assumed of the parameters: the documented law of `sort.Search`, and sizes that fit.
pub record IsLawful (env : Env) : Type 0 where
  pub finds : IsSearch env.search
  pub sizes : AreSizes env.sizes

-- The reads are as they were, and the database is in order.
pub record Kept (env : Env) (db db' : Db) : Type 0 where
  pub sound : IsSound env.search db'
  pub reads : (key : Bytes) → db_get env db' key ≡ db_get env db key
  pub still : db'.is_closed ≡ db.is_closed
  pub opts : db'.opts ≡ db.opts

pub Kept-trans : (env : Env) (a b c : Db) → Kept env a b → Kept env b c → Kept env a c
Kept-trans env a b c k l = record {
  sound = l.sound;
  reads = λ key. l.reads key ∙ k.reads key;
  still = l.still ∙ k.still;
  opts = l.opts ∙ k.opts;
}

pub Kept-refl : (env : Env) (db : Db) → IsSound env.search db → Kept env db db
Kept-refl env db s = record { sound = s; reads = λ key. refl; still = refl; opts = refl }

pub Kept-relabel :
    (env : Env) (db : Db) (m : Manifest) (files : Bytes → Option Bytes)
    → IsSound env.search db
    → Kept env db (record db { manif = m; files = files })
Kept-relabel env db m files s = record {
  sound = IsSound-relabel env.search db m files s;
  reads = λ key. (unfold db_get in refl);
  still = refl;
  opts = refl;
}

pub Kept-wal :
    (env : Env) (db : Db) (l : Log)
    → db.wal.next_seq ≤ l.next_seq
    → IsUint64 l.next_seq
    → IsSound env.search db
    → Kept env db (record db { wal = l })
Kept-wal env db l le limit s = record {
  sound = IsSound-wal env.search db l le limit s;
  reads = λ key. (unfold db_get in refl);
  still = refl;
  opts = refl;
}

-- What a flush writes fits a table.
abbrev pub FitsTable : List Memtable.Entry → Type 0
FitsTable es = room_for (table_entries es) < 2 ^ 32

pub table_entries-HasKey :
    (es : List Memtable.Entry)
    → All (λ e. e.key ≡ some (content e.key)) es
    → All HasKey (table_entries es)
table_entries-HasKey [] all = tt
table_entries-HasKey (e ∷ es) all = (all.0, table_entries-HasKey es all.1)

pub table_entries-IsStorable :
    (es : List Memtable.Entry) (n : ℕ)
    → IsUint64 n
    → All (λ e. e.seq ≤ n) es
    → FitsTable es
    → All IsStorable (table_entries es)
table_entries-IsStorable [] n limit all fits = tt
table_entries-IsStorable (e ∷ es) n limit all fits = (
  (omega (arith, all.0), omega (arith, fits), omega (arith, fits)),
  table_entries-IsStorable es n limit all.1 (omega (arith, fits)),
)

abbrev seq_or : Option Sstable.Entry → ℕ
seq_or none = 0
seq_or (some f) = f.seq

seq_or-lookup_in :
    (key : Bytes) (es : List Memtable.Entry) (n : ℕ)
    → All (λ e. e.seq ≤ n) es
    → seq_or (lookup_in key (table_entries es)) ≤ n
unfolding lookup_in
seq_or-lookup_in key [] n all = omega arith
seq_or-lookup_in key (e ∷ es) n all = elim (Bool-cases (equal (content e.key) key)) [
  | inl t ↦ rw t all.0
  | inr f ↦ rw f (seq_or-lookup_in key es n all.1)
]

pub lookup_in-seq :
    (key : Bytes) (es : List Memtable.Entry) (n : ℕ) (f : Sstable.Entry)
    → All (λ e. e.seq ≤ n) es
    → lookup_in key (table_entries es) ≡ some f
    → f.seq ≤ n
lookup_in-seq key es n f all q = omega (arith, ap seq_or q, seq_or-lookup_in key es n all)

pub nothing-found : (key : Bytes) (e : Memtable.Entry) → find_entry key [] ≡ some e → ⊥
unfolding find_entry
nothing-found key e q = cc
