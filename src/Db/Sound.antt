-- ===== src/Db/Sound.antt =====
-- The invariant of an open database: a well-formed memtable over tables that answer, with newer
-- entries over older ones.
use mathlib.Core.Path.{subst}
use mathlib.Core.List.{reverse, reverse-cons, reverse-append}
use go_durable_engine.Prelude.{
  ℕ, ◌≤◌, ◌≡◌, refl, sym, ap, ◌∙◌, inl, inr, Bool, false, Option-cases, Option, none, some, List,
  [], ◌∷◌, ◌++◌, arith, ok, Bytes, IsUint64, All, All-append,
}
use go_durable_engine.Bytes.{content}
use go_durable_engine.Wal.Log.{Log}
use go_durable_engine.Memtable
use go_durable_engine.Memtable.Contents.{find_entry}
use go_durable_engine.Memtable.Invariant.{Represents}
use go_durable_engine.Memtable.Read.{get-find_entry}
use go_durable_engine.Manifest.Store.{Manifest}
use go_durable_engine.Sstable
use go_durable_engine.Sstable.Seeking.{lookup_in}
use go_durable_engine.Db.{Db, Env}
use go_durable_engine.Db.Read.{db_get, table_answer, best_of}
use go_durable_engine.Db.Write.{table_entry}
use go_durable_engine.Sstable.Blocks.{stored}
use go_durable_engine.Db.Serving.{
  AllServe, AllServe-reverse, best_in, scan_tables-best_in, NoneNewer, best_in-stays, table_entries,
  served, lookup_in-table_entries,
}

pub record IsSound (search : ℕ → (ℕ → Bool) → ℕ) (db : Db) : Type 0 where
  pub es : List Memtable.Entry
  pub rep : Represents db.mem.sl es
  pub keyed : All (λ e. e.key ≡ some (content e.key)) es
  pub seqs : All (λ e. e.seq ≤ db.wal.next_seq) es
  pub stores : List (List Sstable.Entry)
  pub serve : AllServe search db.tables stores
  pub old : (key : Bytes) → NoneNewer key db.wal.next_seq stores
  pub newest :
      (key : Bytes) (e : Memtable.Entry) → find_entry key es ≡ some e → NoneNewer key e.seq stores
  pub limit : IsUint64 db.wal.next_seq

-- What does not bear on the reads may change.
pub IsSound-relabel :
    (search : ℕ → (ℕ → Bool) → ℕ) (db : Db) (m : Manifest) (files : Bytes → Option Bytes)
    → IsSound search db
    → IsSound search (record db { manif = m; files = files })
IsSound-relabel search db m files s = record {
  es = s.es;
  rep = s.rep;
  keyed = s.keyed;
  seqs = s.seqs;
  stores = s.stores;
  serve = s.serve;
  old = s.old;
  newest = s.newest;
  limit = s.limit;
}

All-le :
    (n m : ℕ) (es : List Memtable.Entry) → n ≤ m → All (λ e. e.seq ≤ n) es → All (λ e. e.seq ≤ m) es
All-le n m [] le all = tt
All-le n m (e ∷ es) le all = (omega (arith, all.0), All-le n m es le all.1)

pub NoneNewer-le :
    (key : Bytes) (n m : ℕ) (ss : List (List Sstable.Entry))
    → n ≤ m
    → NoneNewer key n ss
    → NoneNewer key m ss
NoneNewer-le key n m [] le all = tt
NoneNewer-le key n m (s ∷ ss) le all =
    (λ f q. omega (arith, all.0 f q), NoneNewer-le key n m ss le all.1)

-- The numbers of the log may go on.
pub IsSound-wal :
    (search : ℕ → (ℕ → Bool) → ℕ) (db : Db) (l : Log)
    → db.wal.next_seq ≤ l.next_seq
    → IsUint64 l.next_seq
    → IsSound search db
    → IsSound search (record db { wal = l })
IsSound-wal search db l le limit s = record {
  es = s.es;
  rep = s.rep;
  keyed = s.keyed;
  seqs = All-le db.wal.next_seq l.next_seq s.es le s.seqs;
  stores = s.stores;
  serve = s.serve;
  old = λ key. NoneNewer-le key db.wal.next_seq l.next_seq s.stores le (s.old key);
  newest = s.newest;
  limit = limit;
}

-- The entry of the memtable over that of the tables.
abbrev pub first_of : Option Sstable.Entry → Option Sstable.Entry → Option Sstable.Entry
first_of (some e) o = some e
first_of none o = o

-- What a key holds in a memtable over tables.
abbrev pub view : Bytes → List Memtable.Entry → List (List Sstable.Entry) → Option Sstable.Entry
view key es stores = first_of (served (find_entry key es)) (best_in key (reverse stores) none)

-- A read of an open database, whose memtable and tables have these entries.
pub db_get-Represents :
    (env : Env) (db : Db) (es : List Memtable.Entry) (stores : List (List Sstable.Entry))
    (key : Bytes)
    → Represents db.mem.sl es
    → AllServe env.search db.tables stores
    → db.is_closed ≡ false
    → db_get env db key ≡ table_answer (ok (view key es stores))
unfolding db_get
db_get-Represents env db es stores key rep serve is_open =
    let g = get-find_entry db.mem.sl es key rep in
    let scan =
      scan_tables-best_in env.search key (reverse db.tables) (reverse stores) none
        (AllServe-reverse env.search db.tables stores serve) in
    rw is_open (elim (Option-cases (find_entry key es)) [
      | inl n ↦ let q = g ∙ n in rw (q, n) (ap table_answer scan)
      | inr (e, f) ↦ let q = g ∙ f in rw (q, f) refl
    ])

-- A read of an open database gives what the key holds.
pub db_get-view :
    (env : Env) (db : Db) (s : IsSound env.search db) (key : Bytes)
    → db.is_closed ≡ false
    → db_get env db key ≡ table_answer (ok (view key s.es s.stores))
db_get-view env db s key is_open = db_get-Represents env db s.es s.stores key s.rep s.serve is_open

All-reverse : {A : Type 0} (P : A → Type 0) (xs : List A) → All P xs → All P (reverse xs)
All-reverse P [] all = tt
All-reverse P (x ∷ xs) all =
    subst (All P) (sym (reverse-cons x xs))
      (All-append P (reverse xs) (x ∷ []) (All-reverse P xs all.1) (all.0, tt))

best_in-newest :
    (key : Bytes) (es : List Memtable.Entry) (rs : List (List Sstable.Entry))
    → best_in key (table_entries es ∷ rs) none ≡ best_in key rs (served (find_entry key es))
unfolding best_in
best_in-newest key es rs =
    ap (best_in key rs)
      (best_of-none (lookup_in key (table_entries es)) ∙ lookup_in-table_entries key es)
  where
    best_of-none : (o : Option Sstable.Entry) → best_of none o ≡ o
    best_of-none none = refl
    best_of-none (some e) = refl

-- A memtable over tables, and the same entries as the newest table under an empty memtable.
pub view-flushed :
    (key : Bytes) (es : List Memtable.Entry) (stores : List (List Sstable.Entry))
    → ((e : Memtable.Entry) → find_entry key es ≡ some e → NoneNewer key e.seq stores)
    → view key [] (stores ++ table_entries es ∷ []) ≡ view key es stores
view-flushed key es stores newest =
    let rs = reverse stores in
    let none_left : find_entry key [] ≡ none = unfold find_entry in refl in
    ap
      (λ (o : Option Memtable.Entry).
        first_of (served o) (best_in key (reverse (stores ++ table_entries es ∷ [])) none))
      none_left
    ∙ ap (λ (t : List (List Sstable.Entry)). best_in key t none)
        (reverse-append stores (table_entries es ∷ []))
    ∙ best_in-newest key es rs
    ∙ elim (Option-cases (find_entry key es)) [
      | inl n ↦ rw n refl
      | inr (e, f) ↦ rw f (
          best_in-stays key rs (stored (table_entry e)) (
            All-reverse (λ s. (x : Sstable.Entry) → lookup_in key s ≡ some x → x.seq ≤ e.seq) stores
              (newest e f)))
    ]

pub IsSound-relabel-es :
    (search : ℕ → (ℕ → Bool) → ℕ) (db : Db) (m : Manifest) (files : Bytes → Option Bytes)
    (s : IsSound search db)
    → (IsSound-relabel search db m files s).es ≡ s.es
unfolding IsSound-relabel
IsSound-relabel-es search db m files s = refl
