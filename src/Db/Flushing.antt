-- ===== src/Db/Flushing.antt =====
-- Whatever happens in a flush, no read of the database changes.
use mathlib.Core.Path.{subst}
use go_durable_engine.Prelude.{
  ℕ, ◌≤◌, ◌≡◌, refl, sym, ap, ◌∙◌, inl, inr, Bool, true, false, Bool-cases, Option, none, some,
  List, [], ◌∷◌, ◌++◌, arith, map, ltb, if◌then◌else◌, Result, ok, err, Bytes, IsUint64, All,
  All-append,
}
use go_durable_engine.Bytes.{Slice, content}
use go_durable_engine.Wal
use go_durable_engine.Wal.Log.{Log, ResetIo, reset, set_next_seq}
use go_durable_engine.Memtable
use go_durable_engine.Memtable.{clear, snapshot}
use go_durable_engine.Memtable.Contents.{IsAscending}
use go_durable_engine.Memtable.Read.{snapshot_lem}
use go_durable_engine.Memtable.Operations.{clear-Represents}
use go_durable_engine.Manifest
use go_durable_engine.Manifest.Store.{Manifest, alloc_file_name, add_file}
use go_durable_engine.Sstable
use go_durable_engine.Sstable.{Meta}
use go_durable_engine.Sstable.Writer.{create, write_file}
use go_durable_engine.Sstable.Reader.{Reader, open_table}
use go_durable_engine.Sstable.Seeking.{lookup_in}
use go_durable_engine.Sstable.Lookup.{Written, get-write_file}
use go_durable_engine.Db.{Db, Env, Table, remove_path, write_path}
use go_durable_engine.Db.Read.{table_answer}
use go_durable_engine.Db.Write.{
  FlushIo, table_entry, max_seq_of, key_range, file_meta, flush_reset, flush_opened, opened_file,
  flush_added, flush_written, flush_named, flush_entries, flush_locked,
}
use go_durable_engine.Db.Serving.{AllServe-snoc, table_entries, AreAscending-table_entries}
use go_durable_engine.Db.Sound.{
  IsSound, IsSound-relabel, IsSound-relabel-es, db_get-view, view-flushed,
}
use go_durable_engine.Db.Kept.{
  IsLawful, Kept, Kept-trans, Kept-relabel, Kept-wal, FitsTable, table_entries-HasKey,
  table_entries-IsStorable, lookup_in-seq, nothing-found,
}

-- The memtable's entries are in a table that was opened, and the memtable is empty.
flushed-Kept :
    (env : Env) (db : Db) (s : IsSound env.search db) (name : Bytes) (r : Reader)
    → db.is_closed ≡ false
    → ((key : Bytes)
        → Sstable.Reader.get env.search r key ≡ ok (lookup_in key (table_entries s.es)))
    → Kept env db (record db {
      tables = db.tables ++ record { path = name; reader = r; is_closed = false } ∷ [];
      mem = record db.mem { sl = clear db.mem.sl };
    })
flushed-Kept env db s name r is_open gets =
    let t : Table = record { path = name; reader = r; is_closed = false } in
    let db' : Db = record db {
      tables = db.tables ++ t ∷ [];
      mem = record db.mem { sl = clear db.mem.sl };
    } in
    let stores = s.stores ++ table_entries s.es ∷ [] in
    let s' : IsSound env.search db' = record {
      es = [];
      rep = clear-Represents db.mem.sl;
      keyed = tt;
      seqs = tt;
      stores = stores;
      serve =
          AllServe-snoc env.search db.tables s.stores t (table_entries s.es) s.serve (refl, gets);
      old = λ key.
          All-append _ s.stores (table_entries s.es ∷ []) (s.old key)
            (λ f q. lookup_in-seq key s.es db.wal.next_seq f s.seqs q, tt);
      newest = λ key e q. absurd (nothing-found key e q);
      limit = s.limit;
    } in
    record {
      sound = s';
      reads = λ key.
          db_get-view env db' s' key is_open
          ∙ ap (λ (o : Option Sstable.Entry). table_answer (ok o))
              (view-flushed key s.es s.stores (s.newest key))
          ∙ sym (db_get-view env db s key is_open);
      still = refl;
      opts = refl;
    }

reset-next_seq : (l : Log) (o : ResetIo) → (reset l o).0.next_seq ≡ l.next_seq
unfolding reset
reset-next_seq l o = elim (Bool-cases l.is_closed) [
  | inl t ↦ rw t refl
  | inr f ↦ rw f (elim (Bool-cases o.truncate_fails) [
    | inl t' ↦ rw t' refl
    | inr f' ↦ rw f' (elim (Bool-cases o.seek_fails) [ inl u ↦ rw u refl | inr u ↦ rw u refl ])
  ])
]

pub set_next_seq-next_seq :
    (l : Log) (n : ℕ)
    → IsUint64 l.next_seq
    → IsUint64 n
    → (l.next_seq ≤ (set_next_seq l n).next_seq) × IsUint64 (set_next_seq l n).next_seq
unfolding set_next_seq
set_next_seq-next_seq l n h g = elim (Bool-cases (ltb l.next_seq n)) [
  | inl t ↦ rw t (ground arith, g)
  | inr f ↦ rw f (omega arith, h)
]

flush_reset-Kept :
    (env : Env) (db : Db) (n : ℕ) (r : Log × Result Wal.Error (Unit {0}))
    → IsSound env.search db
    → IsUint64 n
    → r.0.next_seq ≡ db.wal.next_seq
    → Kept env db (flush_reset db n r).0
flush_reset-Kept env db n (l, err e) s h q =
    Kept-wal env db l (omega (arith, q)) (omega (arith, q, s.limit)) s
flush_reset-Kept env db n (l, ok u) s h q =
    let z = set_next_seq-next_seq l n (omega (arith, q, s.limit)) h in
    Kept-wal env db (set_next_seq l n) (omega (arith, q, z.0)) z.1 s

-- A reader of a table with these entries.
abbrev Answers : Env → Reader → List Memtable.Entry → Type 0
Answers env r es =
    (key : Bytes) → Sstable.Reader.get env.search r key ≡ ok (lookup_in key (table_entries es))

Answers-same :
    (env : Env) (r : Reader) (es es' : List Memtable.Entry)
    → es' ≡ es
    → Answers env r es
    → Answers env r es'
Answers-same env r es es' q gets =
    λ key. gets key ∙ ap (λ (x : List Memtable.Entry). ok (lookup_in key (table_entries x))) (sym q)

module _ (env : Env) (o : FlushIo) (es : List Memtable.Entry) (n : ℕ) (small : IsUint64 n) where
  -- The steps behind the writing of the table, on a database whose memtable it holds.
  flush_opened-Kept :
      (db : Db) (s : IsSound env.search db) (name file : Bytes) (fails : Bool) (r : Reader)
      → s.es ≡ es
      → db.is_closed ≡ false
      → open_table file ≡ ok r
      → Answers env r es
      → Kept env db (flush_opened o db n name (opened_file fails file)).0
  flush_opened-Kept db s name file true r q is_open opened gets =
      Kept-relabel env db db.manif db.files s
  flush_opened-Kept db s name file false r q is_open opened gets =
      let k = flushed-Kept env db s name r is_open (Answers-same env r es s.es q gets) in
      let db1 : Db = record db {
        tables = db.tables ++ record { path = name; reader = r; is_closed = false } ∷ [];
        mem = record db.mem { sl = clear db.mem.sl };
      } in
      rw opened (
        Kept-trans env db db1 _ k (
          flush_reset-Kept env db1 n (reset db.wal o.reset) k.sound small
            (reset-next_seq db.wal o.reset)))

  flush_added-Kept :
      (db : Db) (s : IsSound env.search db) (name file : Bytes) (r : Reader)
      (a : Manifest × Result Manifest.Error (Unit {0}))
      → s.es ≡ es
      → db.is_closed ≡ false
      → open_table file ≡ ok r
      → Answers env r es
      → Kept env db (flush_added o db n name file a).0
  flush_added-Kept db s name file r (m, err e) q is_open opened gets =
      Kept-relabel env db m (remove_path db.files name) s
  flush_added-Kept db s name file r (m, ok u) q is_open opened gets =
      let k = Kept-relabel env db m db.files s in
      Kept-trans env db (record db { manif = m }) _ k
        (flush_opened-Kept (record db { manif = m }) (IsSound-relabel env.search db m db.files s)
          name file o.open_fails r (IsSound-relabel-es env.search db m db.files s ∙ q) is_open
          opened gets)

key_range-seq :
    (es : List Memtable.Entry) (n m : ℕ) (lo hi : Slice)
    → All (λ e. e.seq ≤ m) es
    → n ≤ m
    → (key_range es n lo hi).0 ≤ m
unfolding key_range
key_range-seq [] n m lo hi all le = le
key_range-seq (e ∷ es) n m lo hi all le =
    key_range-seq es (if ltb n e.seq then e.seq else n) m _ _ all.1 (ground (arith, all.0))

max_seq_of-le : (es : List Memtable.Entry) (m : ℕ) → All (λ e. e.seq ≤ m) es → max_seq_of es ≤ m
unfolding max_seq_of
max_seq_of-le es m all = key_range-seq es 0 m none none all (omega arith)

flush_written-Kept :
    (env : Env) (o : FlushIo) (db : Db) (s : IsSound env.search db) (es : List Memtable.Entry)
    (name : Bytes) (left : Option Bytes)
    → Written env.sizes env.search (create 0 0) (table_entries es)
    → IsLawful env
    → s.es ≡ es
    → db.is_closed ≡ false
    → Kept env db
        (flush_written env o db es name left
          (write_file env.sizes (create 0 0) (map table_entry es))).0
flush_written-Kept env o db s es name (some left) w law q is_open =
    rw (w.done) (Kept-relabel env db db.manif (write_path db.files name left) s)
flush_written-Kept env o db s es name none w law q is_open =
    let files = write_path db.files name w.writer.file in
    let db1 : Db = record db { files = files } in
    let n = max_seq_of es in
    let seqs = subst (All (λ e. e.seq ≤ db.wal.next_seq)) q s.seqs in
    let small : IsUint64 n = omega (arith, s.limit, max_seq_of-le es db.wal.next_seq seqs) in
    rw (w.done) (
      Kept-trans env db db1 _ (Kept-relabel env db db.manif files s) (
        flush_added-Kept env o es n small db1 (IsSound-relabel env.search db db.manif files s) name
          w.writer.file w.reader
          (add_file (file_meta name es w.meta) n env.json o.added o.add_fails db.manif)
          (IsSound-relabel-es env.search db db.manif files s ∙ q) is_open w.opened w.serves))

flush_named-Kept :
    (env : Env) (o : FlushIo) (db : Db) (s : IsSound env.search db) (es : List Memtable.Entry)
    (a : Manifest × Result Manifest.Error Bytes)
    → Written env.sizes env.search (create 0 0) (table_entries es)
    → IsLawful env
    → s.es ≡ es
    → db.is_closed ≡ false
    → Kept env db (flush_named env o db es a).0
flush_named-Kept env o db s es (m, err e) w law q is_open = Kept-relabel env db m db.files s
flush_named-Kept env o db s es (m, ok name) w law q is_open =
    Kept-trans env db (record db { manif = m }) _ (Kept-relabel env db m db.files s)
      (flush_written-Kept env o (record db { manif = m })
        (IsSound-relabel env.search db m db.files s) es name o.table_left w law
        (IsSound-relabel-es env.search db m db.files s ∙ q) is_open)

-- What the flush of a database in order writes.
pub entries-Written :
    (env : Env) (db : Db) (s : IsSound env.search db) (es : List Memtable.Entry)
    → IsLawful env
    → s.es ≡ es
    → FitsTable es
    → Written env.sizes env.search (create 0 0) (table_entries es)
entries-Written env db s es law q fits =
    let seqs = subst (All (λ x. x.seq ≤ db.wal.next_seq)) q s.seqs in
    let keyed = subst (All (λ x. x.key ≡ some (content x.key))) q s.keyed in
    let asc = subst IsAscending (s.rep.contents ∙ q) s.rep.ok.ascending in
    get-write_file env.sizes env.search 0 0 (table_entries es) law.sizes law.finds
      (AreAscending-table_entries es asc) (table_entries-HasKey es keyed)
      (table_entries-IsStorable es db.wal.next_seq s.limit seqs fits) fits

flush_entries-Kept :
    (env : Env) (o : FlushIo) (db : Db) (s : IsSound env.search db) (es : List Memtable.Entry)
    → IsLawful env
    → s.es ≡ es
    → db.is_closed ≡ false
    → FitsTable es
    → Kept env db (flush_entries env o db es).0
flush_entries-Kept env o db s [] law q is_open fits = Kept-relabel env db db.manif db.files s
flush_entries-Kept env o db s (e ∷ es) law q is_open fits =
    flush_named-Kept env o db s (e ∷ es)
      (alloc_file_name env.format env.json o.now o.alloc_fails db.manif)
      (entries-Written env db s (e ∷ es) law q fits) law q is_open

-- A flush of a database in order: whether it succeeds or fails at any of its steps, no read of any
-- key changes, and the database is in order again. The memtable is one that fits a table.
pub flush_locked-Kept :
    (env : Env) (o : FlushIo) (db : Db)
    → IsLawful env
    → IsSound env.search db
    → db.is_closed ≡ false
    → FitsTable (snapshot db.mem.sl)
    → Kept env db (flush_locked env o db).0
unfolding flush_locked
flush_locked-Kept env o db law s is_open fits =
    flush_entries-Kept env o db s (snapshot db.mem.sl) law (sym (snapshot_lem db.mem.sl s.es s.rep))
      is_open fits
