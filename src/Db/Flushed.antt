-- ===== src/Db/Flushed.antt =====
-- A flush in which nothing goes wrong leaves the database recoverable, with an empty log.
use mathlib.Core.Path.{subst}
use go_durable_engine.Prelude.{
  ℕ, ◌≡◌, refl, sym, ap, ◌∙◌, inl, inr, Bool, false, Option, none, some, List, [], ◌∷◌, ◌++◌,
  if◌then◌else◌, Result, ok, err, ◌>>=◌, Result-cases, Bytes, All,
}
use go_durable_engine.Bytes.{equal}
use go_durable_engine.Bytes.Order.{equal_iff}
use go_durable_engine.Wal.{io}
use go_durable_engine.Wal.Log.{Log, set_next_seq, reset}
use go_durable_engine.Wal.Log.Recovery.{reset-Holds}
use go_durable_engine.Memtable
use go_durable_engine.Memtable.{clear, snapshot}
use go_durable_engine.Memtable.Read.{snapshot_lem}
use go_durable_engine.Memtable.Operations.{clear-Represents}
use go_durable_engine.Manifest.{FileMeta, State, version_json}
use go_durable_engine.Manifest.Codec.{Json, has_magic, decode}
use go_durable_engine.Manifest.Store.{
  Manifest, persist, open_manifest, alloc_file_name, add_file, raise,
}
use go_durable_engine.Sstable.Writer.{create}
use go_durable_engine.Sstable.Reader.{Reader, open_table}
use go_durable_engine.Sstable.Lookup.{Written}
use go_durable_engine.Db.{Error, Table, Db, Env, write_path}
use go_durable_engine.Db.Write.{
  FlushIo, Outcome, max_seq_of, file_meta, flush_named, flush_entries, flush_locked,
}
use go_durable_engine.Db.Serving.{table_entries}
use go_durable_engine.Db.Open.{opened_table, open_tables}
use go_durable_engine.Db.Sound.{IsSound}
use go_durable_engine.Db.Kept.{IsLawful, FitsTable}
use go_durable_engine.Db.Flushing.{entries-Written}
use go_durable_engine.Db.Recovery.{IsRecoverable, set_next_seq-Holds}

-- JSON reads this state back, and its text is not taken for the binary form.
abbrev pub IsReadBack : Json → State → Type 0
IsReadBack j st = (j.of_json (j.to_json st) ≡ some st) × (has_magic (j.to_json st) ≡ false)

-- A flush in which nothing goes wrong.
pub record FlushesClean (o : FlushIo) : Type 0 where
  pub allocated : o.alloc_fails ≡ false
  pub whole : o.table_left ≡ none
  pub added : o.add_fails ≡ false
  pub opened : o.open_fails ≡ false
  pub truncated : o.reset.truncate_fails ≡ false
  pub sought : o.reset.seek_fails ≡ false
  pub synced : o.reset.sync_fails ≡ false

-- The name is not one of a file that is listed.
abbrev pub IsNew : Bytes → List FileMeta → Type 0
IsNew name fs = All (λ f. equal f.name name ≡ false) fs

open_tables-kept :
    (files : Bytes → Option Bytes) (fs : List FileMeta) (name file : Bytes)
    → IsNew name fs
    → open_tables (write_path files name file) fs ≡ open_tables files fs
unfolding open_tables
open_tables-kept files [] name file new = refl
open_tables-kept files (f ∷ fs) name file new =
    rw (new.0, open_tables-kept files fs name file new.1) refl

joined :
    (files : Bytes → Option Bytes) (fs gs : List FileMeta)
    → open_tables files (fs ++ gs)
      ≡ (open_tables files fs >>= λ a. open_tables files gs >>= λ b. ok (a ++ b))
unfolding open_tables
joined files [] gs = elim (Result-cases (open_tables files gs)) [
  | inl (us, g) ↦ rw g refl
  | inr (x, g) ↦ rw g refl
]
joined files (f ∷ fs) gs = elim (Result-cases (opened_table f.name (files f.name))) [
  | inr (x, e) ↦ rw e refl
  | inl (t, e) ↦ rw e (
      rw (joined files fs gs) (elim (Result-cases (open_tables files fs)) [
        | inr (x, h) ↦ rw h refl
        | inl (ts, h) ↦ rw h (elim (Result-cases (open_tables files gs)) [
          | inl (us, g) ↦ rw g refl
          | inr (x, g) ↦ rw g refl
        ])
      ]))
]

open_tables-append :
    (files : Bytes → Option Bytes) (fs gs : List FileMeta) (ts us : List Table)
    → open_tables files fs ≡ ok ts
    → open_tables files gs ≡ ok us
    → open_tables files (fs ++ gs) ≡ ok (ts ++ us)
open_tables-append files fs gs ts us e g =
    joined files fs gs
    ∙ ap (λ (r : Result Error (List Table)). r >>= λ a. open_tables files gs >>= λ b. ok (a ++ b)) e
    ∙ ap (λ (r : Result Error (List Table)). r >>= λ b. ok (ts ++ b)) g

open_tables-snoc :
    (files : Bytes → Option Bytes) (fs : List FileMeta) (ts : List Table) (f : FileMeta)
    (file : Bytes) (r : Reader)
    → open_tables files fs ≡ ok ts
    → IsNew f.name fs
    → open_table file ≡ ok r
    → open_tables (write_path files f.name file) (fs ++ f ∷ [])
      ≡ ok (ts ++ record { path = f.name; reader = r; is_closed = false } ∷ [])
open_tables-snoc files fs ts f file r e new opened =
    open_tables-append (write_path files f.name file) fs (f ∷ []) ts
      (record { path = f.name; reader = r; is_closed = false } ∷ [])
      (open_tables-kept files fs f.name file new ∙ e)
      (unfold open_tables in
        let self = (equal_iff f.name f.name).1 refl in rw self (rw opened refl))

alloc-clean :
    (format : ℕ → Bytes) (j : Json) (now : Bytes) (fails : Bool) (m : Manifest)
    → fails ≡ false
    → (m' : Manifest) × (alloc_file_name format j now fails m ≡ (m', ok (format m.state.next_file)))
      × (m'.state.files ≡ m.state.files)
unfolding alloc_file_name persist
alloc-clean format j now fails m h = rw h (_, refl, refl)

add-clean :
    (meta : FileMeta) (seq : ℕ) (j : Json) (now : Bytes) (fails : Bool) (m : Manifest)
    → fails ≡ false
    → (m' : Manifest) × (add_file meta seq j now fails m ≡ (m', ok tt))
      × (m'.state.files ≡ m.state.files ++ meta ∷ [])
      × (IsReadBack j m'.state
          → (later : Bytes) (f : Bool)
          → (m'' : Manifest) × (open_manifest j later f m'.stored ≡ ok m'')
            × (m''.state.files ≡ m'.state.files))
unfolding add_file persist open_manifest decode
add-clean meta seq j now fails m h =
    let st : State = record {
      version = version_json;
      next_file = m.state.next_file;
      log_seq = raise seq m.state.log_seq;
      files = m.state.files ++ meta ∷ [];
      updated_at = now;
    } in
    let m' : Manifest = record { state = st; stored = some (j.to_json st) } in
    rw h (m', refl, refl, λ q later f. (m', rw (q.1, q.0) refl, refl))

-- The database behind a clean flush.
abbrev behind : Db → Bytes → Bytes → Reader → Manifest → Log → Db
behind db name file r m l = record db {
  wal = l;
  mem = record db.mem { sl = clear db.mem.sl };
  manif = m;
  tables = db.tables ++ record { path = name; reader = r; is_closed = false } ∷ [];
  files = write_path db.files name file;
}

flush_named-clean :
    (env : Env) (o : FlushIo) (db : Db) (es : List Memtable.Entry) (m1 m2 : Manifest) (name : Bytes)
    (l : Log) (w : Written env.sizes env.search (create 0 0) (table_entries es))
    → FlushesClean o
    → add_file (file_meta name es w.meta) (max_seq_of es) env.json o.added o.add_fails m1
      ≡ (m2, ok tt)
    → reset db.wal o.reset ≡ (l, ok tt)
    → flush_named env o db es (m1, ok name)
      ≡ (behind db name w.writer.file w.reader m2 (set_next_seq l (max_seq_of es)), ok tt)
flush_named-clean env o db es m1 m2 name l w c a r =
    rw (w.done, c.whole, a, c.opened, w.opened, r) refl

-- A flush of a recoverable database in order, with entries in its memtable and nothing going wrong: it
-- succeeds, and the database is recoverable again with an empty log. The name that the manifest gives is
-- not one of a listed file, and JSON reads back the state of the manifest that the flush writes.
pub flush_locked-IsRecoverable :
    (env : Env) (o : FlushIo) (db : Db) (e : Memtable.Entry) (es : List Memtable.Entry)
    → IsLawful env
    → IsReadBack env.json (flush_locked env o db).0.manif.state
    → IsSound env.search db
    → IsRecoverable env db
    → snapshot db.mem.sl ≡ e ∷ es
    → FitsTable (e ∷ es)
    → IsNew (env.format db.manif.state.next_file) db.manif.state.files
    → FlushesClean o
    → ((flush_locked env o db).1 ≡ ok tt)
      × ((flush_locked env o db).0.wal.file.bytes ≡ [])
      × IsRecoverable env (flush_locked env o db).0
unfolding flush_locked file_meta
flush_locked-IsRecoverable env o db e es law back s d snap fits new c =
    let all = e ∷ es in
    let name = env.format db.manif.state.next_file in
    let w =
      entries-Written env db s all law (sym (snapshot_lem db.mem.sl s.es s.rep) ∙ snap) fits in
    let (m1, e1, f1) = alloc-clean env.format env.json o.now o.alloc_fails db.manif c.allocated in
    let (m2, e2, f2, again) =
      add-clean (file_meta name all w.meta) (max_seq_of all) env.json o.added o.add_fails m1
        c.added in
    let z = reset-Holds db.wal d.frames o.reset d.holds in
    let emptied = z.0 c.truncated c.sought in
    let l = (reset db.wal o.reset).0 in
    let r : reset db.wal o.reset ≡ (l, ok tt) =
      ap (λ x. (l, x)) (emptied.1 ∙ ap (λ (b : Bool). if b then err io else ok tt) c.synced) in
    let done : flush_entries env o db (snapshot db.mem.sl)
        ≡ (behind db name w.writer.file w.reader m2 (set_next_seq l (max_seq_of all)), ok tt) =
      ap (flush_entries env o db) snap
      ∙ ap (flush_named env o db all) e1
      ∙ flush_named-clean env o db all m1 m2 name l w c e2 r in
    let holds = set_next_seq-Holds l [] (max_seq_of all) emptied.0 in
    let listed : m2.state.files ≡ db.manif.state.files ++ file_meta name all w.meta ∷ [] =
      f2 ∙ ap (λ (t : List FileMeta). t ++ file_meta name all w.meta ∷ []) f1 in
    rw done (
      refl,
      ap (λ f. f.bytes) holds.bytes,
      record {
        frames = [];
        holds = holds;
        decodes = tt;
        contents = clear-Represents db.mem.sl;
        manifest = again (subst (λ (x : Outcome). IsReadBack env.json x.0.manif.state) done back);
        tables =
            ap (open_tables (write_path db.files name w.writer.file)) listed
            ∙ open_tables-snoc db.files db.manif.state.files db.tables (file_meta name all w.meta)
                w.writer.file w.reader d.tables new w.opened;
      },
    )
