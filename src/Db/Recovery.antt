-- ===== src/Db/Recovery.antt =====
-- A restart behind a crash: the log, cut off where it is torn, and the tables give every read again.
use mathlib.Core.Path.{subst}
use go_durable_engine.Prelude.{
  ◌≤◌, ℕ, ◌+◌, ◌≡◌, refl, sym, ap, ◌∙◌, inl, inr, Bool, true, false, Bool-cases, Option, List, [],
  ◌∷◌, ◌++◌, arith, ltb, if◌then◌else◌, Result, ok, err, none, some, ◌>>=◌, Bytes, All,
}
use go_durable_engine.Wal
use go_durable_engine.Wal.{Record, type_put}
use go_durable_engine.Wal.Scan.{feed}
use go_durable_engine.Wal.Torn.{LogFrame, IsTorn, frames_bytes}
use go_durable_engine.Wal.Log.{Log, File, set_next_seq, replay_context, open_log}
use go_durable_engine.Wal.Log.Appends.{Holds}
use go_durable_engine.Wal.Log.Recovery.{open_log-torn}
use go_durable_engine.Wal.Log.Replay.{
  records_of, Decodes, replay_context-feed, replay_context-Holds,
}
use go_durable_engine.Memtable.{Entry, SkipList, put, delete, new_mem_table}
use go_durable_engine.Memtable.Contents.{insert_entry}
use go_durable_engine.Memtable.Invariant.{Represents}
use go_durable_engine.Memtable.Read.{snapshot_lem}
use go_durable_engine.Memtable.Operations.{set_entry-insert_entry, new-Represents}
use go_durable_engine.Memtable.Refinement.{entry_put, entry_deleted}
use go_durable_engine.Manifest
use go_durable_engine.Manifest.{State, FileMeta}
use go_durable_engine.Manifest.Codec.{Json, decode}
use go_durable_engine.Manifest.Store.{
  Manifest, open_manifest, persist, max_seq_loop, max_seq_among_files,
}
use go_durable_engine.Db.{Options, normalize, wal_opts, Db, Env, Table}
use go_durable_engine.Db.Read.{db_get}
use go_durable_engine.Db.Open.{
  Disk, OpenIo, open_tables, replay_record, recovered_seq, replayed_into, replay_wal_context,
  open_parts, open_context,
}
use go_durable_engine.Db.Sound.{IsSound, db_get-Represents}

-- The entry that a record of the log puts into the memtable.
abbrev pub record_entry : Record → Entry
record_entry r = if r.deleted then entry_deleted r.key r.seq else entry_put r.key r.value r.seq

-- The entries behind a replay.
abbrev pub replayed_onto : List Entry → List Record → List Entry
replayed_onto es [] = es
replayed_onto es (r ∷ recs) = replayed_onto (insert_entry (record_entry r) es) recs

replay_record-Represents :
    (coins : ℕ → ℕ → Bool) (s : SkipList) (i : ℕ) (r : Record) (es : List Entry)
    → Represents s es
    → (s' : SkipList) × (replay_record coins (s, i) r ≡ ok (s', i + 1))
      × Represents s' (insert_entry (record_entry r) es)
unfolding replay_record put delete
replay_record-Represents coins s i r es rep = elim (Bool-cases r.deleted) [
  | inl t ↦
      let e = entry_deleted r.key r.seq in
      let same : record_entry r ≡ e =
        ap (λ (d : Bool). if d then e else entry_put r.key r.value r.seq) t in
      (
        delete s (coins i) r.key r.seq,
        ap
            (λ (d : Bool). ok (
              if d then delete s (coins i) r.key r.seq else put s (coins i) r.key r.value r.seq,
              i + 1,
            ))
            t,
        subst (λ (x : Entry). Represents (delete s (coins i) r.key r.seq) (insert_entry x es))
            (sym same) (set_entry-insert_entry s (coins i) e es rep),
      )
  | inr f ↦
      let e = entry_put r.key r.value r.seq in
      let same : record_entry r ≡ e =
        ap (λ (d : Bool). if d then entry_deleted r.key r.seq else e) f in
      (
        put s (coins i) r.key r.value r.seq,
        ap
            (λ (d : Bool). ok (
              if d then delete s (coins i) r.key r.seq else put s (coins i) r.key r.value r.seq,
              i + 1,
            ))
            f,
        subst (λ (x : Entry). Represents (put s (coins i) r.key r.value r.seq) (insert_entry x es))
            (sym same) (set_entry-insert_entry s (coins i) e es rep),
      )
]

feed-Represents :
    (coins : ℕ → ℕ → Bool) (recs : List Record) (s : SkipList) (i : ℕ) (es : List Entry)
    → Represents s es
    → (s' : SkipList) × (n : ℕ) × (feed (replay_record coins) (s, i) recs ≡ ok (s', n))
      × Represents s' (replayed_onto es recs)
unfolding feed
feed-Represents coins [] s i es rep = (s, i, refl, rep)
feed-Represents coins (r ∷ recs) s i es rep =
    let a = replay_record-Represents coins s i r es rep in
    let b = feed-Represents coins recs a.0 (i + 1) (insert_entry (record_entry r) es) a.2 in
    (
      b.0,
      b.1,
      ap (λ (x : Result Wal.Error (SkipList × ℕ)). x >>= λ s'. feed (replay_record coins) s' recs)
            a.1
          ∙ b.2,
      b.3,
    )

pub set_next_seq-Holds :
    (l : Log) (fs : List LogFrame) (n : ℕ) → Holds l fs → Holds (set_next_seq l n) fs
unfolding set_next_seq
set_next_seq-Holds l fs n h = elim (Bool-cases (ltb l.next_seq n)) [
  | inr f ↦ rw f h
  | inl t ↦ rw t (record {
    bytes = h.bytes;
    size = h.size;
    frames = h.frames;
    seqs = ground (arith, h.seqs);
    is_open = h.is_open;
  })
]

-- The memtable holds exactly what the log's file would bring back, the manifest's file opens with the
-- files of the manifest, and the tables are those in the directory. This is about the content of the
-- files, which outlives the process; what outlives a loss of power is in `stable` of the log.
pub record IsRecoverable (env : Env) (db : Db) : Type 0 where
  pub frames : List LogFrame
  pub holds : Holds db.wal frames
  pub decodes : All Decodes frames
  pub contents : Represents db.mem.sl (replayed_onto [] (records_of frames))
  pub manifest :
      (now : Bytes) (fails : Bool)
      → (m : Manifest) × (open_manifest env.json now fails db.manif.stored ≡ ok m)
        × (m.state.files ≡ db.manif.state.files)
  pub tables : open_tables db.files db.manif.state.files ≡ ok db.tables

-- An opening in which nothing goes wrong.
pub record OpensClean (o : OpenIo) (ctx : ℕ → Bool) : Type 0 where
  pub running : (k : ℕ) → ctx k ≡ false
  pub named : o.dir_given ≡ true
  pub made : o.mkdir_fails ≡ false
  pub free : o.is_locked ≡ false

pub open_context-clean :
    (env : Env) (o : OpenIo) (ctx : ℕ → Bool) (coins : ℕ → ℕ → Bool) (opts : Option Options)
    (disk : Disk)
    → OpensClean o ctx
    → open_context env o ctx coins opts disk ≡ open_parts env o ctx coins (normalize opts) disk
unfolding open_context
open_context-clean env o ctx coins opts disk c = rw (c.running 0, c.named, c.made, c.free) refl

-- The database that the opening makes in front of the replay.
abbrev pub unreplayed : Options → Log → Manifest → Db → Db
unreplayed opts l m db = record {
  opts = opts;
  wal = set_next_seq l (recovered_seq m);
  mem = new_mem_table opts.memtable_bytes;
  manif = m;
  tables = db.tables;
  is_closed = false;
  files = db.files;
}

abbrev crashed : Db → Bytes → Disk
crashed db tail = record {
  manifest = db.manif.stored;
  wal = db.wal.file.bytes ++ tail;
  files = db.files;
}

open_parts-replay :
    (env : Env) (o : OpenIo) (ctx : ℕ → Bool) (coins : ℕ → ℕ → Bool) (opts : Options) (db : Db)
    (tail : Bytes) (m : Manifest) (l : Log)
    → open_manifest env.json o.now o.persist_fails db.manif.stored ≡ ok m
    → open_log (db.wal.file.bytes ++ tail) (wal_opts opts) ≡ ok l
    → open_tables db.files m.state.files ≡ ok db.tables
    → open_parts env o ctx coins opts (crashed db tail)
      ≡ replay_wal_context ctx coins (unreplayed opts l m db)
unfolding open_parts
open_parts-replay env o ctx coins opts db tail m l em el et = rw em (rw el (rw et refl))

result_of :
    (db : Db) (r : Log × Result Wal.Error (SkipList × ℕ)) (s : SkipList) (n : ℕ)
    → r.1 ≡ ok (s, n)
    → replayed_into db r ≡ ok (record db { wal = r.0; mem = record db.mem { sl = s } })
result_of db (l, r) s n e = ap (λ (x : Result Wal.Error (SkipList × ℕ)). replayed_into db (l, x)) e

pub replay_wal_context-Represents :
    (ctx : ℕ → Bool) (coins : ℕ → ℕ → Bool) (db : Db) (fs : List LogFrame)
    → ((k : ℕ) → ctx k ≡ false)
    → Holds db.wal fs
    → All Decodes fs
    → Represents db.mem.sl []
    → (l : Log) × (s : SkipList) × (replay_wal_context ctx coins db
        ≡ ok (record db { wal = l; mem = record db.mem { sl = s } }))
      × Represents s (replayed_onto [] (records_of fs))
      × Holds l fs
      × (l.next_seq ≡ db.wal.next_seq)
unfolding replay_wal_context
replay_wal_context-Represents ctx coins db fs running h d rep =
    let f = feed-Represents coins (records_of fs) db.mem.sl 0 [] rep in
    let r =
      replay_context-feed (replay_record coins) (λ k. ctx (k + 1)) (λ k. running (k + 1)) db.wal fs
        (db.mem.sl, 0) h d in
    let x = replay_context db.wal (λ k. ctx (k + 1)) (replay_record coins) (db.mem.sl, 0) in
    let held =
      replay_context-Holds (replay_record coins) (λ k. ctx (k + 1)) (λ k. running (k + 1)) db.wal fs
        (db.mem.sl, 0) (f.0, f.1) h (r ∙ f.2) in
    (x.0, f.0, result_of db x f.0 f.1 (r ∙ f.2), f.3, held.0, held.1)

abbrev stored_of : Result Manifest.Error Manifest → Option Bytes
stored_of (ok m) = m.stored
stored_of (err e) = none

stored_of-bind :
    (raw : Bytes) (m : Manifest) (r : Result Manifest.Error State)
    → (r >>= λ st. ok (record { state = st; stored = some raw })) ≡ ok m
    → m.stored ≡ some raw
stored_of-bind raw m (ok st) q = sym (ap stored_of q)
stored_of-bind raw m (err e) q = cc

-- A manifest that opens also where nothing can be written is there, and is not written.
open_manifest-stored :
    (j : Json) (now : Bytes) (fails : Bool) (raw : Option Bytes) (m m' : Manifest)
    → open_manifest j now true raw ≡ ok m'
    → open_manifest j now fails raw ≡ ok m
    → m.stored ≡ raw
unfolding open_manifest persist
open_manifest-stored j now fails none m m' q e = cc
open_manifest-stored j now fails (some raw) m m' q e = stored_of-bind raw m (decode j now raw) e

All-files :
    (fs : List FileMeta) (n k : ℕ)
    → All (λ f. f.max_seq ≤ n) fs
    → n ≤ k
    → All (λ f. f.max_seq ≤ k) fs
All-files [] n k all le = tt
All-files (f ∷ fs) n k all le = (omega (arith, all.0), All-files fs n k all.1 le)

max_seq_loop-All :
    (fs : List FileMeta) (best n : ℕ)
    → max_seq_loop fs best ≤ n
    → (best ≤ n) × All (λ f. f.max_seq ≤ n) fs
unfolding max_seq_loop
max_seq_loop-All [] best n h = (h, tt)
max_seq_loop-All (f ∷ fs) best n h =
    let r = max_seq_loop-All fs (if ltb best f.max_seq then f.max_seq else best) n h in
    (ground (arith, r.0), (ground (arith, r.0), r.1))

-- The number that an opening sets is not below the log's of the manifest, nor any file's.
set_next_seq-recovered :
    (l : Log) (m : Manifest)
    → (m.state.log_seq ≤ (set_next_seq l (recovered_seq m)).next_seq)
      × All (λ f. f.max_seq ≤ recovered_seq m) m.state.files
      × (recovered_seq m ≤ (set_next_seq l (recovered_seq m)).next_seq)
unfolding set_next_seq recovered_seq max_seq_among_files
set_next_seq-recovered l m =
    let best = max_seq_loop m.state.files 0 in
    let n = if ltb best m.state.log_seq then m.state.log_seq else best in
    let up : n ≤ (if ltb l.next_seq n then record l { next_seq = n } else l).next_seq =
      elim (Bool-cases (ltb l.next_seq n)) [
        | inl t ↦ rw t (omega arith)
        | inr f ↦ rw f (ground (arith, f))
      ] in
    let top : m.state.log_seq ≤ n = ground arith in
    (omega (arith, top, up), (max_seq_loop-All m.state.files 0 n (ground arith)).1, up)

-- What the opening makes of a recoverable database is recoverable.
reopened-IsRecoverable :
    (env : Env) (db db' : Db) (m : Manifest) (d : IsRecoverable env db)
    → Holds db'.wal d.frames
    → Represents db'.mem.sl (replayed_onto [] (records_of d.frames))
    → m.stored ≡ db.manif.stored
    → m.state.files ≡ db.manif.state.files
    → db'.manif ≡ m
    → db'.tables ≡ db.tables
    → db'.files ≡ db.files
    → IsRecoverable env db'
reopened-IsRecoverable env db db' m d h r stored files em et ef = record {
  frames = d.frames;
  holds = h;
  decodes = d.decodes;
  contents = r;
  manifest = λ now fails.
      let x = d.manifest now fails in
      (
        x.0,
        ap (open_manifest env.json now fails) (ap (λ (m' : Manifest). m'.stored) em ∙ stored) ∙ x.1,
        x.2 ∙ sym (ap (λ (m' : Manifest). m'.state.files) em ∙ files),
      );
  tables =
      ap (λ (g : Bytes → Option Bytes). open_tables g db'.manif.state.files) ef
      ∙ ap (open_tables db.files) (ap (λ (m' : Manifest). m'.state.files) em ∙ files)
      ∙ d.tables
      ∙ sym (ap (λ (ts : List Table). ok ts) et);
}

-- A crash of the process on a recoverable database in order, in the middle of an append or not:
-- whatever part of a frame is left behind the log, an opening in which nothing goes wrong succeeds,
-- with any options; every read gives what it gave before the crash, the database is recoverable
-- again, and the number that its log goes on from is not below the one of the log in the manifest,
-- nor below that of any file in it.
pub open_context-reads :
    (env : Env) (db : Db) (tail : Bytes) (o : OpenIo) (ctx : ℕ → Bool) (coins : ℕ → ℕ → Bool)
    (opts : Option Options)
    → IsSound env.search db
    → IsRecoverable env db
    → db.is_closed ≡ false
    → IsTorn tail
    → OpensClean o ctx
    → (db' : Db) × (open_context env o ctx coins opts
          (record { manifest = db.manif.stored; wal = db.wal.file.bytes ++ tail; files = db.files })
        ≡ ok db')
      × ((key : Bytes) → db_get env db' key ≡ db_get env db key)
      × IsRecoverable env db'
      × (m : Manifest) × (open_manifest env.json o.now o.persist_fails db.manif.stored ≡ ok m)
      × (m.state.log_seq ≤ db'.wal.next_seq)
      × All (λ f. f.max_seq ≤ db'.wal.next_seq) m.state.files
open_context-reads env db tail o ctx coins opts s d is_open torn c =
    let opts' = normalize opts in
    let (m, em, files) = d.manifest o.now o.persist_fails in
    let (l, el, hl, ql) = open_log-torn d.frames tail (wal_opts opts') d.holds.frames torn in
    let bytes : db.wal.file.bytes ≡ frames_bytes d.frames =
      ap (λ (f : File). f.bytes) d.holds.bytes in
    let db0 = unreplayed opts' l m db in
    let r =
      replay_wal_context-Represents ctx coins db0 d.frames c.running
        (set_next_seq-Holds l d.frames (recovered_seq m) hl) d.decodes
        (unfold new_mem_table in new-Represents) in
    let db' : Db = record db0 { wal = r.0; mem = record db0.mem { sl = r.1 } } in
    let opened =
      open_context-clean env o ctx coins opts (crashed db tail) c
      ∙ open_parts-replay env o ctx coins opts' db tail m l em
          (ap (λ (b : Bytes). open_log (b ++ tail) (wal_opts opts')) bytes ∙ el)
          (ap (open_tables db.files) files ∙ d.tables)
      ∙ r.2 in
    let n = set_next_seq-recovered l m in
    let es = replayed_onto [] (records_of d.frames) in
    let same : es ≡ s.es =
      sym (snapshot_lem db.mem.sl es d.contents) ∙ snapshot_lem db.mem.sl s.es s.rep in
    (
      db',
      opened,
      λ key.
          db_get-Represents env db' es s.stores key r.3 s.serve refl
          ∙ sym (db_get-Represents env db es s.stores key d.contents s.serve is_open),
      reopened-IsRecoverable env db db' m d r.4 r.3
          (open_manifest-stored env.json o.now o.persist_fails db.manif.stored m
            (d.manifest o.now true).0 (d.manifest o.now true).1 em)
          files refl refl refl,
      m,
      em,
      omega (arith, n.0, r.5),
      All-files m.state.files (recovered_seq m) db'.wal.next_seq n.1 (omega (arith, n.2, r.5)),
    )
