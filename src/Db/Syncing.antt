-- ===== src/Db/Syncing.antt =====
-- What of the log is on the disk behind a put of lsmkv/write.go.
use go_durable_engine.Prelude.{
  ℕ, ◌^◌, ◌++◌, ◌≡◌, refl, ap, ◌∙◌, inl, inr, Bool, true, false, Bool-cases, Option, none, some,
  List, [], ◌∷◌, length, ltb, ◌==◌, if◌then◌else◌, if_false, Result, ok, err, Bytes,
}
use go_durable_engine.Wal
use go_durable_engine.Wal.{type_put}
use go_durable_engine.Wal.Encode.{encode_kv, next}
use go_durable_engine.Wal.Log.{
  File, Log, Io, Answer, ResetIo, written, header_written, write_frame, write_all, maybe_sync,
  syncs, finish_append, append_put, reset, set_next_seq,
}
use go_durable_engine.Memtable
use go_durable_engine.Memtable.{put, clear, should_flush, snapshot}
use go_durable_engine.Manifest
use go_durable_engine.Manifest.Store.{Manifest}
use go_durable_engine.Sstable
use go_durable_engine.Sstable.{Meta}
use go_durable_engine.Sstable.Writer.{Writer}
use go_durable_engine.Sstable.Reader.{Reader}
use go_durable_engine.Db.{Error, invalid, Options, SyncPolicy, wal_opts, Db, Env, write_path}
use go_durable_engine.Db.Write.{
  FlushIo, max_seq_of, flush_reset, flush_opened, opened_file, flush_added, flush_written,
  flush_named, flush_entries, flush_locked, flush_if_full, guarded, put_logged, db_put,
}
use go_durable_engine.Db.Puts.{IsWritable, guarded-open, nonempty_key}

-- Everything that the file holds is on the disk.
abbrev pub IsSynced : Log → Type 0
IsSynced l = l.stable ≡ l.file.bytes

written-opts :
    (l : Log) (p : Bytes) (r : File × Result Wal.Error (Unit {0})) → (written l p r).0.opts ≡ l.opts
written-opts l p (f, err e) = refl
written-opts l p (f, ok u) = refl

header_written-opts :
    (l : Log) (p : Bytes) (a : Answer) (r : File × Result Wal.Error (Unit {0}))
    → (header_written l p a r).0.opts ≡ l.opts
header_written-opts l p a (f, err e) = refl
header_written-opts l p a (f, ok u) =
    written-opts l p (if length p == 0 then (f, ok tt) else write_all f p a)

write_frame-opts :
    (l : Log) (typ : ℕ) (p : Bytes) (o : Io) → (write_frame l typ p o).0.opts ≡ l.opts
unfolding write_frame
write_frame-opts l typ p o = elim (Bool-cases o.injected) [
  | inl t ↦ rw t refl
  | inr f ↦ rw f (elim (Bool-cases (ltb (2 ^ 28) (length p))) [
    | inl t ↦ rw t refl
    | inr g ↦ rw g (header_written-opts l p o.payload_write _)
  ])
]

always_syncs :
    (l : Log) (opts : Options)
    → l.opts ≡ wal_opts opts
    → opts.sync_policy ≡ SyncPolicy.sync_full
    → syncs l ≡ true
unfolding syncs wal_opts
always_syncs l opts e full = rw e (rw full refl)

finish_append-IsSynced :
    (seq n : ℕ) (o : Io) (r : Log × Result Wal.Error (Unit {0}))
    → syncs r.0 ≡ true
    → (finish_append seq o r).1 ≡ ok n
    → IsSynced (finish_append seq o r).0
unfolding maybe_sync
finish_append-IsSynced seq n o (l, err e) s q = cc
finish_append-IsSynced seq n o (l, ok u) s q = elim (Bool-cases o.sync_fails) [
  | inl t ↦ absurd (cc (rw (s, t) at q))
  | inr f ↦ rw (s, f) refl
]

if-IsSynced :
    (b : Bool) (n : ℕ) (x y : Log × Result Wal.Error ℕ)
    → (x.1 ≡ ok n → IsSynced x.0)
    → (y.1 ≡ ok n → IsSynced y.0)
    → (if b then x else y).1 ≡ ok n
    → IsSynced (if b then x else y).0
if-IsSynced true n x y h g q = h q
if-IsSynced false n x y h g q = g q

append_put-IsSynced :
    (l : Log) (opts : Options) (key value : Bytes) (o : Io) (n : ℕ)
    → l.opts ≡ wal_opts opts
    → opts.sync_policy ≡ SyncPolicy.sync_full
    → (append_put l key value o).1 ≡ ok n
    → IsSynced (append_put l key value o).0
unfolding append_put
append_put-IsSynced l opts key value o n e full q =
    let seq = next l.next_seq in
    let l1 : Log = record l { next_seq = seq } in
    let r = write_frame l1 type_put (encode_kv seq key value) o in
    let s =
      always_syncs r.0 opts (write_frame-opts l1 type_put (encode_kv seq key value) o ∙ e) full in
    if-IsSynced l.is_closed n (l, err Wal.closed) (finish_append seq o r) (λ x. cc)
      (finish_append-IsSynced seq n o r s) q

reset-IsSynced : (l : Log) (o : ResetIo) → IsSynced l → IsSynced (reset l o).0
unfolding reset
reset-IsSynced l o h = elim (Bool-cases l.is_closed) [
  | inl t ↦ rw t h
  | inr f ↦ rw f (elim (Bool-cases o.truncate_fails) [
    | inl t' ↦ rw t' h
    | inr f' ↦ rw f' (elim (Bool-cases o.seek_fails) [ inl u ↦ rw u refl | inr u ↦ rw u refl ])
  ])
]

set_next_seq-IsSynced : (l : Log) (n : ℕ) → IsSynced l → IsSynced (set_next_seq l n)
unfolding set_next_seq
set_next_seq-IsSynced l n h = elim (Bool-cases (ltb l.next_seq n)) [
  | inl t ↦ rw t h
  | inr f ↦ rw f h
]

flush_reset-IsSynced :
    (db : Db) (n : ℕ) (r : Log × Result Wal.Error (Unit {0}))
    → IsSynced r.0
    → IsSynced (flush_reset db n r).0.wal
flush_reset-IsSynced db n (l, err e) h = h
flush_reset-IsSynced db n (l, ok u) h = set_next_seq-IsSynced l n h

module _ (env : Env) (o : FlushIo) where
  -- No step of a flush leaves a part of the log unsynced.
  flush_opened-IsSynced :
      (db : Db) (n : ℕ) (name : Bytes) (r : Result Error Reader)
      → IsSynced db.wal
      → IsSynced (flush_opened o db n name r).0.wal
  flush_opened-IsSynced db n name (err e) h = h
  flush_opened-IsSynced db n name (ok r) h =
      flush_reset-IsSynced
        (record db {
          tables = db.tables ++ record { path = name; reader = r; is_closed = false } ∷ [];
          mem = record db.mem { sl = clear db.mem.sl };
        })
        n (reset db.wal o.reset) (reset-IsSynced db.wal o.reset h)

  flush_added-IsSynced :
      (db : Db) (n : ℕ) (name file : Bytes) (r : Manifest × Result Manifest.Error (Unit {0}))
      → IsSynced db.wal
      → IsSynced (flush_added o db n name file r).0.wal
  flush_added-IsSynced db n name file (m, err e) h = h
  flush_added-IsSynced db n name file (m, ok u) h =
      flush_opened-IsSynced (record db { manif = m }) n name (opened_file o.open_fails file) h

  flush_written-IsSynced :
      (db : Db) (es : List Memtable.Entry) (name : Bytes) (left : Option Bytes)
      (r : Result Sstable.Error (Meta × Writer))
      → IsSynced db.wal
      → IsSynced (flush_written env o db es name left r).0.wal
  flush_written-IsSynced db es name left (err e) h = h
  flush_written-IsSynced db es name (some left) (ok (m, w)) h = h
  flush_written-IsSynced db es name none (ok (m, w)) h =
      flush_added-IsSynced (record db { files = write_path db.files name w.file }) (max_seq_of es)
        name w.file _ h

  flush_named-IsSynced :
      (db : Db) (es : List Memtable.Entry) (r : Manifest × Result Manifest.Error Bytes)
      → IsSynced db.wal
      → IsSynced (flush_named env o db es r).0.wal
  flush_named-IsSynced db es (m, err e) h = h
  flush_named-IsSynced db es (m, ok name) h =
      flush_written-IsSynced (record db { manif = m }) es name o.table_left _ h

  flush_entries-IsSynced :
      (db : Db) (es : List Memtable.Entry)
      → IsSynced db.wal
      → IsSynced (flush_entries env o db es).0.wal
  flush_entries-IsSynced db [] h = h
  flush_entries-IsSynced db (e ∷ es) h = flush_named-IsSynced db (e ∷ es) _ h

  flush_if_full-IsSynced : (db : Db) → IsSynced db.wal → IsSynced (flush_if_full env o db).0.wal
  unfolding flush_if_full flush_locked
  flush_if_full-IsSynced db h = elim (Bool-cases (should_flush db.mem)) [
    | inl t ↦ rw t (flush_entries-IsSynced db (snapshot db.mem.sl) h)
    | inr f ↦ rw f h
  ]

-- A put on an open, writable database in order under SyncFull, whose log has the options that go
-- with it, whatever the operating system answers: where the log acknowledges the put, the whole
-- content of the log's file is on the disk when the put returns, also behind a flush, whether it
-- succeeds or fails.
pub db_put-IsSynced :
    (env : Env) (w : Io) (o : FlushIo) (coins : ℕ → Bool) (db : Db) (key value : Bytes) (seq : ℕ)
    → IsWritable env db key value
    → db.wal.opts ≡ wal_opts db.opts
    → db.opts.sync_policy ≡ SyncPolicy.sync_full
    → (append_put db.wal key value w).1 ≡ ok seq
    → IsSynced (db_put env w o coins db key value).0.wal
unfolding db_put
db_put-IsSynced env w o coins db key value seq h e full q =
    let r = put_logged env o coins db key value (append_put db.wal key value w) in
    let l = (append_put db.wal key value w).0 in
    let pair : append_put db.wal key value w ≡ (l, ok seq) = ap (λ x. (l, x)) q in
    let db1 : Db = record db {
      wal = l;
      mem = record db.mem { sl = put db.mem.sl coins (some key) value seq };
    } in
    let whole : db_put env w o coins db key value ≡ flush_if_full env o db1 =
      if_false (length key == 0) (db, err invalid) (guarded db r) (nonempty_key key h.keyed)
      ∙ guarded-open db r h.is_open h.writes
      ∙ ap (put_logged env o coins db key value) pair in
    rw whole (
      flush_if_full-IsSynced env o db1
        (append_put-IsSynced db.wal db.opts key value w seq e full q))
