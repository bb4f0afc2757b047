-- ===== src/Db/Puts.antt =====
-- Put and Delete on the reads of the database, on every branch.
use mathlib.Core.Path.{subst}
use go_durable_engine.Prelude.{
  ℕ, ◌+◌, ◌^◌, ◌<◌, ◌≡◌, refl, sym, ◌∙◌, ◌⊎◌, inl, inr, Bool, false, Bool-cases, some, [], arith,
  length, ◌==◌, if◌then◌else◌, if_false, Result, ok, err, Bytes,
}
use go_durable_engine.Bytes.{content, equal}
use go_durable_engine.Wal
use go_durable_engine.Wal.Log.{Log, Io, append_put, append_delete}
use go_durable_engine.Memtable.{Entry, snapshot, put, delete, should_flush}
use go_durable_engine.Memtable.Contents.{key_of}
use go_durable_engine.Memtable.Refinement.{entry_put, entry_deleted}
use go_durable_engine.Sstable.Blocks.{room_for}
use go_durable_engine.Db.{invalid, read_only, not_found, of_wal, Db, Env}
use go_durable_engine.Db.Read.{db_get}
use go_durable_engine.Db.Write.{
  FlushIo, Outcome, flush_if_full, guarded, put_logged, db_put, delete_logged, db_delete,
}
use go_durable_engine.Db.Serving.{table_entries}
use go_durable_engine.Db.Sound.{IsSound}
use go_durable_engine.Db.Kept.{IsLawful, Kept, Kept-wal, Kept-refl, FitsTable}
use go_durable_engine.Db.Flushing.{flush_locked-Kept}
use go_durable_engine.Db.Numbers.{Numbered, append_put-Numbered, append_delete-Numbered}
use go_durable_engine.Db.Writing.{inserted, answer_of, inserted-IsInserted, inserted-FitsTable}

-- A database that takes writes, with room for an entry of this key and value.
pub record IsWritable (env : Env) (db : Db) (key value : Bytes) : Type 0 where
  pub sound : IsSound env.search db
  pub is_open : db.is_closed ≡ false
  pub writes : db.opts.read_only ≡ false
  pub keyed : 0 < length key
  pub number : db.wal.next_seq + 1 < 2 ^ 64
  pub room :
      room_for (table_entries (snapshot db.mem.sl)) + (41 + length key + length value) < 2 ^ 32

flush_if_full-Kept :
    (env : Env) (o : FlushIo) (db : Db)
    → IsLawful env
    → IsSound env.search db
    → db.is_closed ≡ false
    → FitsTable (snapshot db.mem.sl)
    → Kept env db (flush_if_full env o db).0
unfolding flush_if_full
flush_if_full-Kept env o db law s is_open fits = elim (Bool-cases (should_flush db.mem)) [
  | inl t ↦ rw t (flush_locked-Kept env o db law s is_open fits)
  | inr f ↦ rw f (Kept-refl env db s)
]

pub guarded-open :
    (db : Db) (done : Outcome)
    → db.is_closed ≡ false
    → db.opts.read_only ≡ false
    → guarded db done ≡ done
unfolding guarded
guarded-open db done h g =
    if_false db.is_closed _ (if db.opts.read_only then (db, err read_only) else done) h
    ∙ if_false db.opts.read_only (db, err read_only) done g

-- How a write ends: the append fails, with no read changed; or it is given a number, and a read of
-- the key gives what was written, whatever the flush behind it does.
abbrev pub Ends : Env → Db → Entry → Result Wal.Error ℕ → Outcome → Type 0
Ends env db e appended r =
    IsSound env.search r.0
    × (((x : Wal.Error) × (appended ≡ err x)
          × (r.1 ≡ err (of_wal x))
          × ((k : Bytes) → db_get env r.0 k ≡ db_get env db k))
        ⊎ ((seq : ℕ) × (appended ≡ ok seq)
            × ((k : Bytes)
                → db_get env r.0 k
                  ≡ (if equal (key_of e) k then answer_of e else db_get env db k))))

-- The insertion into the memtable and the flush behind it.
inserted-Ends :
    (env : Env) (o : FlushIo) (coins : ℕ → Bool) (db : Db) (l : Log) (e : Entry)
    → IsLawful env
    → IsWritable env db (key_of e) e.value
    → e.key ≡ some (content e.key)
    → e.seq ≡ db.wal.next_seq + 1
    → l.next_seq ≡ e.seq
    → Ends env db e (ok e.seq) (flush_if_full env o (inserted db l coins e))
inserted-Ends env o coins db l e law h keyed q q' =
    let i =
      inserted-IsInserted env db l coins e h.sound h.is_open keyed (omega (arith, q))
        (omega (arith, q')) (omega (arith, q, q', h.number)) in
    let k =
      flush_if_full-Kept env o (inserted db l coins e) law i.sound h.is_open
        (inserted-FitsTable env.search db l coins e h.sound h.room) in
    (k.sound, inr (e.seq, refl, λ key. k.reads key ∙ i.reads key))

refused-Ends :
    (env : Env) (db : Db) (l : Log) (e : Entry) (x : Wal.Error)
    → IsSound env.search db
    → db.wal.next_seq + 1 < 2 ^ 64
    → Numbered db.wal (l, err x)
    → Ends env db e (err x) (record db { wal = l }, err (of_wal x))
refused-Ends env db l e x s number n =
    let k = Kept-wal env db l n.0 (omega (arith, n.1, number)) s in
    (k.sound, inl (x, refl, refl, k.reads))

put_logged-Ends :
    (env : Env) (o : FlushIo) (coins : ℕ → Bool) (db : Db) (key value : Bytes)
    (r : Log × Result Wal.Error ℕ)
    → IsLawful env
    → IsWritable env db key value
    → Numbered db.wal r
    → Ends env db
        (entry_put (some key) value (db.wal.next_seq + 1))
        r.1
        (put_logged env o coins db key value r)
unfolding put
put_logged-Ends env o coins db key value (l, err x) law h n =
    refused-Ends env db l (entry_put (some key) value (db.wal.next_seq + 1)) x h.sound h.number n
put_logged-Ends env o coins db key value (l, ok seq) law h n =
    let e = entry_put (some key) value in
    subst
      (λ (m : ℕ).
        Ends env db (e (db.wal.next_seq + 1)) (ok m)
          (flush_if_full env o (inserted db l coins (e m))))
      (sym n.0)
      (inserted-Ends env o coins db l (e (db.wal.next_seq + 1)) law h refl refl (n.1 ∙ n.0))

delete_logged-Ends :
    (env : Env) (o : FlushIo) (coins : ℕ → Bool) (db : Db) (key : Bytes)
    (r : Log × Result Wal.Error ℕ)
    → IsLawful env
    → IsWritable env db key []
    → Numbered db.wal r
    → Ends env db
        (entry_deleted (some key) (db.wal.next_seq + 1))
        r.1
        (delete_logged env o coins db key r)
unfolding delete
delete_logged-Ends env o coins db key (l, err x) law h n =
    refused-Ends env db l (entry_deleted (some key) (db.wal.next_seq + 1)) x h.sound h.number n
delete_logged-Ends env o coins db key (l, ok seq) law h n =
    let e = entry_deleted (some key) in
    subst
      (λ (m : ℕ).
        Ends env db (e (db.wal.next_seq + 1)) (ok m)
          (flush_if_full env o (inserted db l coins (e m))))
      (sym n.0)
      (inserted-Ends env o coins db l (e (db.wal.next_seq + 1)) law h refl refl (n.1 ∙ n.0))

pub nonempty_key : (key : Bytes) → 0 < length key → (length key == 0) ≡ false
nonempty_key key h = ground arith

-- A put with a key on an open, writable database in order, whatever the operating system answers to
-- the log and to the flush. Either the append to the log fails: that error is returned and no read
-- changes; or the append succeeds, and then a read of the key gives the value and a read of any
-- other key what it gave before, also where the flush behind it fails. The database is in order
-- again.
pub db_put-Ends :
    (env : Env) (w : Io) (o : FlushIo) (coins : ℕ → Bool) (db : Db) (key value : Bytes)
    → IsLawful env
    → IsWritable env db key value
    → IsSound env.search (db_put env w o coins db key value).0
      × (((x : Wal.Error) × ((append_put db.wal key value w).1 ≡ err x)
            × ((db_put env w o coins db key value).1 ≡ err (of_wal x))
            × ((k : Bytes) → db_get env (db_put env w o coins db key value).0 k ≡ db_get env db k))
          ⊎ ((seq : ℕ) × ((append_put db.wal key value w).1 ≡ ok seq)
              × ((k : Bytes)
                  → db_get env (db_put env w o coins db key value).0 k
                    ≡ (if equal key k then ok value else db_get env db k))))
unfolding db_put
db_put-Ends env w o coins db key value law h =
    let r = put_logged env o coins db key value (append_put db.wal key value w) in
    let e : db_put env w o coins db key value ≡ r =
      if_false (length key == 0) (db, err invalid) (guarded db r) (nonempty_key key h.keyed)
      ∙ guarded-open db r h.is_open h.writes in
    subst
      (λ (x : Outcome).
        Ends env db (entry_put (some key) value (db.wal.next_seq + 1))
          (append_put db.wal key value w).1 x)
      (sym e)
      (put_logged-Ends env o coins db key value (append_put db.wal key value w) law h
        (append_put-Numbered db.wal key value w h.number))

-- A delete of a key on an open, writable database in order, whatever the operating system answers to
-- the log and to the flush. Either the append to the log fails: that error is returned and no read
-- changes; or the append succeeds, and then the key is not found and a read of any other key gives
-- what it gave before, also where the flush behind it fails. The database is in order again.
pub db_delete-Ends :
    (env : Env) (w : Io) (o : FlushIo) (coins : ℕ → Bool) (db : Db) (key : Bytes)
    → IsLawful env
    → IsWritable env db key []
    → IsSound env.search (db_delete env w o coins db key).0
      × (((x : Wal.Error) × ((append_delete db.wal key w).1 ≡ err x)
            × ((db_delete env w o coins db key).1 ≡ err (of_wal x))
            × ((k : Bytes) → db_get env (db_delete env w o coins db key).0 k ≡ db_get env db k))
          ⊎ ((seq : ℕ) × ((append_delete db.wal key w).1 ≡ ok seq)
              × ((k : Bytes)
                  → db_get env (db_delete env w o coins db key).0 k
                    ≡ (if equal key k then err not_found else db_get env db k))))
unfolding db_delete
db_delete-Ends env w o coins db key law h =
    let r = delete_logged env o coins db key (append_delete db.wal key w) in
    let e : db_delete env w o coins db key ≡ r =
      if_false (length key == 0) (db, err invalid) (guarded db r) (nonempty_key key h.keyed)
      ∙ guarded-open db r h.is_open h.writes in
    subst
      (λ (x : Outcome).
        Ends env db (entry_deleted (some key) (db.wal.next_seq + 1)) (append_delete db.wal key w).1
          x)
      (sym e)
      (delete_logged-Ends env o coins db key (append_delete db.wal key w) law h
        (append_delete-Numbered db.wal key w h.number))
