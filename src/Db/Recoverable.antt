-- ===== src/Db/Recoverable.antt =====
-- What the log holds of a put behind which no flush is due, and the database that it leaves.
use mathlib.Core.Path.{subst}
use go_durable_engine.Prelude.{
  ℕ, ◌+◌, ◌<◌, ◌≡◌, refl, sym, ap, ◌∙◌, Bool, false, some, List, [], ◌∷◌, ◌++◌, append_assoc, arith,
  length, ◌==◌, if_false, ok, err, Bytes, IsUint64, All-append,
}
use go_durable_engine.Wal.{Record, type_put}
use go_durable_engine.Wal.Encode.{encode_kv}
use go_durable_engine.Wal.Decode.{copied, decode_frame}
use go_durable_engine.Wal.Torn.{LogFrame}
use go_durable_engine.Wal.Log.{Io, append_put}
use go_durable_engine.Wal.Log.Appends.{IsClean}
use go_durable_engine.Wal.Log.Adding.{kv_frame, Accepted, append_put-Holds}
use go_durable_engine.Wal.Log.Replay.{frame_records, records_of, Decodes}
use go_durable_engine.Wal.Log.Calls.{put_record, decode_frame-put}
use go_durable_engine.Memtable.{Entry, put, should_flush}
use go_durable_engine.Memtable.Contents.{insert_entry}
use go_durable_engine.Memtable.Invariant.{Represents}
use go_durable_engine.Memtable.Operations.{set_entry-insert_entry}
use go_durable_engine.Memtable.Refinement.{entry_put}
use go_durable_engine.Db.{invalid, Db, Env}
use go_durable_engine.Db.Write.{FlushIo, guarded, put_logged, flush_if_full, db_put}
use go_durable_engine.Db.Puts.{IsWritable, guarded-open, nonempty_key}
use go_durable_engine.Db.Recovery.{record_entry, replayed_onto, IsRecoverable}

replayed_onto-append :
    (recs more : List Record) (es : List Entry)
    → replayed_onto es (recs ++ more) ≡ replayed_onto (replayed_onto es recs) more
replayed_onto-append [] more es = refl
replayed_onto-append (r ∷ recs) more es =
    replayed_onto-append recs more (insert_entry (record_entry r) es)

records_of-append : (fs gs : List LogFrame) → records_of (fs ++ gs) ≡ records_of fs ++ records_of gs
records_of-append [] gs = refl
records_of-append (f ∷ fs) gs =
    let recs = frame_records (decode_frame f.typ f.payload) in
    ap (λ (t : List Record). recs ++ t) (records_of-append fs gs)
    ∙ sym (append_assoc recs (records_of fs) (records_of gs))

copied-some : (key : Bytes) → 0 < length key → copied key ≡ some key
copied-some [] h = absurd (omega arith)
copied-some (c ∷ key) h = refl

-- The memtable behind a put holds what the longer log brings back.
pub put-replayed :
    (db : Db) (fs : List LogFrame) (coins : ℕ → Bool) (seq : ℕ) (key value : Bytes)
    → Represents db.mem.sl (replayed_onto [] (records_of fs))
    → IsUint64 seq
    → Accepted key value
    → 0 < length key
    → Represents
        (put db.mem.sl coins (some key) value seq)
        (replayed_onto [] (records_of (fs ++ kv_frame type_put seq key value ∷ [])))
unfolding put
put-replayed db fs coins seq key value rep hs hl keyed =
    let e = entry_put (some key) value seq in
    let f = kv_frame type_put seq key value in
    let es = replayed_onto [] (records_of fs) in
    let one : records_of (f ∷ []) ≡ put_record seq key value ∷ [] =
      ap (λ r. frame_records r ++ []) (decode_frame-put seq key value hs hl) in
    let whole : replayed_onto [] (records_of (fs ++ f ∷ [])) ≡ insert_entry e es =
      ap (replayed_onto []) (records_of-append fs (f ∷ []))
      ∙ replayed_onto-append (records_of fs) (records_of (f ∷ [])) []
      ∙ ap (replayed_onto es) one
      ∙ ap (λ k. insert_entry (entry_put k value seq) es) (copied-some key keyed) in
    subst (Represents (put db.mem.sl coins (some key) value seq)) (sym whole)
      (set_entry-insert_entry db.mem.sl coins e es rep)

-- A put behind which no flush is due, on an open, writable and recoverable database in order, of a
-- key and a value that the log accepts, with nothing going wrong in the log: it succeeds, and the
-- database is recoverable again.
pub db_put-IsRecoverable :
    (env : Env) (w : Io) (o : FlushIo) (coins : ℕ → Bool) (db : Db) (key value : Bytes)
    → IsWritable env db key value
    → IsRecoverable env db
    → Accepted key value
    → IsClean w (encode_kv (db.wal.next_seq + 1) key value)
    → should_flush
        (record db.mem { sl = put db.mem.sl coins (some key) value (db.wal.next_seq + 1) })
      ≡ false
    → ((db_put env w o coins db key value).1 ≡ ok tt)
      × IsRecoverable env (db_put env w o coins db key value).0
unfolding db_put flush_if_full
db_put-IsRecoverable env w o coins db key value h d hl c room =
    let seq = db.wal.next_seq + 1 in
    let a = append_put-Holds db.wal d.frames key value w d.holds h.number hl c in
    let r = put_logged env o coins db key value (append_put db.wal key value w) in
    let l = (append_put db.wal key value w).0 in
    let db' : Db = record db {
      wal = l;
      mem = record db.mem { sl = put db.mem.sl coins (some key) value seq };
    } in
    let pair : append_put db.wal key value w ≡ (l, ok seq) = ap (λ x. (l, x)) a.0 in
    let e : db_put env w o coins db key value ≡ (db', ok tt) =
      if_false (length key == 0) (db, err invalid) (guarded db r) (nonempty_key key h.keyed)
      ∙ guarded-open db r h.is_open h.writes
      ∙ ap (put_logged env o coins db key value) pair
      ∙ if_false (should_flush db'.mem) _ (db', ok tt) room in
    rw e (
      refl,
      record {
        frames = d.frames ++ kv_frame type_put seq key value ∷ [];
        holds = a.2;
        decodes =
            All-append Decodes d.frames (kv_frame type_put seq key value ∷ []) d.decodes
              ((put_record seq key value ∷ [], decode_frame-put seq key value h.number hl), tt);
        contents = put-replayed db d.frames coins seq key value d.contents h.number hl h.keyed;
        manifest = d.manifest;
        tables = d.tables;
      },
    )
