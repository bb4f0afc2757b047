-- ===== src/Db/Fresh.antt =====
-- The first opening, of a directory in which there is nothing.
use go_durable_engine.Prelude.{
  ℕ, ◌≡◌, refl, ◌∙◌, Bool, false, Option, none, some, [], arith, ok, err, Bytes,
}
use go_durable_engine.Wal.Torn.{short}
use go_durable_engine.Wal.Log.{Log, set_next_seq, open_log}
use go_durable_engine.Wal.Log.Recovery.{open_log-torn}
use go_durable_engine.Memtable.{new_mem_table}
use go_durable_engine.Memtable.Contents.{find_entry}
use go_durable_engine.Memtable.Operations.{new-Represents}
use go_durable_engine.Manifest.Codec.{Json, decode}
use go_durable_engine.Manifest.Store.{
  Manifest, persist, open_manifest, empty_state, max_seq_among_files, max_seq_loop,
}
use go_durable_engine.Db.{not_found, Options, normalize, wal_opts, Db, Env}
use go_durable_engine.Db.Read.{db_get, table_answer}
use go_durable_engine.Db.Open.{
  Disk, OpenIo, open_tables, recovered_seq, replay_wal_context, open_parts, open_context,
}
use go_durable_engine.Db.Sound.{IsSound, view, db_get-Represents}
use go_durable_engine.Db.Serving.{best_in}
use go_durable_engine.Db.Flushing.{set_next_seq-next_seq}
use go_durable_engine.Db.Recovery.{
  IsRecoverable, OpensClean, open_context-clean, replay_wal_context-Represents, set_next_seq-Holds,
}
use go_durable_engine.Db.Flushed.{IsReadBack}

abbrev first_manifest : Json → Bytes → Manifest
first_manifest j now = record {
  state = empty_state now;
  stored = some (j.to_json (empty_state now));
}

open_manifest-first :
    (j : Json) (now : Bytes) (fails : Bool)
    → fails ≡ false
    → open_manifest j now fails none ≡ ok (first_manifest j now)
unfolding open_manifest persist
open_manifest-first j now fails h = rw h refl

open_manifest-again :
    (j : Json) (now later : Bytes) (fails : Bool)
    → IsReadBack j (empty_state now)
    → open_manifest j later fails (first_manifest j now).stored ≡ ok (first_manifest j now)
unfolding open_manifest decode
open_manifest-again j now later fails q = rw (q.1, q.0) refl

abbrev nothing : Disk
nothing = record { manifest = none; wal = []; files = λ p. none }

-- The database that the opening makes in front of the replay.
abbrev unfilled : Env → OpenIo → Options → Log → Db
unfilled env o opts l = record {
  opts = opts;
  wal = set_next_seq l (recovered_seq (first_manifest env.json o.now));
  mem = new_mem_table opts.memtable_bytes;
  manif = first_manifest env.json o.now;
  tables = [];
  is_closed = false;
  files = λ p. none;
}

open_parts-nothing :
    (env : Env) (o : OpenIo) (ctx : ℕ → Bool) (coins : ℕ → ℕ → Bool) (opts : Options) (l : Log)
    → o.persist_fails ≡ false
    → open_log [] (wal_opts opts) ≡ ok l
    → open_parts env o ctx coins opts nothing ≡ replay_wal_context ctx coins (unfilled env o opts l)
unfolding open_parts open_tables
open_parts-nothing env o ctx coins opts l h el =
    rw (open_manifest-first env.json o.now o.persist_fails h) (rw el refl)

view-nothing : (key : Bytes) → table_answer (ok (view key [] [])) ≡ err not_found
unfolding find_entry best_in
view-nothing key = refl

-- The opening of an empty directory in which nothing goes wrong: it succeeds with any options, and
-- the database is in order and recoverable, and finds no key. JSON
-- reads back the empty state.
pub open_context-nothing :
    (env : Env) (o : OpenIo) (ctx : ℕ → Bool) (coins : ℕ → ℕ → Bool) (opts : Option Options)
    → IsReadBack env.json (empty_state o.now)
    → OpensClean o ctx
    → o.persist_fails ≡ false
    → (db : Db) × (open_context env o ctx coins opts
          (record { manifest = none; wal = []; files = λ p. none })
        ≡ ok db)
      × IsSound env.search db
      × IsRecoverable env db
      × ((key : Bytes) → db_get env db key ≡ err not_found)
open_context-nothing env o ctx coins opts back c written =
    let opts' = normalize opts in
    let m = first_manifest env.json o.now in
    let (l, el, hl, ql) = open_log-torn [] [] (wal_opts opts') tt (short (omega arith)) in
    let db0 = unfilled env o opts' l in
    let number : recovered_seq m ≡ 0 =
      unfold recovered_seq max_seq_among_files max_seq_loop in refl in
    let r =
      replay_wal_context-Represents ctx coins db0 [] c.running
        (set_next_seq-Holds l [] (recovered_seq m) hl) tt
        (unfold new_mem_table in new-Represents) in
    let db : Db = record db0 { wal = r.0; mem = record db0.mem { sl = r.1 } } in
    let limit =
      set_next_seq-next_seq l (recovered_seq m) (omega (arith, ql)) (omega (arith, number)) in
    (
      db,
      open_context-clean env o ctx coins opts nothing c
          ∙ open_parts-nothing env o ctx coins opts' l written el
          ∙ r.2,
      record {
        es = [];
        rep = r.3;
        keyed = tt;
        seqs = tt;
        stores = [];
        serve = tt;
        old = λ key. tt;
        newest = λ key e q. tt;
        limit = omega (arith, limit.1, r.5);
      },
      record {
        frames = [];
        holds = r.4;
        decodes = tt;
        contents = r.3;
        manifest = λ now fails. (m, open_manifest-again env.json o.now now fails back, refl);
        tables = unfold open_tables in refl;
      },
      λ key. db_get-Represents env db [] [] key r.3 tt refl ∙ view-nothing key,
    )
