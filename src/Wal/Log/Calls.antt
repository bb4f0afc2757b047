-- ===== src/Wal/Log/Calls.antt =====
-- The calls of the callback in a replay of what the appends wrote.
use mathlib.Core.Path.{subst}
use go_durable_engine.Prelude.{
  ℕ, ◌+◌, ◌^◌, ◌≤◌, ◌≡◌, refl, sym, ap, ◌∙◌, Bool, true, false, List, [], ◌∷◌, ◌++◌, arith, length,
  Result, ok, err, ◌>>=◌, Bytes, IsUint64, All, inl, inr, Result-cases,
}
use go_durable_engine.Wal.{Error, Record, BatchEntry, type_put, type_delete, type_batch}
use go_durable_engine.Wal.Encode.{encode_kv, batch_payload}
use go_durable_engine.Wal.Decode.{copied, decode_frame}
use go_durable_engine.Wal.Scan.{feed}
use go_durable_engine.Wal.Torn.{LogFrame}
use go_durable_engine.Wal.RoundTrip.Pieces.{decode_one-encode_kv}
use go_durable_engine.Wal.RoundTrip.Batch.{
  Fits, batch_records, entries_size, length-batch_payload, length-entries_size,
  decode_batch-batch_payload,
}
use go_durable_engine.Wal.Log.{Log, replay_context}
use go_durable_engine.Wal.Log.Appends.{Holds}
use go_durable_engine.Wal.Log.Adding.{kv_frame, Accepted, batch_frame}
use go_durable_engine.Wal.Log.Replay.{frame_records, records_of, Decodes, replay_context-feed}

-- The record of a put.
abbrev pub put_record : ℕ → Bytes → Bytes → Record
put_record seq key value = record {
  typ = type_put;
  key = copied key;
  value = value;
  seq = seq;
  deleted = false;
}

pub decode_frame-put :
    (seq : ℕ) (key value : Bytes)
    → IsUint64 seq
    → Accepted key value
    → decode_frame type_put (encode_kv seq key value) ≡ ok (put_record seq key value ∷ [])
unfolding decode_frame
decode_frame-put seq key value hs hl =
    ap (λ (r : Result Error Record). r >>= λ x. ok (x ∷ []))
      (decode_one-encode_kv type_put seq key value hs (omega arith))

-- The record of a delete.
abbrev delete_record : ℕ → Bytes → Record
delete_record seq key = record {
  typ = type_delete;
  key = copied key;
  value = [];
  seq = seq;
  deleted = true;
}

decode_frame-delete :
    (seq : ℕ) (key : Bytes)
    → IsUint64 seq
    → Accepted key []
    → decode_frame type_delete (encode_kv seq key []) ≡ ok (delete_record seq key ∷ [])
unfolding decode_frame
decode_frame-delete seq key hs hl =
    ap (λ (r : Result Error Record). r >>= λ x. ok (x ∷ []))
      (decode_one-encode_kv type_delete seq key [] hs (omega arith))

-- A batch that `writeFrame` accepts, behind the number `seq`.
pub record AcceptedBatch (seq : ℕ) (es : List BatchEntry) : Type 0 where
  pub number : IsUint64 (seq + length es)
  pub fits : All Fits es
  pub small : entries_size es + 10 ≤ 2 ^ 28

decode_frame-batch :
    (seq : ℕ) (e : BatchEntry) (es : List BatchEntry)
    → AcceptedBatch seq (e ∷ es)
    → decode_frame type_batch (batch_payload seq (e ∷ es)) ≡ ok (batch_records seq (e ∷ es))
unfolding decode_frame
decode_frame-batch seq e es a =
    (decode_batch-batch_payload seq e es a.number a.fits
      (omega (arith, a.small, length-batch_payload seq (e ∷ es) a.number a.fits))
      (omega (arith, a.small, length-entries_size (e ∷ es)))).0

-- The frames that puts, deletes and batches wrote, and the records that they stand for.
pub data Logged : List LogFrame → List Record → Type 0 where
  start : Logged [] []
  put :
      {fs : List LogFrame} {recs : List Record} (seq : ℕ) (key value : Bytes)
      → IsUint64 seq
      → Accepted key value
      → Logged fs recs
      → Logged (kv_frame type_put seq key value ∷ fs) (put_record seq key value ∷ recs)
  delete :
      {fs : List LogFrame} {recs : List Record} (seq : ℕ) (key : Bytes)
      → IsUint64 seq
      → Accepted key []
      → Logged fs recs
      → Logged (kv_frame type_delete seq key [] ∷ fs) (delete_record seq key ∷ recs)
  batch :
      {fs : List LogFrame} {recs : List Record} (seq last : ℕ) (e : BatchEntry)
      (es : List BatchEntry)
      → AcceptedBatch seq (e ∷ es)
      → Logged fs recs
      → Logged (batch_frame seq last (e ∷ es) ∷ fs) (batch_records seq (e ∷ es) ++ recs)

with_records :
    (f : LogFrame) (fs : List LogFrame) {recs : List Record} (rs : List Record)
    → decode_frame f.typ f.payload ≡ ok rs
    → All Decodes fs × (records_of fs ≡ recs)
    → All Decodes (f ∷ fs) × (records_of (f ∷ fs) ≡ rs ++ recs)
with_records f fs {recs} rs d rest = (
  ((rs, d), rest.0),
  ap (λ (r : Result Error (List Record)). frame_records r ++ records_of fs) d
      ∙ ap (λ (t : List Record). rs ++ t) rest.1,
)

Logged-records :
    {fs : List LogFrame} {recs : List Record}
    → Logged fs recs
    → All Decodes fs × (records_of fs ≡ recs)
Logged-records start = (tt, refl)
Logged-records (put seq key value hs hl l) =
    with_records (kv_frame type_put seq key value) _ (put_record seq key value ∷ [])
      (decode_frame-put seq key value hs hl) (Logged-records l)
Logged-records (delete seq key hs hl l) =
    with_records (kv_frame type_delete seq key []) _ (delete_record seq key ∷ [])
      (decode_frame-delete seq key hs hl) (Logged-records l)
Logged-records (batch seq last e es a l) =
    with_records (batch_frame seq last (e ∷ es)) _ (batch_records seq (e ∷ es))
      (decode_frame-batch seq e es a) (Logged-records l)

module _ {S : Type 0} (fn : S → Record → Result Error S) where
  -- The callback is called on the records in order, each time on the state that the call in front
  -- of it left, up to its first error, which is the result.
  pub data Calls : S → List Record → Result Error S → Type 0 where
    ended : (s : S) → Calls s [] (ok s)
    failed :
        (s : S) (r : Record) (recs : List Record) (e : Error)
        → fn s r ≡ err e
        → Calls s (r ∷ recs) (err e)
    called :
        (s s' : S) (r : Record) (recs : List Record) (x : Result Error S)
        → fn s r ≡ ok s'
        → Calls s' recs x
        → Calls s (r ∷ recs) x

  feed-Calls : (recs : List Record) (s : S) → Calls s recs (feed fn s recs)
  unfolding feed
  feed-Calls [] s = ended s
  feed-Calls (r ∷ recs) s = elim (Result-cases (fn s r)) [
    | inl (s', e) ↦ rw e (called s s' r recs (feed fn s' recs) e (feed-Calls recs s'))
    | inr (x, e) ↦ rw e (failed s r recs x e)
  ]

  -- A replay of a log in order that puts, deletes and batches wrote, in a context that is not
  -- cancelled, calls the callback on exactly their records, from the first to the last, up to its
  -- first error, which it returns.
  pub replay_context-Calls :
      (ctx : ℕ → Bool) (l : Log) (fs : List LogFrame) (recs : List Record) (s : S)
      → ((k : ℕ) → ctx k ≡ false)
      → Holds l fs
      → Logged fs recs
      → Calls s recs (replay_context l ctx fn s).1
  replay_context-Calls ctx l fs recs s running h w =
      let d = Logged-records w in
      let e =
        replay_context-feed fn ctx running l fs s h d.0
        ∙ ap (λ (t : List Record). feed fn s t) d.1 in
      subst (Calls s recs) (sym e) (feed-Calls recs s)
