-- ===== src/Examples/Logs.antt =====
-- The write-ahead log at concrete inputs.
use go_durable_engine.Prelude.{
  ℕ, ◌+◌, ◌<◌, ◌≡◌, refl, inl, Bool, true, false, List, [], ◌∷◌, ◌++◌, arith, length, take, ok, err,
  Bytes, Result, some, All, length-append, replicate, ap,
}
use go_durable_engine.Varint.{encode_uint64}
use go_durable_engine.Wal.{Error, io, Record, BatchEntry, type_put, type_delete, type_batch}
use go_durable_engine.Wal.Encode.{encode_kv, batch_payload, frame}
use go_durable_engine.Wal.Decode.{decode_one, decode_batch}
use go_durable_engine.Wal.Scan.{scan_valid_prefix, peek_seq}
use go_durable_engine.Wal.RoundTrip.Pieces.{sized, encode_kv-sized, decode_one-encode_kv}
use go_durable_engine.Wal.RoundTrip.Batch.{
  Fits, batch_records, length-batch_payload, decode_batch-batch_payload,
}
use go_durable_engine.Wal.Ends.{IsScanned, scan_valid_prefix-IsScanned}
use go_durable_engine.Wal.Torn.{
  LogFrame, IsLogFrame, frames_bytes, IsTorn, short, scan_valid_prefix-torn, scan-cut_append,
  length-frame,
}
use go_durable_engine.Wal.Log.{
  Answer, Io, Options, Log, ResetIo, append_put, append_delete, append_batch, reset, open_log,
  replay_context,
}
use go_durable_engine.Wal.Log.Appends.{at_end, Holds, IsClean}
use go_durable_engine.Wal.Log.Adding.{
  kv_frame, kv_frame-IsLogFrame, length-encode_kv, batch_frame, append_put-Holds,
  append_delete-Holds, append_batch-Holds,
}
use go_durable_engine.Wal.Log.Recovery.{open_log-torn, reset-Holds, acknowledged_put_lost}
use go_durable_engine.Wal.Log.Calls.{Logged, Calls, put_record, replay_context-Calls}

abbrev key : Bytes
key = 107 ∷ []

abbrev value : Bytes
value = 118 ∷ 49 ∷ []

-- A log of one put.
abbrev one_put : List LogFrame
one_put = kv_frame type_put 1 key value ∷ []

one_put-All : All IsLogFrame one_put
one_put-All = (kv_frame-IsLogFrame type_put 1 key value (inl refl) (omega arith) (omega arith), tt)

abbrev tail : Bytes
tail = 5 ∷ 0 ∷ 0 ∷ []

tail-IsTorn : IsTorn tail
tail-IsTorn = short (omega arith)

abbrev opts : Options
opts = record { sync_every_n = 0; sync_on_write = true }

abbrev log : Log
log = record {
  file = at_end (frames_bytes one_put);
  opts = opts;
  appends = 1;
  is_closed = false;
  size = length (frames_bytes one_put);
  next_seq = 1;
  stable = [];
}

log-Holds : Holds log one_put
log-Holds = record {
  bytes = refl;
  size = refl;
  frames = one_put-All;
  seqs = omega arith;
  is_open = refl;
}

-- A disk that takes everything, and one that fails in the payload.
abbrev full : Answer
full = record { written = 1000; failed = false }

abbrev clean : Io
clean = record { injected = false; header_write = full; payload_write = full; sync_fails = false }

abbrev failing : Io
failing = record {
  injected = false;
  header_write = full;
  payload_write = record { written = 0; failed = true };
  sync_fails = false;
}

scan_valid_prefix-torn_example :
    scan_valid_prefix (frames_bytes one_put ++ tail) (length (frames_bytes one_put ++ tail))
    ≡ ok (length (frames_bytes one_put), 1)
scan_valid_prefix-torn_example = scan_valid_prefix-torn one_put tail one_put-All tail-IsTorn

scan_valid_prefix-IsScanned_example : IsScanned tail 3 0 (scan_valid_prefix tail 3)
scan_valid_prefix-IsScanned_example = scan_valid_prefix-IsScanned tail 3

scan-cut_append_example :
    (let file = frames_bytes one_put ++ take 4 (frame type_put value) in
      scan_valid_prefix file (length file) ≡ ok (length (frames_bytes one_put), 1))
scan-cut_append_example =
    scan-cut_append one_put type_put value 4 one_put-All (omega arith)
      (omega (arith, length-frame type_put value))

decode_one-encode_kv_example :
    decode_one type_delete (encode_kv 7 key [])
    ≡ ok (record { typ = type_delete; key = some key; value = []; seq = 7; deleted = true })
decode_one-encode_kv_example = decode_one-encode_kv type_delete 7 key [] (omega arith) (omega arith)

abbrev put_entry : BatchEntry
put_entry = record { key = some key; value = value; deleted = false }

abbrev delete_entry : BatchEntry
delete_entry = record { key = some key; value = []; deleted = true }

decode_batch-batch_payload_example :
    (decode_batch (batch_payload 4 (put_entry ∷ delete_entry ∷ []))
      ≡ ok (batch_records 4 (put_entry ∷ delete_entry ∷ [])))
    × (peek_seq type_batch (batch_payload 4 (put_entry ∷ delete_entry ∷ [])) ≡ ok 6)
decode_batch-batch_payload_example =
    decode_batch-batch_payload 4 put_entry (delete_entry ∷ []) (omega arith)
      (omega arith, (omega arith, tt))
      (omega (
        arith,
        length-batch_payload 4 (put_entry ∷ delete_entry ∷ []) (omega arith)
            (omega arith, (omega arith, tt)),
      ))
      (omega arith)

open_log-torn_example :
    (l : Log) × (open_log (frames_bytes one_put ++ tail) opts ≡ ok l)
    × Holds l one_put
    × (l.next_seq ≡ 1)
open_log-torn_example = open_log-torn one_put tail opts one_put-All tail-IsTorn

clean-IsClean : IsClean clean (encode_kv 2 key value)
clean-IsClean = record {
  not_injected = refl;
  header_full = (omega arith, refl);
  payload_full = (omega (arith, length-encode_kv 2 key value (omega arith) (omega arith)), refl);
  synced = refl;
}

append_put-Holds_example :
    ((append_put log key value clean).1 ≡ ok 2)
    × ((append_put log key value clean).0.next_seq ≡ 2)
    × Holds (append_put log key value clean).0 (one_put ++ kv_frame type_put 2 key value ∷ [])
append_put-Holds_example =
    append_put-Holds log one_put key value clean log-Holds (omega arith) (omega arith) clean-IsClean

abbrev reset_ok : ResetIo
reset_ok = record { truncate_fails = false; seek_fails = false; sync_fails = false }

append_delete-Holds_example :
    ((append_delete log key clean).1 ≡ ok 2)
    × ((append_delete log key clean).0.next_seq ≡ 2)
    × Holds (append_delete log key clean).0 (one_put ++ kv_frame type_delete 2 key [] ∷ [])
append_delete-Holds_example =
    append_delete-Holds log one_put key clean log-Holds (omega arith) (omega arith) (record {
      not_injected = refl;
      header_full = (omega arith, refl);
      payload_full = (omega (arith, length-encode_kv 2 key [] (omega arith) (omega arith)), refl);
      synced = refl;
    })

batch-Fits : All Fits (put_entry ∷ delete_entry ∷ [])
batch-Fits = (omega arith, (omega arith, tt))

append_batch-Holds_example :
    (let last : ℕ = 3 in
      ((append_batch log (put_entry ∷ delete_entry ∷ []) clean).1 ≡ ok last)
      × ((append_batch log (put_entry ∷ delete_entry ∷ []) clean).0.next_seq ≡ last)
      × Holds
          (append_batch log (put_entry ∷ delete_entry ∷ []) clean).0
          (one_put ++ batch_frame 1 last (put_entry ∷ delete_entry ∷ []) ∷ [])
      × (decode_batch (batch_payload 1 (put_entry ∷ delete_entry ∷ []))
          ≡ ok (batch_records 1 (put_entry ∷ delete_entry ∷ []))))
append_batch-Holds_example =
    append_batch-Holds log one_put put_entry (delete_entry ∷ []) clean log-Holds (omega arith)
      batch-Fits (omega arith)
      (record {
        not_injected = refl;
        header_full = (omega arith, refl);
        payload_full = (
          omega (
            arith,
            length-batch_payload 1 (put_entry ∷ delete_entry ∷ []) (omega arith) batch-Fits,
          ),
          refl,
        );
        synced = refl;
      })

reset-Holds_example :
    (false ≡ false
      → false ≡ false
      → Holds (reset log reset_ok).0 [] × ((reset log reset_ok).1 ≡ ok tt))
    × ((reset log reset_ok).0.next_seq ≡ 1)
reset-Holds_example = reset-Holds log one_put reset_ok log-Holds

-- A callback that collects the records.
abbrev collect : List Record → Record → Result Error (List Record)
collect recs r = ok (recs ++ r ∷ [])

abbrev never : ℕ → Bool
never k = false

one_put-Logged : Logged one_put (put_record 1 key value ∷ [])
one_put-Logged = Logged.put 1 key value (omega arith) (omega arith) Logged.start

replay_context-Calls_example :
    Calls collect [] (put_record 1 key value ∷ []) (replay_context log never collect []).1
replay_context-Calls_example =
    replay_context-Calls collect never log one_put (put_record 1 key value ∷ []) [] (λ k. refl)
      log-Holds one_put-Logged

abbrev long_value : Bytes
long_value = replicate 100 0

long_enough :
    0 + length (frame type_put (encode_kv 3 key value)) < length (encode_kv 2 key long_value)
long_enough = omega (
  arith,
  length-frame type_put (encode_kv 3 key value),
  length-encode_kv 3 key value (omega arith) (omega arith),
  ap length (encode_kv-sized 2 key long_value (omega arith) (omega arith) (omega arith)),
  length-append (encode_uint64 [] 2) (sized key ++ sized long_value),
  length-append (sized key) (sized long_value),
  length-append (encode_uint64 [] 100) long_value,
)

acknowledged_put_lost_example :
    (let l1 = append_put log key long_value failing in
      let l2 = append_put l1.0 key value clean in
      (l1.1 ≡ err io)
      × (l2.1 ≡ ok 3)
      × (l3 : Log) × (open_log l2.0.file.bytes opts ≡ ok l3)
      × Holds l3 one_put)
acknowledged_put_lost_example =
    acknowledged_put_lost log one_put key long_value key value failing clean opts log-Holds
      (omega arith) (omega arith) (omega arith) refl (omega arith, refl) refl
      (record {
        not_injected = refl;
        header_full = (omega arith, refl);
        payload_full =
            (omega (arith, length-encode_kv 3 key value (omega arith) (omega arith)), refl);
        synced = refl;
      })
      long_enough
