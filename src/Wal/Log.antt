-- ===== src/Wal/Log.antt =====
-- The log object of internal/wal/io.go, with its file, as functions from state to state and result.
-- What the operating system answers to the writes of one append is an argument (`Io`).
pub mod Appends
pub mod Adding
pub mod Recovery
pub mod Replay
pub mod Calls
use go_durable_engine.Prelude.{
  ℕ, zero, suc, ◌+◌, ◌-◌, ◌^◌, ◌%◌, ◌<◌, Bool, true, false, not, ◌&&◌, ◌||◌, List, [], ◌∷◌, ◌++◌,
  length, take, drop, replicate, min, ltb, leb, ◌==◌, if◌then◌else◌, Result, ok, err, ◌>>=◌, Bytes,
}
use go_durable_engine.Bytes.{content}
use go_durable_engine.Wal.{
  Error, closed, too_large, io, cancelled, short_write, Record, BatchEntry, type_put, type_delete,
  type_batch, header_size,
}
use go_durable_engine.Wal.Encode.{encode_kv, next, batch_payload, header}
use go_durable_engine.Wal.Scan.{scan_valid_prefix, replay_loop}

-- The content of the file and the offset of the next write.
pub record File : Type 0 where
  pub bytes : Bytes
  pub pos : ℕ

-- How a `Write` ends: how many bytes reach the file, and whether it returns an error.
pub record Answer : Type 0 where
  pub written : ℕ
  pub failed : Bool

-- What happens in one append: an injected error, the two writes, and the sync.
pub record Io : Type 0 where
  pub injected : Bool
  pub header_write : Answer
  pub payload_write : Answer
  pub sync_fails : Bool

pub record Options : Type 0 where
  pub sync_every_n : ℕ
  pub sync_on_write : Bool

-- `stable` is no field of the source: the content that the last sync has put on the disk for sure,
-- where a loss of power may take back what was written since.
pub record Log : Type 0 where
  pub file : File
  pub opts : Options
  pub appends : ℕ
  pub is_closed : Bool
  pub size : ℕ
  pub next_seq : ℕ
  pub stable : Bytes

-- The file after `d` was written at its offset; a gap behind the end is filled with zeros.
unfoldable pub write_at : File → Bytes → File
write_at f d = record {
  bytes =
      take f.pos (f.bytes ++ replicate (f.pos - length f.bytes) 0)
      ++ (d ++ drop (f.pos + length d) f.bytes);
  pos = f.pos + length d;
}

-- `n, err := l.f.Write(d)` with the two tests behind it.
unfoldable pub write_all : File → Bytes → Answer → File × Result Error (Unit {0})
write_all f d a =
    let n = min a.written (length d) in
    (
      write_at f (take n d),
      if a.failed then err io else if n == length d then ok tt else err short_write,
    )

-- After the last write: the counters move only if it succeeded.
abbrev pub written : Log → Bytes → File × Result Error (Unit {0}) → Log × Result Error (Unit {0})
written l payload (f, err e) = (record l { file = f }, err e)
written l payload (f, ok _) = (
  record l { file = f; size = l.size + (header_size + length payload); appends = l.appends + 1 },
  ok tt,
)

-- After the header, whose result decides whether a payload is written; an empty one is not.
abbrev pub header_written :
    Log → Bytes → Answer → File × Result Error (Unit {0}) → Log × Result Error (Unit {0})
header_written l payload a (f, err e) = (record l { file = f }, err e)
header_written l payload a (f, ok _) =
    written l payload (if length payload == 0 then (f, ok tt) else write_all f payload a)

unfoldable pub write_frame : Log → ℕ → Bytes → Io → Log × Result Error (Unit {0})
write_frame l typ payload o =
    if o.injected
    then (l, err io)
    else if ltb (2 ^ 28) (length payload)
    then (l, err too_large)
    else header_written l payload o.payload_write
        (write_all l.file (header typ payload) o.header_write)

-- Whether this append is followed by a sync.
unfoldable pub syncs : Log → Bool
syncs l =
    if ltb 0 l.opts.sync_every_n then l.appends % l.opts.sync_every_n == 0 else l.opts.sync_on_write

unfoldable pub maybe_sync : Log → Io → Result Error (Unit {0})
unfolding syncs
maybe_sync l o = if syncs l && o.sync_fails then err io else ok tt

abbrev pub stabilized : Bool → Log → Log
stabilized is_synced l = record l { stable = if is_synced then l.file.bytes else l.stable }

-- The file after the sync that may follow an append.
abbrev pub flushed : Io → Log → Log
flushed o l = stabilized (syncs l && not o.sync_fails) l

-- The frame, then the sync; `seq` is returned when both succeed.
abbrev pub finish_append : ℕ → Io → Log × Result Error (Unit {0}) → Log × Result Error ℕ
finish_append seq o (l, err e) = (l, err e)
finish_append seq o (l, ok _) = (flushed o l, maybe_sync l o >>= λ _. ok seq)

unfoldable pub append_put : Log → Bytes → Bytes → Io → Log × Result Error ℕ
unfolding maybe_sync
append_put l key value o =
    if l.is_closed
    then (l, err closed)
    else let seq = next l.next_seq in
      finish_append seq o
        (write_frame (record l { next_seq = seq }) type_put (encode_kv seq key value) o)

unfoldable pub append_delete : Log → Bytes → Io → Log × Result Error ℕ
unfolding maybe_sync
append_delete l key o =
    if l.is_closed
    then (l, err closed)
    else let seq = next l.next_seq in
      finish_append seq o
        (write_frame (record l { next_seq = seq }) type_delete (encode_kv seq key []) o)

-- The numbers of a batch are allocated one by one; the last one is returned.
unfoldable pub append_batch : Log → List BatchEntry → Io → Log × Result Error ℕ
unfolding maybe_sync
append_batch l entries o =
    if l.is_closed
    then (l, err closed)
    else if length entries == 0
    then (l, ok l.next_seq)
    else let last = (l.next_seq + length entries) % 2 ^ 64 in
      finish_append last o
        (write_frame (record l { next_seq = last }) type_batch (batch_payload l.next_seq entries) o)

-- Which of the calls of the operating system fail in a reset.
pub record ResetIo : Type 0 where
  pub truncate_fails : Bool
  pub seek_fails : Bool
  pub sync_fails : Bool

-- `Truncate(0)`, `Seek(0)` and the sync. A file that was cut off may be empty on the disk.
unfoldable pub reset : Log → ResetIo → Log × Result Error (Unit {0})
reset l o =
    if l.is_closed
    then (l, err closed)
    else if o.truncate_fails
    then (l, err io)
    else if o.seek_fails
    then (record l { file = record { bytes = []; pos = l.file.pos }; stable = [] }, err io)
    else (
      record l { file = record { bytes = []; pos = 0 }; size = 0; appends = 0; stable = [] },
      if o.sync_fails then err io else ok tt,
    )

unfoldable pub sync : Log → Bool → Log × Result Error (Unit {0})
sync l sync_fails =
    if l.is_closed
    then (l, err closed)
    else (stabilized (not sync_fails) l, if sync_fails then err io else ok tt)

-- A second `Close` does nothing.
unfoldable pub close : Log → Bool → Bool → Log × Result Error (Unit {0})
close l sync_fails close_fails = if l.is_closed then (l, ok tt) else (
  stabilized (not sync_fails) (record l { is_closed = true }),
  if sync_fails || close_fails then err io else ok tt,
)

unfoldable pub set_next_seq : Log → ℕ → Log
set_next_seq l seq = if ltb l.next_seq seq then record l { next_seq = seq } else l

-- What is behind the valid prefix is cut off, and the next write goes to the end.
unfoldable pub recover_tail : Log → Result Error Log
recover_tail l =
    let bytes = l.file.bytes in
    if l.size == 0 then ok l else (do
      (valid_end, max_seq) ← scan_valid_prefix bytes l.size
      ok (
          if ltb valid_end l.size
          then record l {
            file = record { bytes = take valid_end bytes; pos = valid_end };
            size = valid_end;
            next_seq = max_seq;
          }
          else record l {
            file = record { bytes = bytes; pos = length bytes };
            next_seq = max_seq;
          }))

-- `Open` on a file with this content.
unfoldable pub open_log : Bytes → Options → Result Error Log
unfolding recover_tail
open_log bytes opts = recover_tail (record {
  file = record { bytes = bytes; pos = 0 };
  opts = opts;
  appends = 0;
  is_closed = false;
  size = length bytes;
  next_seq = 0;
  stable = [];
})

-- A failed replay returns before the offset of the file is restored.
abbrev pub replayed {ℓ} : {S : Type ℓ} → Log → Result Error S → Log × Result Error S
replayed l (ok s) = (record l { file = record { bytes = l.file.bytes; pos = l.size } }, ok s)
replayed l (err e) = (record l { file = record { bytes = l.file.bytes; pos = 0 } }, err e)

unfoldable pub replay_context {ℓ} :
    {S : Type ℓ} → Log → (ℕ → Bool) → (S → Record → Result Error S) → S → Log × Result Error S
replay_context l ctx fn s =
    if l.is_closed
    then (l, err closed)
    else if ctx 0
    then (l, err cancelled)
    else replayed l (replay_loop (l.size + 1) ctx 1 fn l.file.bytes l.size 0 s)
