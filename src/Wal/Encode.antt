-- ===== src/Wal/Encode.antt =====
-- The payloads and frames of internal/wal/io.go.
use go_durable_engine.Prelude.{
  ℕ, ◌+◌, ◌%◌, ◌^◌, Bool, List, [], ◌∷◌, ◌++◌, length, if◌then◌else◌, Bytes,
}
use go_durable_engine.Bytes.{content}
use go_durable_engine.Bytes.Endian.{le_bytes}
use go_durable_engine.Crc.{frame_checksum}
use go_durable_engine.Varint.{encode_uint64}
use go_durable_engine.Wal.{BatchEntry, type_put, type_delete}

unfoldable pub encode_kv : ℕ → Bytes → Bytes → Bytes
encode_kv seq key value =
    let b1 = encode_uint64 [] seq in
    let b2 = encode_uint64 b1 (length key) in
    let b3 = b2 ++ key in let b4 = encode_uint64 b3 (length value) in b4 ++ value

-- The type byte of an entry inside a batch.
abbrev pub entry_type : Bool → ℕ
entry_type deleted = if deleted then type_delete else type_put

-- One round of the loop of `AppendBatch`, with the sequence number that it allocates.
unfoldable pub append_entry : Bytes → ℕ → BatchEntry → Bytes
append_entry payload seq e =
    let p1 = encode_uint64 payload seq in
    let p2 = p1 ++ entry_type e.deleted ∷ [] in
    let p3 = encode_uint64 p2 (length (content e.key)) in
    let p4 = p3 ++ content e.key in let p5 = encode_uint64 p4 (length e.value) in p5 ++ e.value

-- The number that is allocated after `seq`.
abbrev pub next : ℕ → ℕ
next seq = (seq + 1) % 2 ^ 64

-- `seq` is the number that was allocated last.
unfoldable pub append_entries : Bytes → ℕ → List BatchEntry → Bytes
append_entries payload seq [] = payload
append_entries payload seq (e ∷ es) =
    append_entries (append_entry payload (next seq) e) (next seq) es

unfoldable pub batch_payload : ℕ → List BatchEntry → Bytes
unfolding append_entries
batch_payload seq entries = append_entries (encode_uint64 [] (length entries)) seq entries

-- The nine bytes of `hdr`, and the frame that `writeFrame` writes in two parts.
unfoldable pub header : ℕ → Bytes → Bytes
header typ payload = le_bytes 4 (length payload) ++ typ ∷ le_bytes 4 (frame_checksum typ payload)

unfoldable pub frame : ℕ → Bytes → Bytes
unfolding header
frame typ payload = header typ payload ++ payload
