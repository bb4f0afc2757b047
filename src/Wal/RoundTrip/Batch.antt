-- ===== src/Wal/RoundTrip/Batch.antt =====
-- Decoding the payload of a batch.
use go_durable_engine.Prelude.{
  ℕ, zero, suc, ◌+◌, ◌^◌, ◌≤◌, ◌<◌, ◌≡◌, refl, sym, ap, ◌∙◌, Bool, true, false, some, List, [], ◌∷◌,
  ◌++◌, ◌*◌, can_make-le, append-nil, append_assoc, arith, length, length-append, drop, get_elem?,
  ltb, ◌==◌, ok, Bytes, IsUint64, All,
}
use go_durable_engine.Bytes.{content}
use go_durable_engine.Varint.{encode_uint64, decode_uint64}
use go_durable_engine.Varint.Encode.{encode_uint64-onto, length-encode_uint64}
use go_durable_engine.Varint.RoundTrip.{decode-encode}
use go_durable_engine.Wal.{Record, BatchEntry, type_delete, type_batch}
use go_durable_engine.Wal.Encode.{entry_type, append_entry, append_entries, batch_payload, next}
use go_durable_engine.Wal.Decode.{copied, decode_entry, decode_entries, decode_batch, record_size}
use go_durable_engine.Wal.Scan.{peek_number, peek_entry, peek_entries, skip_over, peek_seq}
use go_durable_engine.Prelude.Pieces.{IsAt, IsAt-start, IsAt-next}
use go_durable_engine.Wal.RoundTrip.Pieces.{number_at-encode, sized, block_at-sized, length-sized}

-- The lengths of an entry stand in its payload as uint64s.
abbrev pub Fits : BatchEntry → Type 0
Fits e = length (content e.key) + length e.value < 2 ^ 62

-- What one entry adds to the payload, and what all of them do.
abbrev pub entry_bytes : ℕ → BatchEntry → Bytes
entry_bytes seq e =
    encode_uint64 [] seq ++ (entry_type e.deleted ∷ (sized (content e.key) ++ sized e.value))

abbrev pub entries_bytes : ℕ → List BatchEntry → Bytes
entries_bytes seq [] = []
entries_bytes seq (e ∷ es) = entry_bytes (seq + 1) e ++ entries_bytes (seq + 1) es

-- The records that a batch stands for, when `seq` was allocated last.
abbrev pub batch_record : ℕ → BatchEntry → Record
batch_record seq e = record {
  typ = entry_type e.deleted;
  key = copied (content e.key);
  value = e.value;
  seq = seq;
  deleted = e.deleted;
}

abbrev pub batch_records : ℕ → List BatchEntry → List Record
batch_records seq [] = []
batch_records seq (e ∷ es) = batch_record (seq + 1) e ∷ batch_records (seq + 1) es

append_entry-bytes :
    (payload : Bytes) (seq : ℕ) (e : BatchEntry)
    → IsUint64 seq
    → Fits e
    → append_entry payload seq e ≡ payload ++ entry_bytes seq e
unfolding append_entry
append_entry-bytes payload seq e hs hf = rw (encode_uint64-onto payload seq hs) (
    rw (encode_uint64-onto _ (length (content e.key)) (omega arith))
      (rw (encode_uint64-onto _ (length e.value) (omega arith)) (simp append_assoc)))

append_entries-bytes :
    (es : List BatchEntry) (payload : Bytes) (seq : ℕ)
    → IsUint64 (seq + length es)
    → All Fits es
    → append_entries payload seq es ≡ payload ++ entries_bytes seq es
unfolding append_entries
append_entries-bytes [] payload seq hs h = sym (append-nil payload)
append_entries-bytes (e ∷ es) payload seq hs h =
    let wraps : next seq ≡ seq + 1 = omega arith in
    rw wraps (
      append_entries-bytes es (append_entry payload (seq + 1) e) (seq + 1) (omega arith) h.1
      ∙ rw (append_entry-bytes payload (seq + 1) e (omega arith) h.0)
          (append_assoc payload (entry_bytes (seq + 1) e) (entries_bytes (seq + 1) es)))

-- A bound on the bytes of the entries.
abbrev pub entries_size : List BatchEntry → ℕ
entries_size [] = 0
entries_size (e ∷ es) = length (content e.key) + length e.value + 31 + entries_size es

pub length-entries_size : (es : List BatchEntry) → length es * record_size ≤ 3 * entries_size es
length-entries_size [] = omega arith
length-entries_size (e ∷ es) = omega (arith, length-entries_size es)

length-entries_bytes :
    (es : List BatchEntry) (seq : ℕ)
    → IsUint64 (seq + length es)
    → All Fits es
    → length (entries_bytes seq es) ≤ entries_size es
length-entries_bytes [] seq hs h = omega arith
length-entries_bytes (e ∷ es) seq hs h =
    let k = content e.key in
    omega (
      arith,
      length-append (entry_bytes (seq + 1) e) (entries_bytes (seq + 1) es),
      length-append (encode_uint64 [] (seq + 1))
          (entry_type e.deleted ∷ (sized k ++ sized e.value)),
      length-encode_uint64 (seq + 1) (omega arith),
      length-append (sized k) (sized e.value),
      length-sized k (omega (arith, h.0)),
      length-sized e.value (omega (arith, h.0)),
      length-entries_bytes es (seq + 1) (omega arith) h.1,
    )

pub length-batch_payload :
    (seq : ℕ) (es : List BatchEntry)
    → IsUint64 (seq + length es)
    → All Fits es
    → length (batch_payload seq es) ≤ entries_size es + 10
unfolding batch_payload
length-batch_payload seq es hs h =
    let number = encode_uint64 [] (length es) in
    omega (
      arith,
      ap length (append_entries-bytes es number seq hs h),
      length-append number (entries_bytes seq es),
      length-encode_uint64 (length es) (omega arith),
      length-entries_bytes es seq hs h,
    )

get_elem?-drop : (p : Bytes) (i c : ℕ) (r : Bytes) → drop i p ≡ c ∷ r → get_elem? p i ≡ some c
get_elem?-drop [] zero c r e = cc
get_elem?-drop [] (suc i) c r e = cc
get_elem?-drop (x ∷ p) zero c r e = cc
get_elem?-drop (x ∷ p) (suc i) c r e = get_elem?-drop p i c r e

entry_type-delete : (d : Bool) → (entry_type d == type_delete) ≡ d
entry_type-delete true = refl
entry_type-delete false = refl

pub peek_at :
    {p : Bytes} {off : ℕ} (x : ℕ) (r : Bytes)
    → IsUint64 x
    → IsAt p off (encode_uint64 [] x ++ r)
    → peek_number p off ≡ ok (x, length (encode_uint64 [] x))
unfolding peek_number
peek_at x r hx h = ground (arith, h.within, ap decode_uint64 h.tail, decode-encode x r hx)

entry_pieces :
    (seq : ℕ) (e : BatchEntry) (rest : Bytes)
    → entry_bytes seq e ++ rest
      ≡ encode_uint64 [] seq
        ++ (entry_type e.deleted ∷ (sized (content e.key) ++ (sized e.value ++ rest)))
entry_pieces seq e rest = simp append_assoc

module _ {p : Bytes} {off : ℕ} (seq : ℕ) (e : BatchEntry) (rest : Bytes) (hs : IsUint64 seq)
    (hf : Fits e) (small : length p < 2 ^ 63) (start : IsAt p off (entry_bytes seq e ++ rest)) where
  abbrev number : Bytes
  number = encode_uint64 [] seq

  abbrev key_at : ℕ
  key_at = off + length number + 1

  at_number :
      IsAt p off
        (number ++ (entry_type e.deleted ∷ (sized (content e.key) ++ (sized e.value ++ rest))))
  at_number = rw (entry_pieces seq e rest) at start

  at_type :
      IsAt p
        (off + length number)
        (entry_type e.deleted ∷ (sized (content e.key) ++ (sized e.value ++ rest)))
  at_type = IsAt-next number _ at_number

  at_key : IsAt p key_at (sized (content e.key) ++ (sized e.value ++ rest))
  at_key = IsAt-next (entry_type e.deleted ∷ []) _ at_type

  at_value : IsAt p (key_at + length (sized (content e.key))) (sized e.value ++ rest)
  at_value = IsAt-next (sized (content e.key)) _ at_key

  abbrev entry_end : ℕ
  entry_end = key_at + length (sized (content e.key)) + length (sized e.value)

  at_end : IsAt p entry_end rest
  at_end = IsAt-next (sized e.value) rest at_value

  decode_entry-bytes : decode_entry p off ≡ ok (batch_record seq e, entry_end)
  unfolding decode_entry
  decode_entry-bytes =
      let n = number_at-encode seq _ hs at_number in
      let k = block_at-sized (content e.key) _ small at_key in
      let v = block_at-sized e.value rest small at_value in
      let t = get_elem?-drop p (off + length number) _ _ at_type.tail in
      let guarded : ltb (off + length number) (length p) ≡ true = ground (arith, at_key.within) in
      rw n (rw (guarded, t) (rw k (rw v (rw (entry_type-delete e.deleted)))))

  peek_entry-bytes : peek_entry p off ≡ ok (seq, entry_end)
  unfolding peek_entry
  peek_entry-bytes =
      let key = content e.key in
      let k1 : IsAt p key_at (encode_uint64 [] (length key) ++ (key ++ (sized e.value ++ rest))) =
        rw (append_assoc (encode_uint64 [] (length key)) key (sized e.value ++ rest)) at at_key in
      let v1 : IsAt p (key_at + length (sized key))
          (encode_uint64 [] (length e.value) ++ (e.value ++ rest)) =
        rw (append_assoc (encode_uint64 [] (length e.value)) e.value rest) at at_value in
      let n = peek_at seq _ hs at_number in
      let k = peek_at (length key) _ (omega arith) k1 in
      let v = peek_at (length e.value) _ (omega arith) v1 in
      let guarded : ltb (off + length number) (length p) ≡ true = ground (arith, at_key.within) in
      let o3 : skip_over key_at (length (encode_uint64 [] (length key))) (length key)
          ≡ key_at + length (sized key) =
        omega (arith, length-append (encode_uint64 [] (length key)) key, at_value.within) in
      let o4 : skip_over (key_at + length (sized key)) (length (encode_uint64 [] (length e.value)))
            (length e.value)
          ≡ entry_end =
        omega (arith, length-append (encode_uint64 [] (length e.value)) e.value, at_end.within) in
      rw n (rw guarded (rw k (rw o3 (rw v (rw o4)))))

decode_entries-bytes :
    (es : List BatchEntry) {p : Bytes} {off : ℕ} (seq : ℕ) (rest : Bytes)
    → IsUint64 (seq + length es)
    → All Fits es
    → length p < 2 ^ 63
    → IsAt p off (entries_bytes seq es ++ rest)
    → decode_entries (length es) p off ≡ ok (batch_records seq es)
unfolding decode_entries
decode_entries-bytes [] seq rest hs h small start = refl
decode_entries-bytes (e ∷ es) {p} {off} seq rest hs h small start =
    let start' : IsAt p off (entry_bytes (seq + 1) e ++ (entries_bytes (seq + 1) es ++ rest)) =
      rw (append_assoc (entry_bytes (seq + 1) e) (entries_bytes (seq + 1) es) rest) at start in
    rw (decode_entry-bytes (seq + 1) e _ (omega arith) h.0 small start') (
      rw (
        decode_entries-bytes es (seq + 1) rest (omega arith) h.1 small
          (at_end (seq + 1) e _ (omega arith) h.0 small start')))

-- The largest number that the loop of `peekSeq` has seen when it ends.
abbrev peeked : ℕ → ℕ → List BatchEntry → ℕ
peeked best seq [] = best
peeked best seq (e ∷ es) = peeked (seq + 1) (seq + 1) es

peeked-last : (es : List BatchEntry) (seq : ℕ) → peeked seq seq es ≡ seq + length es
peeked-last [] seq = omega arith
peeked-last (e ∷ es) seq = omega (arith, peeked-last es (seq + 1))

peek_entries-bytes :
    (es : List BatchEntry) {p : Bytes} {off : ℕ} (best seq : ℕ) (rest : Bytes)
    → IsUint64 (seq + length es)
    → All Fits es
    → length p < 2 ^ 63
    → best ≤ seq
    → IsAt p off (entries_bytes seq es ++ rest)
    → peek_entries (length es) p off best ≡ ok (peeked best seq es)
unfolding peek_entries
peek_entries-bytes [] best seq rest hs h small hb start = refl
peek_entries-bytes (e ∷ es) {p} {off} best seq rest hs h small hb start =
    let start' : IsAt p off (entry_bytes (seq + 1) e ++ (entries_bytes (seq + 1) es ++ rest)) =
      rw (append_assoc (entry_bytes (seq + 1) e) (entries_bytes (seq + 1) es) rest) at start in
    let newer : ltb best (seq + 1) ≡ true = ground arith in
    rw (peek_entry-bytes (seq + 1) e _ (omega arith) h.0 small start') (
      rw newer (
        peek_entries-bytes es (seq + 1) (seq + 1) rest (omega arith) h.1 small (omega arith)
          (at_end (seq + 1) e _ (omega arith) h.0 small start')))

batch_payload-bytes :
    (seq : ℕ) (es : List BatchEntry)
    → IsUint64 (seq + length es)
    → All Fits es
    → batch_payload seq es ≡ encode_uint64 [] (length es) ++ entries_bytes seq es
unfolding batch_payload
batch_payload-bytes seq es hs h = append_entries-bytes es (encode_uint64 [] (length es)) seq hs h

-- The payload of a batch decodes to one record for each entry, in order, numbered one by one from
-- the number after the last allocated one; and the largest number that `peekSeq` finds in it is
-- that of the last entry. The entries are not more than their records can be made for.
pub decode_batch-batch_payload :
    (seq : ℕ) (e : BatchEntry) (es : List BatchEntry)
    → IsUint64 (seq + length (e ∷ es))
    → All Fits (e ∷ es)
    → length (batch_payload seq (e ∷ es)) < 2 ^ 63
    → length (e ∷ es) * record_size ≤ 2 ^ 48
    → (decode_batch (batch_payload seq (e ∷ es)) ≡ ok (batch_records seq (e ∷ es)))
      × (peek_seq type_batch (batch_payload seq (e ∷ es)) ≡ ok (seq + length (e ∷ es)))
unfolding decode_batch peek_seq
decode_batch-batch_payload seq e es hs h small made =
    let p = batch_payload seq (e ∷ es) in
    let n = encode_uint64 [] (length (e ∷ es)) in
    let b = entries_bytes seq (e ∷ es) in
    let pieces = batch_payload-bytes seq (e ∷ es) hs h in
    let at0 : IsAt p 0 (n ++ b) = rw (← pieces) (IsAt-start p) in
    let at1 : IsAt p (0 + length n) (b ++ []) = rw append-nil (IsAt-next n b at0) in
    let count = peek_at (length (e ∷ es)) b (omega arith) at0 in
    let zero_off : 0 + length n ≡ length n = omega arith in
    (
      rw (number_at-encode (length (e ∷ es)) b (omega arith) at0) (
          rw (can_make-le (length (e ∷ es)) record_size made)
            (decode_entries-bytes (e ∷ es) seq [] hs h small at1)),
      rw count (
          peek_entries-bytes (e ∷ es) 0 seq [] hs h small (omega arith) (rw zero_off at at1)
          ∙ ap ok (omega (arith, peeked-last es (seq + 1)))),
    )
