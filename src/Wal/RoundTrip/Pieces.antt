-- ===== src/Wal/RoundTrip/Pieces.antt =====
-- Decoding the payloads that were encoded.
use go_durable_engine.Prelude.{
  ℕ, ◌+◌, ◌^◌, ◌≤◌, ◌<◌, ◌≡◌, ap, [], ◌++◌, append-nil, append_assoc, arith, length, length-append,
  take, drop, take-append, ◌==◌, ok, Bytes, IsUint64,
}
use go_durable_engine.Prelude.Pieces.{IsAt, IsAt-start, IsAt-next}
use go_durable_engine.Varint.{encode_uint64}
use go_durable_engine.Varint.Encode.{encode_uint64-onto, length-encode_uint64}
use go_durable_engine.Varint.RoundTrip.{decode-encode}
use go_durable_engine.Wal.{type_delete}
use go_durable_engine.Wal.Encode.{encode_kv}
use go_durable_engine.Wal.Decode.{copied, field, number_at, block_at, decode_one}

pub number_at-encode :
    {p : Bytes} {off : ℕ} (x : ℕ) (rest : Bytes)
    → IsUint64 x
    → IsAt p off (encode_uint64 [] x ++ rest)
    → number_at p off ≡ ok (x, off + length (encode_uint64 [] x))
unfolding number_at
number_at-encode x rest hx h = rw (h.tail, decode-encode x rest hx)

-- A length and as many bytes.
abbrev pub sized : Bytes → Bytes
sized b = encode_uint64 [] (length b) ++ b

pub block_at-sized :
    {p : Bytes} {off : ℕ} (b rest : Bytes)
    → length p < 2 ^ 63
    → IsAt p off (sized b ++ rest)
    → block_at p off ≡ ok (b, off + length (sized b))
block_at-sized {p} {off} b rest hp h =
    let v = encode_uint64 [] (length b) in
    let start : IsAt p off (v ++ (b ++ rest)) = rw (append_assoc v b rest) at h in
    let inner = IsAt-next v (b ++ rest) start in
    let end = IsAt-next b rest inner in
    let taken : take (length b) (drop (off + length v) p) ≡ b =
      rw inner.tail (take-append b rest) in
    let n =
      number_at-encode {p = p} {off = off} (length b) (b ++ rest) (omega (arith, end.within))
        start in
    unfold block_at field in rw n (ground (arith, end.within, taken, length-append v b))

-- The payload of a put or delete, piece by piece.
pub encode_kv-sized :
    (seq : ℕ) (key value : Bytes)
    → IsUint64 seq
    → IsUint64 (length key)
    → IsUint64 (length value)
    → encode_kv seq key value ≡ encode_uint64 [] seq ++ (sized key ++ sized value)
unfolding encode_kv
encode_kv-sized seq key value hs hk hv =
    rw
      (
        encode_uint64-onto (encode_uint64 [] seq) (length key) hk,
        encode_uint64-onto ((encode_uint64 [] seq ++ encode_uint64 [] (length key)) ++ key)
            (length value) hv,
      )
      (simp append_assoc)

pub length-sized : (b : Bytes) → IsUint64 (length b) → length (sized b) ≤ length b + 10
length-sized b h =
    omega (arith, length-append (encode_uint64 [] (length b)) b, length-encode_uint64 (length b) h)

-- A put or delete payload decodes to its number, key and value, and is marked deleted exactly for
-- the delete type; an empty key comes back as nil.
pub decode_one-encode_kv :
    (typ seq : ℕ) (key value : Bytes)
    → IsUint64 seq
    → length key + length value < 2 ^ 62
    → decode_one typ (encode_kv seq key value)
      ≡ ok (record {
        typ = typ;
        key = copied key;
        value = value;
        seq = seq;
        deleted = typ == type_delete;
      })
unfolding decode_one
decode_one-encode_kv typ seq key value hs hl =
    let p = encode_kv seq key value in
    let s = encode_uint64 [] seq in
    let pieces = encode_kv-sized seq key value hs (omega arith) (omega arith) in
    let at0 : IsAt p 0 (s ++ (sized key ++ sized value)) = rw (← pieces) (IsAt-start p) in
    let at1 = IsAt-next s (sized key ++ sized value) at0 in
    let at2 = IsAt-next (sized key) (sized value) at1 in
    let at2' : IsAt p (0 + length s + length (sized key)) (sized value ++ []) = rw append-nil at2 in
    let small : length p < 2 ^ 63 = omega (
      arith,
      ap length pieces,
      length-append s (sized key ++ sized value),
      length-append (sized key) (sized value),
      length-sized key (omega arith),
      length-sized value (omega arith),
      length-encode_uint64 seq hs,
    ) in
    rw (number_at-encode seq (sized key ++ sized value) hs at0)
      (rw (block_at-sized key (sized value) small at1) (rw (block_at-sized value [] small at2')))
