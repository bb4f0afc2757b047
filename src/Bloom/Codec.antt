-- ===== src/Bloom/Codec.antt =====
-- The binary form of a Bloom filter.
use go_durable_engine.Prelude.{
  ℕ, ◌+◌, ◌/◌, ◌%◌, ◌^◌, ◌<◌, ◌≡◌, refl, sym, ap, ◌∙◌, false, ◌∷◌, [], ◌++◌, append-nil, arith,
  length, take, drop, ltb, ok, Bytes, IsUint64, take-append, length-drop,
}
use go_durable_engine.Prelude.Pieces.{IsAt, IsAt-start, IsAt-next, IsAt-take}
use go_durable_engine.Bytes.Endian.{le_bytes, le_value, length-le_bytes, le_value-le_bytes}
use go_durable_engine.Bloom.{Filter, magic, version, marshal_binary, unmarshal_binary}

-- A fixed-width number at an offset.
pub le_at :
    {p : Bytes} {off : ℕ} (w v : ℕ) (rest : Bytes)
    → v < 256 ^ w
    → IsAt p off (le_bytes w v ++ rest)
    → (le_value (take w (drop off p)) ≡ v) × IsAt p (off + w) rest
le_at {p} {off} w v rest lt h =
    let n = length-le_bytes w v in
    let piece = IsAt-take (le_bytes w v) rest h in
    let next = IsAt-next (le_bytes w v) rest h in
    (
      ap (λ (t : ℕ). le_value (take t (drop off p))) (sym n)
          ∙ ap le_value piece
          ∙ le_value-le_bytes w v lt,
      rw n at next,
    )

-- A slice with these fields is read as the filter.
unmarshal_binary-fields :
    (p : Bytes) (f : Filter)
    → length p ≡ 25 + length f.bits
    → le_value (take 4 (drop 0 p)) ≡ magic
    → le_value (take 1 (drop 4 p)) ≡ version
    → le_value (take 8 (drop 5 p)) ≡ f.m
    → le_value (take 4 (drop 13 p)) ≡ f.k
    → le_value (take 8 (drop 17 p)) ≡ f.n_added
    → drop 25 p ≡ f.bits
    → length f.bits ≡ (f.m + 7) % 2 ^ 64 / 8
    → unmarshal_binary p ≡ ok f
unfolding unmarshal_binary
unmarshal_binary-fields p f size e0 e1 e2 e3 e4 e5 hb =
    let long : ltb (length p) 25 ≡ false = ground (arith, size) in
    let room : ltb (length p) (25 + (f.m + 7) % 2 ^ 64 / 8) ≡ false = ground (arith, size, hb) in
    let bits : take ((f.m + 7) % 2 ^ 64 / 8) f.bits ≡ f.bits =
      ap (λ (t : ℕ). take t f.bits) (sym hb)
      ∙ (rw (append-nil f.bits) at (take-append f.bits [])) in
    rw (long, e0, e1, e2, room, e3, e4, e5, bits) refl

-- A filter with as many bytes as its number of bits asks for.
pub record IsMarshallable (f : Filter) : Type 0 where
  pub m : IsUint64 f.m
  pub k : f.k < 2 ^ 32
  pub n_added : IsUint64 f.n_added
  pub bits : length f.bits ≡ (f.m + 7) % 2 ^ 64 / 8

-- A filter with as many bytes as its number of bits asks for is read back as it was written.
pub unmarshal_binary-marshal_binary :
    (f : Filter) → IsMarshallable f → unmarshal_binary (marshal_binary f) ≡ ok f
unfolding marshal_binary le_value
unmarshal_binary-marshal_binary f h =
    let p = marshal_binary f in
    let t4 = le_bytes 8 f.n_added ++ f.bits in
    let t3 = le_bytes 4 f.k ++ t4 in
    let t2 = le_bytes 8 f.m ++ t3 in
    let a0 = le_at {p = p} {off = 0} 4 magic (version ∷ t2) (omega arith) (IsAt-start p) in
    let a1 = IsAt-next {p = p} {off = 4} (version ∷ []) t2 a0.1 in
    let v1 = IsAt-take {p = p} {off = 4} (version ∷ []) t2 a0.1 in
    let a2 = le_at {p = p} {off = 5} 8 f.m t3 h.m a1 in
    let a3 = le_at {p = p} {off = 13} 4 f.k t4 h.k a2.1 in
    let a4 = le_at {p = p} {off = 17} 8 f.n_added f.bits h.n_added a3.1 in
    let tail = a4.1.tail in
    let size : length p ≡ 25 + length f.bits =
      omega (arith, a4.1.within, ap length tail, length-drop 25 p) in
    unmarshal_binary-fields p f size a0.0 (ap le_value v1) a2.0 a3.0 a4.0 tail h.bits
