-- ===== src/Bytes/Endian.antt =====
-- Fixed-width integers: `encoding/binary` and the checked forms of internal/byteutil/bytes.go.
use native.Mathlib.Nat.{pow-suc}
use go_durable_engine.Prelude.{
  ℕ, zero, suc, ◌+◌, ◌*◌, ◌/◌, ◌%◌, ◌^◌, ◌≤◌, ◌<◌, ◌≡◌, refl, ap, ◌∙◌, [], ◌∷◌, ◌++◌, arith, length,
  length-append, take, drop, take-append, drop-append, length-drop, ltb, if◌then◌else◌, Result, ok,
  err, Bytes, IsByte, All,
}
use go_durable_engine.Bytes.{Error, short_buffer}

-- The `w` bytes of `v`, lowest first: `byte(v)`, `byte(v >> 8)`, and so on.
unfoldable pub le_bytes : ℕ → ℕ → Bytes
le_bytes zero v = []
le_bytes (suc w) v = v % 256 ∷ le_bytes w (v / 256)

-- `uint(b[0]) | uint(b[1]) << 8 | …`, whose parts are disjoint bits.
unfoldable pub le_value : Bytes → ℕ
le_value [] = 0
le_value (c ∷ b) = c + 256 * le_value b

-- Big endian writes and reads the same bytes the other way round.
be_loop : ℕ → ℕ → Bytes → Bytes
be_loop zero v tail = tail
be_loop (suc w) v tail = be_loop w (v / 256) (v % 256 ∷ tail)

unfoldable pub be_bytes : ℕ → ℕ → Bytes
unfolding be_loop
be_bytes w v = be_loop w v []

be_value_loop : Bytes → ℕ → ℕ
be_value_loop [] acc = acc
be_value_loop (c ∷ b) acc = be_value_loop b (acc * 256 + c)

unfoldable pub be_value : Bytes → ℕ
unfolding be_value_loop
be_value b = be_value_loop b 0

-- The slice after a write of `enc` at its front.
abbrev pub overwrite : Bytes → Bytes → Bytes
overwrite b enc = enc ++ drop (length enc) b

-- `put_u16le`, `put_u32le` and `put_u64le` are those of 2, 4 and 8 bytes, and so for the others.
pub put_le : ℕ → Bytes → ℕ → Result Error Bytes
put_le w b v = if ltb (length b) w then err short_buffer else ok (overwrite b (le_bytes w v))

put_be : ℕ → Bytes → ℕ → Result Error Bytes
put_be w b v = if ltb (length b) w then err short_buffer else ok (overwrite b (be_bytes w v))

pub read_le : ℕ → Bytes → Result Error ℕ
read_le w b = if ltb (length b) w then err short_buffer else ok (le_value (take w b))

read_be : ℕ → Bytes → Result Error ℕ
read_be w b = if ltb (length b) w then err short_buffer else ok (be_value (take w b))

pub length-le_bytes : (w v : ℕ) → length (le_bytes w v) ≡ w
unfolding le_bytes
length-le_bytes zero v = refl
length-le_bytes (suc w) v = omega (arith, length-le_bytes w (v / 256))

le_bytes-IsByte : (w v : ℕ) → All IsByte (le_bytes w v)
unfolding le_bytes
le_bytes-IsByte zero v = tt
le_bytes-IsByte (suc w) v = (omega arith, le_bytes-IsByte w (v / 256))

pub le_value-le_bytes : (w v : ℕ) → v < 256 ^ w → le_value (le_bytes w v) ≡ v
unfolding le_bytes le_value
le_value-le_bytes zero v h = omega arith
le_value-le_bytes (suc w) v h =
    omega (arith, pow-suc 256 w, le_value-le_bytes w (v / 256) (omega (arith, pow-suc 256 w)))

le_value-lt : (b : Bytes) → All IsByte b → le_value b < 256 ^ length b
unfolding le_value
le_value-lt [] h = omega arith
le_value-lt (c ∷ b) h = omega (arith, pow-suc 256 (length b), le_value-lt b h.1)

pub le_bytes-le_value : (b : Bytes) → All IsByte b → le_bytes (length b) (le_value b) ≡ b
unfolding le_bytes le_value
le_bytes-le_value [] h = refl
le_bytes-le_value (c ∷ b) h =
    let low : (c + 256 * le_value b) % 256 ≡ c = omega arith in
    let high : (c + 256 * le_value b) / 256 ≡ le_value b = omega arith in
    cc (low, ap (le_bytes (length b)) high, le_bytes-le_value b h.1)

length-be_loop : (w v : ℕ) (t : Bytes) → length (be_loop w v t) ≡ w + length t
unfolding be_loop
length-be_loop zero v t = omega arith
length-be_loop (suc w) v t = omega (arith, length-be_loop w (v / 256) (v % 256 ∷ t))

be_value-be_loop :
    (w v acc : ℕ) (t : Bytes)
    → v < 256 ^ w
    → be_value_loop (be_loop w v t) acc ≡ be_value_loop t (acc * 256 ^ w + v)
unfolding be_loop be_value_loop
be_value-be_loop zero v acc t h = ap (be_value_loop t) (omega arith)
be_value-be_loop (suc w) v acc t h =
    be_value-be_loop w (v / 256) acc (v % 256 ∷ t) (omega (arith, pow-suc 256 w))
    ∙ ap (be_value_loop t) (omega (arith, ap (λ (p : ℕ). acc * p) (pow-suc 256 w)))

length-be_bytes : (w v : ℕ) → length (be_bytes w v) ≡ w
unfolding be_bytes
length-be_bytes w v = omega (arith, length-be_loop w v [])

be_value-be_bytes : (w v : ℕ) → v < 256 ^ w → be_value (be_bytes w v) ≡ v
unfolding be_bytes be_value
be_value-be_bytes w v h = be_value-be_loop w v 0 [] h ∙ omega arith

overwrite_parts :
    (w : ℕ) (enc b : Bytes)
    → length enc ≡ w
    → w ≤ length b
    → (take w (overwrite b enc) ≡ enc)
      × (length (overwrite b enc) ≡ length b)
      × (drop w (overwrite b enc) ≡ drop w b)
overwrite_parts w enc b e h = rw (← e) (
  take-append enc _,
  omega (arith, length-append enc (drop (length enc) b), length-drop (length enc) b),
  drop-append enc _,
)

-- A value of `w` bytes that was put into a long enough slice is read back, the bytes behind it and
-- the length of the slice are kept, and too short a slice is refused by both; little endian.
put_le-read_le :
    (w v : ℕ) (b : Bytes)
    → v < 256 ^ w
    → (w ≤ length b
        → (b1 : Bytes) × (put_le w b v ≡ ok b1)
          × (read_le w b1 ≡ ok v)
          × (length b1 ≡ length b)
          × (drop w b1 ≡ drop w b))
      × (length b < w → (put_le w b v ≡ err short_buffer) × (read_le w b ≡ err short_buffer))
unfolding put_le read_le
put_le-read_le w v b h = (
  λ fits.
      let parts = overwrite_parts w (le_bytes w v) b (length-le_bytes w v) fits in
      (
        overwrite b (le_bytes w v),
        ground arith,
        ground (arith, ap le_value parts.0, le_value-le_bytes w v h, parts.1),
        parts.1,
        parts.2,
      ),
  λ short. (ground arith, ground arith),
)

-- The same of the big-endian functions.
put_be-read_be :
    (w v : ℕ) (b : Bytes)
    → v < 256 ^ w
    → (w ≤ length b
        → (b1 : Bytes) × (put_be w b v ≡ ok b1)
          × (read_be w b1 ≡ ok v)
          × (length b1 ≡ length b)
          × (drop w b1 ≡ drop w b))
      × (length b < w → (put_be w b v ≡ err short_buffer) × (read_be w b ≡ err short_buffer))
unfolding put_be read_be
put_be-read_be w v b h = (
  λ fits.
      let parts = overwrite_parts w (be_bytes w v) b (length-be_bytes w v) fits in
      (
        overwrite b (be_bytes w v),
        ground arith,
        ground (arith, ap be_value parts.0, be_value-be_bytes w v h, parts.1),
        parts.1,
        parts.2,
      ),
  λ short. (ground arith, ground arith),
)
