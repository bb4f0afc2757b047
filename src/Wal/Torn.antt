-- ===== src/Wal/Torn.antt =====
-- The scan of a log that ends in a torn frame.
use go_durable_engine.Prelude.{
  ℕ, zero, suc, ◌+◌, ◌-◌, ◌^◌, ◌≤◌, ◌<◌, ◌≡◌, ap, ◌∙◌, true, false, none, some, List, [], ◌∷◌, ◌++◌,
  append_assoc, arith, length, length-append, take, drop, take-append, length-drop, length-take,
  ltb, ◌==◌, if◌then◌else◌, ok, Bytes, All, max, ◌⊎◌, inl, inr, dec_lt, Bool-cases,
}
use go_durable_engine.Bytes.Endian.{le_bytes, length-le_bytes, le_value-le_bytes}
use go_durable_engine.Crc.{frame_checksum}
use go_durable_engine.Crc.Chain.{frame_checksum-IsUint32}
use go_durable_engine.Wal.{header_size}
use go_durable_engine.Wal.Encode.{header, frame}
use go_durable_engine.Wal.Scan.{
  peek_seq, read_at, headed, framed, parse_header, Header, frame_at, is_known, scan_loop,
  scan_valid_prefix,
}
use go_durable_engine.Prelude.Pieces.{IsAt, IsAt-start, IsAt-next}

pub length-header : (typ : ℕ) (payload : Bytes) → length (header typ payload) ≡ 9
unfolding header
length-header typ payload = omega (
  arith,
  length-append (le_bytes 4 (length payload)) (typ ∷ le_bytes 4 (frame_checksum typ payload)),
  length-le_bytes 4 (length payload),
  length-le_bytes 4 (frame_checksum typ payload),
)

pub length-frame : (typ : ℕ) (payload : Bytes) → length (frame typ payload) ≡ 9 + length payload
unfolding frame
length-frame typ payload =
    omega (arith, length-append (header typ payload) payload, length-header typ payload)

parse_header-header :
    (typ : ℕ) (payload : Bytes)
    → length payload < 2 ^ 32
    → parse_header (header typ payload)
      ≡ record { plen = length payload; typ = typ; crc = frame_checksum typ payload }
unfolding header le_bytes parse_header
parse_header-header typ payload h =
    let n = le_value-le_bytes 4 (length payload) (omega arith) in
    let c =
      le_value-le_bytes 4 (frame_checksum typ payload)
        (omega (arith, frame_checksum-IsUint32 typ payload)) in
    λ i. record { plen = n i; typ = typ; crc = c i }

-- The read of the header, and of what stands behind it.
read_at-IsAt :
    {file : Bytes} {off : ℕ} (a rest : Bytes)
    → IsAt file off (a ++ rest)
    → read_at file off (length a) ≡ some a
unfolding read_at
read_at-IsAt {file} {off} a rest h =
    let end = IsAt-next a rest h in
    let got : take (length a) (drop off file) ≡ a = rw h.tail (take-append a rest) in
    ground (arith, got, end.within)

pub ==-refl : (n : ℕ) → (n == n) ≡ true
==-refl n = ground arith

-- The steps of `frame_at`, with the reads as equations.
frame_at-steps :
    (file : Bytes) (off : ℕ) (hdr : Bytes) (h : Header)
    → read_at file off header_size ≡ some hdr
    → parse_header hdr ≡ h
    → frame_at file (length file) off ≡ framed file (length file) off h
unfolding frame_at
frame_at-steps file off hdr h r e =
    ap (headed file (length file) off) r ∙ ap (framed file (length file) off) e

-- A frame that stands whole in the file is found, with its end.
pub frame_at-frame :
    {file : Bytes} {off : ℕ} (typ : ℕ) (payload rest : Bytes)
    → length payload < 2 ^ 32
    → IsAt file off (frame typ payload ++ rest)
    → frame_at file (length file) off ≡ some (typ, payload, off + 9 + length payload)
unfolding frame
frame_at-frame {file} {off} typ payload rest h start =
    let hdr = header typ payload in
    let s1 : IsAt file off (hdr ++ (payload ++ rest)) =
      rw (append_assoc hdr payload rest) at start in
    let r1 : read_at file off 9 ≡ some hdr =
      rw (length-header typ payload) at (read_at-IsAt hdr _ s1) in
    let s2 : IsAt file (off + 9) (payload ++ rest) =
      rw (length-header typ payload) at (IsAt-next hdr _ s1) in
    let r2 = read_at-IsAt payload rest s2 in
    let s3 = IsAt-next payload rest s2 in
    let fits : ltb (length file) (off + 9 + length payload) ≡ false = ground (arith, s3.within) in
    frame_at-steps file off hdr _ r1 (parse_header-header typ payload h)
    ∙ rw fits (rw r2 (rw (==-refl (frame_checksum typ payload))))

-- What an append leaves behind when it is cut off: less than a header, or a header with fewer
-- bytes than it announces.
pub data IsTorn (tail : Bytes) : Type 0 where
  short : length tail < header_size → IsTorn tail
  cut :
      (typ : ℕ) (payload part : Bytes)
      → length payload < 2 ^ 32
      → length part < length payload
      → tail ≡ header typ payload ++ part
      → IsTorn tail

take-more : (a b : Bytes) (n : ℕ) → length a ≤ n → take n (a ++ b) ≡ a ++ take (n - length a) b
take-more [] b n h = let e : n - 0 ≡ n = omega arith in rw e
take-more (x ∷ a) b zero h = absurd (omega arith)
take-more (x ∷ a) b (suc n) h =
    let e : suc n - suc (length a) ≡ n - length a = omega arith in
    rw e (ap (λ (t : Bytes). x ∷ t) (take-more a b n (omega arith)))

-- Every proper prefix of a frame is torn.
IsTorn-take :
    (typ : ℕ) (payload : Bytes) (k : ℕ)
    → length payload < 2 ^ 32
    → k < length (frame typ payload)
    → IsTorn (take k (frame typ payload))
IsTorn-take typ payload k h lt = elim (dec_lt k 9) [
  | yes small ↦ short (omega (arith, length-take k (frame typ payload)))
  | no big ↦
      let n = length-header typ payload in
      cut typ payload (take (k - length (header typ payload)) payload) h
        (omega (
          arith,
          n,
          length-frame typ payload,
          length-take (k - length (header typ payload)) payload,
        ))
        (unfold frame in take-more (header typ payload) payload k (omega (arith, n)))
]

pub length-IsAt :
    {file : Bytes} {off : ℕ} {rest : Bytes} → IsAt file off rest → length file ≡ off + length rest
length-IsAt {file} {off} h = omega (arith, ap length h.tail, length-drop off file, h.within)

frame_at-torn :
    {file : Bytes} {off : ℕ} (tail : Bytes)
    → IsAt file off tail
    → IsTorn tail
    → (ltb (length file) (off + header_size) ≡ true) ⊎ (frame_at file (length file) off ≡ none)
frame_at-torn {file} {off} tail start (short h) = inl (ground (arith, length-IsAt start))
frame_at-torn {file} {off} tail start (cut typ payload part small h e) =
    let hdr = header typ payload in
    let s1 : IsAt file off (hdr ++ part) = rw e at start in
    let r1 : read_at file off 9 ≡ some hdr =
      rw (length-header typ payload) at (read_at-IsAt hdr part s1) in
    let over : ltb (length file) (off + 9 + length payload) ≡ true =
      ground (arith, length-IsAt s1, length-append hdr part, length-header typ payload) in
    inr (frame_at-steps file off hdr _ r1 (parse_header-header typ payload small) ∙ rw over)

-- The scan stops at a torn tail, with what it had.
scan_loop-torn :
    {file : Bytes} {off : ℕ} (tail : Bytes) (fuel best : ℕ)
    → IsAt file off tail
    → IsTorn tail
    → scan_loop (suc fuel) file (length file) off best ≡ ok (off, best)
unfolding scan_loop
scan_loop-torn {file} {off} tail fuel best start torn = elim (frame_at-torn tail start torn) [
  | inl e ↦ rw e
  | inr e ↦ elim (Bool-cases (ltb (length file) (off + header_size))) [
    | inl t ↦ rw t
    | inr f ↦ rw f (rw e)
  ]
]

-- A frame in the log, with the largest sequence number in its payload.
pub record LogFrame : Type 0 where
  pub typ : ℕ
  pub payload : Bytes
  pub last : ℕ

pub record IsLogFrame (f : LogFrame) : Type 0 where
  pub known : is_known f.typ ≡ true
  pub small : length f.payload < 2 ^ 32
  pub found : peek_seq f.typ f.payload ≡ ok f.last

abbrev pub frames_bytes : List LogFrame → Bytes
frames_bytes [] = []
frames_bytes (f ∷ fs) = frame f.typ f.payload ++ frames_bytes fs

abbrev pub max_last : ℕ → List LogFrame → ℕ
max_last best [] = best
max_last best (f ∷ fs) = max_last (max best f.last) fs

larger : (a b : ℕ) → (if ltb a b then b else a) ≡ max a b
larger a b = ground arith

scan_loop-frame :
    {file : Bytes} {off : ℕ} (f : LogFrame) (rest : Bytes) (fuel best : ℕ)
    → IsLogFrame f
    → IsAt file off (frame f.typ f.payload ++ rest)
    → scan_loop (suc fuel) file (length file) off best
      ≡ scan_loop fuel file (length file) (off + length (frame f.typ f.payload)) (max best f.last)
unfolding scan_loop
scan_loop-frame {file} {off} f rest fuel best h start =
    let n = length-frame f.typ f.payload in
    let inside : ltb (length file) (off + header_size) ≡ false =
      ground (arith, length-IsAt start, length-append (frame f.typ f.payload) rest) in
    let end : off + 9 + length f.payload ≡ off + length (frame f.typ f.payload) = omega arith in
    rw inside (
      rw (frame_at-frame f.typ f.payload rest h.small start)
        (rw (h.known, h.found) (rw (larger best f.last) (rw end))))

scan_loop-frames :
    (fs : List LogFrame) {file : Bytes} {off : ℕ} (tail : Bytes) (fuel best : ℕ)
    → All IsLogFrame fs
    → IsTorn tail
    → length fs < fuel
    → IsAt file off (frames_bytes fs ++ tail)
    → scan_loop fuel file (length file) off best
      ≡ ok (off + length (frames_bytes fs), max_last best fs)
scan_loop-frames [] tail zero best h torn lt start = absurd (omega arith)
scan_loop-frames [] {file} {off} tail (suc fuel) best h torn lt start =
    let e : off + 0 ≡ off = omega arith in rw e (scan_loop-torn tail fuel best start torn)
scan_loop-frames (f ∷ fs) tail zero best h torn lt start = absurd (omega arith)
scan_loop-frames (f ∷ fs) {file} {off} tail (suc fuel) best h torn lt start =
    let g = frame f.typ f.payload in
    let s1 : IsAt file off (g ++ (frames_bytes fs ++ tail)) =
      rw (append_assoc g (frames_bytes fs) tail) at start in
    let e : off + length g + length (frames_bytes fs) ≡ off + length (g ++ frames_bytes fs) =
      omega (arith, length-append g (frames_bytes fs)) in
    scan_loop-frame f (frames_bytes fs ++ tail) fuel best h.0 s1
    ∙ scan_loop-frames fs tail fuel (max best f.last) h.1 torn (omega arith) (IsAt-next g _ s1)
    ∙ ap (λ (n : ℕ). ok (n, max_last best (f ∷ fs))) e

pub length-frames : (fs : List LogFrame) → length fs ≤ length (frames_bytes fs)
length-frames [] = omega arith
length-frames (f ∷ fs) = omega (
  arith,
  length-frames fs,
  length-append (frame f.typ f.payload) (frames_bytes fs),
  length-frame f.typ f.payload,
)

-- The scan of a log of whole frames with a torn tail behind them ends exactly behind the last
-- whole frame, with the largest sequence number of the whole frames.
pub scan_valid_prefix-torn :
    (fs : List LogFrame) (tail : Bytes)
    → All IsLogFrame fs
    → IsTorn tail
    → scan_valid_prefix (frames_bytes fs ++ tail) (length (frames_bytes fs ++ tail))
      ≡ ok (length (frames_bytes fs), max_last 0 fs)
unfolding scan_valid_prefix
scan_valid_prefix-torn fs tail h torn =
    scan_loop-frames fs tail _ 0 h torn
      (omega (arith, length-frames fs, length-append (frames_bytes fs) tail))
      (IsAt-start (frames_bytes fs ++ tail))
    ∙ ap (λ (n : ℕ). ok (n, max_last 0 fs)) (omega arith)

-- A crash in the middle of an append: whatever proper prefix of the frame reached the file, the
-- scan keeps the frames before it and nothing else.
pub scan-cut_append :
    (fs : List LogFrame) (typ : ℕ) (payload : Bytes) (k : ℕ)
    → All IsLogFrame fs
    → length payload < 2 ^ 32
    → k < length (frame typ payload)
    → (let file = frames_bytes fs ++ take k (frame typ payload) in
        scan_valid_prefix file (length file) ≡ ok (length (frames_bytes fs), max_last 0 fs))
scan-cut_append fs typ payload k h small lt =
    scan_valid_prefix-torn fs (take k (frame typ payload)) h (IsTorn-take typ payload k small lt)
