-- ===== src/Sstable/Flush.antt =====
-- A block that was flushed, as the index finds it in the file.
use go_durable_engine.Prelude.{
  ℕ, ◌+◌, ◌-◌, ◌*◌, ◌%◌, ◌^◌, ◌≤◌, ◌<◌, ◌≡◌, refl, sym, ap, ◌∙◌, true, false, List, [], ◌∷◌, ◌++◌,
  append-nil, append_assoc, arith, length, length-append, take, drop, take-append, drop-append, ltb,
  ◌==◌, ok, Bytes, All,
}
use go_durable_engine.Bytes.Endian.{le_bytes, le_value, length-le_bytes, le_value-le_bytes}
use go_durable_engine.Crc.{checksum_castagnoli}
use go_durable_engine.Crc.Chain.{checksum_castagnoli-IsUint32}
use go_durable_engine.Sstable.{IndexRec}
use go_durable_engine.Sstable.Writer.{Writer, put_restarts, block_body, with_crc, flush_block}
use go_durable_engine.Sstable.Reader.{read_at, checked, read_block, restarts_loop, parse_restarts}

-- The last four bytes of a slice, and what stands in front of them.
last_four :
    (a t : Bytes)
    → length t ≡ 4
    → (take (length (a ++ t) - 4) (a ++ t) ≡ a) × (drop (length (a ++ t) - 4) (a ++ t) ≡ t)
last_four a t h =
    let e : length (a ++ t) - 4 ≡ length a = omega (arith, length-append a t, h) in
    rw e (take-append a t, drop-append a t)

restarts_bytes : List ℕ → Bytes
restarts_bytes [] = []
restarts_bytes (off ∷ offs) = le_bytes 4 (off % 2 ^ 32) ++ restarts_bytes offs

put_restarts-bytes :
    (block : Bytes) (offs : List ℕ) → put_restarts block offs ≡ block ++ restarts_bytes offs
unfolding put_restarts restarts_bytes
put_restarts-bytes block [] = sym (append-nil block)
put_restarts-bytes block (off ∷ offs) =
    put_restarts-bytes (block ++ le_bytes 4 (off % 2 ^ 32)) offs
    ∙ append_assoc block (le_bytes 4 (off % 2 ^ 32)) (restarts_bytes offs)

length-restarts_bytes : (offs : List ℕ) → length (restarts_bytes offs) ≡ length offs * 4
unfolding restarts_bytes
length-restarts_bytes [] = omega arith
length-restarts_bytes (off ∷ offs) = omega (
  arith,
  length-append (le_bytes 4 (off % 2 ^ 32)) (restarts_bytes offs),
  length-le_bytes 4 (off % 2 ^ 32),
  length-restarts_bytes offs,
)

piece_four :
    (v : ℕ) (rest : Bytes)
    → v < 2 ^ 32
    → (le_value (take 4 (le_bytes 4 v ++ rest)) ≡ v) × (drop 4 (le_bytes 4 v ++ rest) ≡ rest)
piece_four v rest h =
    let n = length-le_bytes 4 v in
    (
      ap (λ (t : ℕ). le_value (take t (le_bytes 4 v ++ rest))) (sym n)
          ∙ ap le_value (take-append (le_bytes 4 v) rest)
          ∙ le_value-le_bytes 4 v (omega arith),
      ap (λ (t : ℕ). drop t (le_bytes 4 v ++ rest)) (sym n) ∙ drop-append (le_bytes 4 v) rest,
    )

restarts_loop-bytes :
    (offs : List ℕ) (tail : Bytes)
    → All (λ off. off < 2 ^ 32) offs
    → restarts_loop (length offs) (restarts_bytes offs ++ tail) ≡ offs
unfolding restarts_loop restarts_bytes
restarts_loop-bytes [] tail small = refl
restarts_loop-bytes (off ∷ offs) tail small =
    let low : off % 2 ^ 32 ≡ off = omega (arith, small.0) in
    let p = piece_four off (restarts_bytes offs ++ tail) small.0 in
    rw (low, append_assoc, p.0, p.1)
      (ap (λ (t : List ℕ). off ∷ t) (restarts_loop-bytes offs tail small.1))

parse_restarts-fields :
    (block buf : Bytes) (restarts : List ℕ)
    → 4 ≤ length block
    → le_value (drop (length block - 4) block) ≡ length restarts
    → length restarts * 4 + 4 ≤ length block
    → take (length block - (length restarts * 4 + 4)) block ≡ buf
    → restarts_loop (length restarts) (drop (length block - (length restarts * 4 + 4)) block)
      ≡ restarts
    → parse_restarts block ≡ ok (buf, restarts)
unfolding parse_restarts
parse_restarts-fields block buf restarts long n room front offs =
    let g1 : ltb (length block) 4 ≡ false = ground arith in
    let g2 : ltb (length block) (length restarts * 4 + 4) ≡ false = ground arith in
    rw (n, g1, g2, front, offs) refl

-- The entries and the restart points of a block are found in its body.
parse_restarts-block_body :
    (buf : Bytes) (restarts : List ℕ)
    → All (λ off. off < 2 ^ 32) restarts
    → length restarts < 2 ^ 32
    → parse_restarts (block_body buf restarts) ≡ ok (buf, restarts)
unfolding block_body
parse_restarts-block_body buf restarts small few =
    let count = le_bytes 4 (length restarts % 2 ^ 32) in
    let points = restarts_bytes restarts in
    let low : length restarts % 2 ^ 32 ≡ length restarts = omega arith in
    let whole = put_restarts-bytes buf restarts in
    let four = length-le_bytes 4 (length restarts % 2 ^ 32) in
    let pts = length-restarts_bytes restarts in
    let flat : block_body buf restarts ≡ buf ++ (points ++ count) =
      ap (λ (t : Bytes). t ++ count) whole ∙ append_assoc buf points count in
    let last = last_four (put_restarts buf restarts) count four in
    let len : length (block_body buf restarts) ≡ length buf + (length restarts * 4 + 4) = omega (
      arith,
      ap length flat,
      length-append buf (points ++ count),
      length-append points count,
      pts,
      four,
    ) in
    let at_points : length (block_body buf restarts) - (length restarts * 4 + 4) ≡ length buf =
      omega (arith, len) in
    parse_restarts-fields (block_body buf restarts) buf restarts (omega (arith, len))
      (ap le_value last.1 ∙ le_value-le_bytes 4 (length restarts % 2 ^ 32) (omega arith) ∙ low)
      (omega (arith, len))
      (ap (λ (t : ℕ). take t (block_body buf restarts)) at_points
        ∙ ap (take (length buf)) flat
        ∙ take-append buf (points ++ count))
      (ap (restarts_loop (length restarts)) (
          ap (λ (t : ℕ). drop t (block_body buf restarts)) at_points
          ∙ ap (drop (length buf)) flat
          ∙ drop-append buf (points ++ count))
        ∙ restarts_loop-bytes restarts count small)

length-block_body :
    (buf : Bytes) (restarts : List ℕ) → length buf + 4 ≤ length (block_body buf restarts)
unfolding block_body
length-block_body buf restarts = omega (
  arith,
  ap length (put_restarts-bytes buf restarts),
  length-append buf (restarts_bytes restarts),
  length-append (put_restarts buf restarts) (le_bytes 4 (length restarts % 2 ^ 32)),
  length-le_bytes 4 (length restarts % 2 ^ 32),
)

pub checked-with_crc :
    (least : ℕ) (b : Bytes) → least ≤ length b + 4 → checked least (with_crc b) ≡ ok b
unfolding checked with_crc
checked-with_crc least b le =
    let crc = le_bytes 4 (checksum_castagnoli b) in
    let four = length-le_bytes 4 (checksum_castagnoli b) in
    let last = last_four b crc four in
    let g : ltb (length (b ++ crc)) least ≡ false = ground (arith, length-append b crc, four) in
    let sum : le_value crc ≡ checksum_castagnoli b =
      le_value-le_bytes 4 (checksum_castagnoli b) (omega (arith, checksum_castagnoli-IsUint32 b)) in
    let same : (checksum_castagnoli b == checksum_castagnoli b) ≡ true = ground arith in
    rw (g, last.0, last.1, sum, same) refl

pub read_at-piece : (a b rest : Bytes) → read_at (a ++ (b ++ rest)) (length a) (length b) ≡ ok b
unfolding read_at
read_at-piece a b rest =
    let g : ltb (length (a ++ (b ++ rest))) (length a + length b) ≡ false =
      ground (arith, length-append a (b ++ rest), length-append b rest) in
    rw (g, drop-append a (b ++ rest), take-append b rest) refl

-- A block that was flushed is found by its index record in the file, whatever is written behind it:
-- its checksum holds, and it has the entries and restart points of the writer.
pub read_block-flush_block :
    (w : Writer) (rest : Bytes)
    → 0 < length w.buf
    → All (λ off. off < 2 ^ 32) w.restarts
    → length w.restarts < 2 ^ 32
    → (r : IndexRec) × (body : Bytes) × ((flush_block w).index ≡ w.index ++ r ∷ [])
      × (r.last_key ≡ w.last_key)
      × (read_block ((flush_block w).file ++ rest) r ≡ ok body)
      × (parse_restarts body ≡ ok (w.buf, w.restarts))
unfolding flush_block read_block
read_block-flush_block w rest pos small few =
    let body = block_body w.buf w.restarts in
    let block = with_crc body in
    let r : IndexRec = record {
      last_key = w.last_key;
      offset = length w.file;
      length = length block;
    } in
    let g : (length w.buf == 0) ≡ false = ground arith in
    let size = length-block_body w.buf w.restarts in
    (
      r,
      body,
      rw g refl,
      refl,
      rw (g, append_assoc w.file block rest)
          (rw (read_at-piece w.file block rest) (checked-with_crc 8 body (omega (arith, size)))),
      parse_restarts-block_body w.buf w.restarts small few,
    )

-- The size of a block in the file.
pub length-block :
    (buf : Bytes) (restarts : List ℕ)
    → length (with_crc (block_body buf restarts)) ≡ length buf + length restarts * 4 + 8
unfolding with_crc block_body
length-block buf restarts =
    let body = put_restarts buf restarts ++ le_bytes 4 (length restarts % 2 ^ 32) in
    omega (
      arith,
      length-append body (le_bytes 4 (checksum_castagnoli body)),
      length-le_bytes 4 (checksum_castagnoli body),
      length-append (put_restarts buf restarts) (le_bytes 4 (length restarts % 2 ^ 32)),
      length-le_bytes 4 (length restarts % 2 ^ 32),
      ap length (put_restarts-bytes buf restarts),
      length-append buf (restarts_bytes restarts),
      length-restarts_bytes restarts,
    )
