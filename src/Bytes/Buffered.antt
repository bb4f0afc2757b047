-- ===== src/Bytes/Buffered.antt =====
-- What the buffer of internal/byteutil/buffer.go keeps, and that its reader reads what it wrote.
use go_durable_engine.Prelude.{
  ℕ, ◌+◌, ◌%◌, ◌^◌, ◌≤◌, ◌<◌, ◌≡◌, refl, sym, ap, ◌∙◌, false, ◌++◌, append_assoc, arith, length,
  length-append, take, drop, take-append, drop-append, drop-drop, ltb, leb, Result, ok, Bytes,
  Bool-cases, inl, inr,
}
use go_durable_engine.Bytes.Endian.{le_bytes, length-le_bytes, le_value-le_bytes}
use go_durable_engine.Bytes.Buffer.{
  Buffer, grow, append_grow, write, write_le, write_lp32, SliceReader, read_n, valued, read_le,
  blob, read_lp32,
}

-- The content fits the capacity.
abbrev IsBuffer : Buffer → Type 0
IsBuffer b = length b.buf ≤ b.cap

-- Growing a buffer keeps its content, makes room for `n` more bytes and never lowers the capacity.
grow_lem :
    (b : Buffer) (n : ℕ)
    → IsBuffer b
    → ((grow b n).buf ≡ b.buf) × (length b.buf + n ≤ (grow b n).cap) × (b.cap ≤ (grow b n).cap)
unfolding grow
grow_lem b n h = (ground arith, ground arith, ground arith)

-- A write appends exactly its bytes, the content still fits, and the capacity never falls.
write_lem :
    (b : Buffer) (p : Bytes)
    → IsBuffer b
    → ((write b p).buf ≡ b.buf ++ p) × IsBuffer (write b p) × (b.cap ≤ (write b p).cap)
unfolding write append_grow
write_lem b p h =
    let n = length-append b.buf p in
    elim (Bool-cases (leb (length b.buf + length p) b.cap)) [
      | inl e ↦ rw e (refl, ground (arith, n), ground arith)
      | inr e ↦ rw e (refl, ground (arith, n), ground arith)
    ]

write-buf : (b : Buffer) (p : Bytes) → (write b p).buf ≡ b.buf ++ p
unfolding write append_grow
write-buf b p = elim (Bool-cases (leb (length b.buf + length p) b.cap)) [
  | inl e ↦ rw e refl
  | inr e ↦ rw e refl
]

write_lp32-buf :
    (b : Buffer) (p : Bytes)
    → length p < 2 ^ 32
    → (write_lp32 b p).buf ≡ b.buf ++ (le_bytes 4 (length p) ++ p)
unfolding write_lp32 write_le
write_lp32-buf b p h =
    let n : length p % 2 ^ 32 ≡ length p = omega arith in
    write-buf (write b (le_bytes 4 (length p % 2 ^ 32))) p
    ∙ ap (λ (x : Bytes). x ++ p) (write-buf b (le_bytes 4 (length p % 2 ^ 32)))
    ∙ ap (λ (k : ℕ). (b.buf ++ le_bytes 4 k) ++ p) n
    ∙ append_assoc b.buf (le_bytes 4 (length p)) p

read_n-parts :
    (r : SliceReader) (p rest : Bytes)
    → drop r.off r.b ≡ p ++ rest
    → r.off ≤ length r.b
    → length r.b ≡ r.off + (length p + length rest)
    → read_n r (length p) ≡ (record r { off = r.off + length p }, ok p)
unfolding read_n
read_n-parts r p rest e h n =
    let fits : ltb (length r.b) (r.off + length p) ≡ false = ground (arith, n) in
    let part : take (length p) (drop r.off r.b) ≡ p = ap (take (length p)) e ∙ take-append p rest in
    rw fits (ap (λ (x : Bytes). (record r { off = r.off + length p }, ok x)) part)

-- A block of less than 2 ^ 32 bytes that was written with its length in front is read back by a
-- reader that stands where it was written, whatever was written behind it, and the reader then
-- stands behind the block.
read_lp32-write_lp32 :
    (b : Buffer) (p rest : Bytes)
    → length p < 2 ^ 32
    → read_lp32 (record { b = (write_lp32 b p).buf ++ rest; off = length b.buf })
      ≡ (record { b = (write_lp32 b p).buf ++ rest; off = length (write_lp32 b p).buf }, ok p)
unfolding read_lp32 read_le
read_lp32-write_lp32 b p rest h =
    let hdr = le_bytes 4 (length p) in
    let hlen = length-le_bytes 4 (length p) in
    let all = (write_lp32 b p).buf ++ rest in
    let e : all ≡ b.buf ++ (hdr ++ (p ++ rest)) = rw (write_lp32-buf b p h) (simp append_assoc) in
    let n1 = ap length (write_lp32-buf b p h) in
    let n2 = length-append b.buf (hdr ++ p) in
    let n3 = length-append hdr p in
    let n4 = length-append (write_lp32 b p).buf rest in
    let r0 : SliceReader = record { b = all; off = length b.buf } in
    let r1 : SliceReader = record { b = all; off = length b.buf + length hdr } in
    let d0 : drop (length b.buf) all ≡ hdr ++ (p ++ rest) =
      ap (drop (length b.buf)) e ∙ drop-append b.buf (hdr ++ (p ++ rest)) in
    let d1 : drop (length b.buf + length hdr) all ≡ p ++ rest =
      sym (drop-drop (length b.buf) (length hdr) all)
      ∙ ap (drop (length hdr)) d0
      ∙ drop-append hdr (p ++ rest) in
    let first =
      read_n-parts r0 hdr (p ++ rest) d0 (omega (arith, n1, n2, n3, n4))
        (omega (arith, n1, n2, n3, n4, length-append p rest)) in
    let second =
      read_n-parts r1 p rest d1 (omega (arith, n1, n2, n3, n4)) (omega (arith, n1, n2, n3, n4)) in
    let last : length b.buf + length hdr + length p ≡ length (write_lp32 b p).buf =
      omega (arith, n1, n2, n3) in
    ap (λ (k : ℕ). blob (valued (read_n r0 k))) (sym hlen)
    ∙ ap (λ (x : SliceReader × Result _ Bytes). blob (valued x)) first
    ∙ ap (λ (k : ℕ). read_n r1 k) (le_value-le_bytes 4 (length p) h)
    ∙ second
    ∙ ap (λ (k : ℕ). (record { b = all; off = k }, ok p)) last
