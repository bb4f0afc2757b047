-- ===== src/Crc/Chain.antt =====
-- Checksums of data in pieces, and checksums stored behind the data.
use go_durable_engine.Prelude.{
  ℕ, zero, suc, ◌+◌, ◌-◌, ◌/◌, ◌%◌, ◌≡◌, refl, sym, ap, ◌∙◌, ◌↔◌, true, List, [], ◌∷◌, ◌++◌, arith,
  length, length-append, take, drop, take-append, drop-append, take-append-drop, length-drop,
  bit_xor, Bytes, IsByte, IsUint32, All, All-append_iff,
}
use go_durable_engine.Prelude.Bits.{bit_xor-lt}
use go_durable_engine.Bytes.{concat}
use go_durable_engine.Bytes.Endian.{
  le_bytes, le_value, length-le_bytes, le_value-le_bytes, le_bytes-le_value,
}
use go_durable_engine.Crc.{
  castagnoli, castagnoli_table, table_round, table_rounds, update_byte, update_loop, complement,
  crc32_update, checksum_castagnoli, write, write_all, frame_checksum, multi_part_checksum,
  append_checksum_le, check_trailing_le,
}

table_rounds-IsUint32 :
    (n poly crc : ℕ) → IsUint32 poly → IsUint32 crc → IsUint32 (table_rounds n poly crc)
unfolding table_rounds
table_rounds-IsUint32 zero poly crc hp hc = hc
table_rounds-IsUint32 (suc n) poly crc hp hc =
    table_rounds-IsUint32 n poly (table_round poly crc) hp
      (ground (arith, bit_xor-lt 32 (crc / 2) poly))

update_byte-IsUint32 :
    (poly s v : ℕ) → IsUint32 poly → IsUint32 s → IsByte v → IsUint32 (update_byte poly s v)
unfolding update_byte
update_byte-IsUint32 poly s v hp hs hv =
    bit_xor-lt 32 _ (s / 256)
      (table_rounds-IsUint32 8 poly (bit_xor (s % 256) v) hp
        (bit_xor-lt 32 (s % 256) v (omega arith) (omega arith)))
      (omega arith)

update_loop-IsUint32 :
    (p : Bytes) (poly s : ℕ)
    → IsUint32 poly
    → All IsByte p
    → IsUint32 s
    → IsUint32 (update_loop poly s p)
unfolding update_loop
update_loop-IsUint32 [] poly s hp hb hs = hs
update_loop-IsUint32 (v ∷ p) poly s hp hb hs =
    update_loop-IsUint32 p poly (update_byte poly s v) hp hb.1
      (update_byte-IsUint32 poly s v hp hs hb.0)

update_loop-append :
    (p q : Bytes) (poly s : ℕ)
    → update_loop poly s (p ++ q) ≡ update_loop poly (update_loop poly s p) q
unfolding update_loop
update_loop-append [] q poly s = refl
update_loop-append (v ∷ p) q poly s = update_loop-append p q poly (update_byte poly s v)

-- Updating with one piece after another gives the checksum of the pieces together.
crc32_update-append :
    (crc poly : ℕ) (p q : Bytes)
    → IsUint32 poly
    → All IsByte p
    → crc32_update crc poly (p ++ q) ≡ crc32_update (crc32_update crc poly p) poly q
unfolding crc32_update
crc32_update-append crc poly p q hp hb =
    let s = update_loop poly (complement crc) p in
    let bound = update_loop-IsUint32 p poly (complement crc) hp hb (omega arith) in
    let twice : complement (complement s) ≡ s = omega arith in
    rw (update_loop-append p q poly (complement crc), twice)

-- The checksum of a frame is that of its type byte and its payload in one slice.
frame_checksum-checksum :
    (typ : ℕ) (payload : Bytes)
    → IsByte typ
    → frame_checksum typ payload ≡ checksum_castagnoli (typ ∷ payload)
unfolding frame_checksum checksum_castagnoli
frame_checksum-checksum typ payload h =
    sym (crc32_update-append 0 castagnoli (typ ∷ []) payload (omega arith) (h, tt))

write_all-concat :
    (parts : List Bytes) (crc : ℕ)
    → IsUint32 crc
    → All (All IsByte) parts
    → (write_all (record { crc = crc; tab = castagnoli_table }) parts).crc
      ≡ crc32_update crc castagnoli (concat parts)
unfolding write_all write concat
write_all-concat [] crc hc h = unfold crc32_update in omega arith
write_all-concat (p ∷ parts) crc hc h =
    write_all-concat parts (crc32_update crc castagnoli p) (unfold crc32_update in omega arith) h.1
    ∙ sym (crc32_update-append crc castagnoli p (concat parts) (omega arith) h.0)

-- The checksum of many parts is that of their concatenation.
multi_part_checksum-concat :
    (parts : List Bytes)
    → All (All IsByte) parts
    → multi_part_checksum parts ≡ checksum_castagnoli (concat parts)
unfolding multi_part_checksum checksum_castagnoli
multi_part_checksum-concat parts h = write_all-concat parts 0 (omega arith) h

pub checksum_castagnoli-IsUint32 : (p : Bytes) → IsUint32 (checksum_castagnoli p)
unfolding checksum_castagnoli crc32_update
checksum_castagnoli-IsUint32 p = omega arith

pub frame_checksum-IsUint32 : (typ : ℕ) (payload : Bytes) → IsUint32 (frame_checksum typ payload)
unfolding frame_checksum crc32_update
frame_checksum-IsUint32 typ payload = omega arith

-- A slice passes `check_trailing_le` exactly when it is some body with its own checksum appended.
pub check_trailing_le_iff :
    (buf : Bytes)
    → All IsByte buf
    → (check_trailing_le buf ≡ true) ↔ ((body : Bytes) × (buf ≡ append_checksum_le body body))
unfolding check_trailing_le append_checksum_le
check_trailing_le_iff buf h = (
  λ e.
      let tail = drop (length buf - 4) buf in
      let n : length tail ≡ 4 = ground (arith, length-drop (length buf - 4) buf) in
      let sum : checksum_castagnoli (take (length buf - 4) buf) ≡ le_value tail = ground arith in
      let whole = take-append-drop (length buf - 4) buf in
      let bytes = (All-append_iff IsByte (take (length buf - 4) buf) tail (rw whole h)).1 in
      (
        take (length buf - 4) buf,
        sym whole
            ∙ ap (λ (t : Bytes). take (length buf - 4) buf ++ t)
                (sym (rw sum (rw n at (le_bytes-le_value tail bytes)))),
      ),
  λ (body, e).
      let enc = le_bytes 4 (checksum_castagnoli body) in
      let k : length (body ++ enc) ≡ length body + 4 =
        omega (arith, length-append body enc, length-le_bytes 4 (checksum_castagnoli body)) in
      let k' : length (body ++ enc) - 4 ≡ length body = omega arith in
      let value =
        le_value-le_bytes 4 (checksum_castagnoli body)
          (omega (arith, checksum_castagnoli-IsUint32 body)) in
      rw (e, k', take-append body enc, drop-append body enc, value) (ground arith),
)
