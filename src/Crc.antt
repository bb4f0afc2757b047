-- ===== src/Crc.antt =====
-- internal/crc32x: CRC-32 checksums, chained, framed, masked and rolling.
-- `hash/crc32` is the reflected CRC of Go's standard library, run from its polynomial; its tables
-- are computed entry by entry.
pub mod Chain
pub mod Mask
use go_durable_engine.Prelude.{
  ℕ, zero, suc, ◌+◌, ◌-◌, ◌*◌, ◌/◌, ◌%◌, ◌^◌, Bool, true, false, Option, none, some, List, [], ◌∷◌,
  ◌++◌, length, take, drop, ltb, ◌==◌, if◌then◌else◌, bit_or, bit_xor, Bytes,
}
use go_durable_engine.Bytes.Endian.{le_bytes, le_value}

abbrev pub ieee : ℕ
ieee = 0xedb88320

abbrev pub castagnoli : ℕ
castagnoli = 0x82f63b78

abbrev pub koopman : ℕ
koopman = 0xeb31d82e

-- One of the eight rounds in which `crc32.MakeTable` builds an entry.
abbrev pub table_round : ℕ → ℕ → ℕ
table_round poly crc = if crc % 2 == 1 then bit_xor (crc / 2) poly else crc / 2

table_rounds : ℕ → ℕ → ℕ → ℕ
table_rounds zero poly crc = crc
table_rounds (suc n) poly crc = table_rounds n poly (table_round poly crc)

-- Entry `i` of the table of a polynomial.
unfoldable pub table_entry : ℕ → ℕ → ℕ
unfolding table_rounds
table_entry poly i = table_rounds 8 poly i

-- `tab[byte(s) ^ v] ^ (s >> 8)`
unfoldable pub update_byte : ℕ → ℕ → ℕ → ℕ
unfolding table_entry
update_byte poly s v = bit_xor (table_entry poly (bit_xor (s % 256) v)) (s / 256)

unfoldable pub update_loop : ℕ → ℕ → Bytes → ℕ
unfolding update_byte
update_loop poly s [] = s
update_loop poly s (v ∷ p) = update_loop poly (update_byte poly s v) p

-- `^x` on a uint32.
abbrev pub complement : ℕ → ℕ
complement x = 2 ^ 32 - 1 - x

-- `crc32.Update(crc, tab, p)`
unfoldable pub crc32_update : ℕ → ℕ → Bytes → ℕ
unfolding update_loop
crc32_update crc poly p = complement (update_loop poly (complement crc) p)

-- `tab` is a `*crc32.Table`, given by its polynomial, or nil.
pub record Table : Type 0 where
  pub poly : ℕ
  pub tab : Option ℕ

abbrev pub ieee_table : Table
ieee_table = record { poly = ieee; tab = some ieee }

abbrev pub castagnoli_table : Table
castagnoli_table = record { poly = castagnoli; tab = some castagnoli }

abbrev pub koopman_table : Table
koopman_table = record { poly = koopman; tab = some koopman }

-- The receiver of a method may be nil.
table_poly : Option Table → ℕ
table_poly none = ieee
table_poly (some t) = t.poly

abbrev pub used_tab : Option Table → ℕ
used_tab none = ieee
used_tab (some t) = elim t.tab [ none ↦ ieee | some p ↦ p ]

unfoldable pub update : Option Table → ℕ → Bytes → ℕ
update t crc p = crc32_update crc (used_tab t) p

unfoldable pub checksum : Option Table → Bytes → ℕ
unfolding update
checksum t p = update t 0 p

unfoldable pub checksum_ieee : Bytes → ℕ
checksum_ieee p = crc32_update 0 ieee p

unfoldable pub checksum_castagnoli : Bytes → ℕ
checksum_castagnoli p = crc32_update 0 castagnoli p

unfoldable pub verify : Option Table → Bytes → ℕ → Bool
verify t p expected = checksum t p == expected

-- The running checksum of digest.go.
pub record Digest : Type 0 where
  pub crc : ℕ
  pub tab : Table

abbrev pub new_digest : Option Table → Digest
new_digest none = record { crc = 0; tab = ieee_table }
new_digest (some t) = record { crc = 0; tab = t }

-- The digest after `Write`, which returns `len(p)` and no error.
unfoldable pub write : Digest → Bytes → Digest
unfolding update
write d p = record d { crc = update (some d.tab) d.crc p }

abbrev pub sum32 : Digest → ℕ
sum32 d = d.crc

abbrev pub reset_digest : Digest → Digest
reset_digest d = record d { crc = 0 }

unfoldable pub frame_checksum : ℕ → Bytes → ℕ
unfolding write
frame_checksum typ payload =
    sum32 (write (write (new_digest (some castagnoli_table)) (typ ∷ [])) payload)

write_all : Digest → List Bytes → Digest
write_all d [] = d
write_all d (p ∷ parts) = write_all (write d p) parts

pub multi_part_checksum : List Bytes → ℕ
unfolding write_all
multi_part_checksum parts = sum32 (write_all (new_digest (some castagnoli_table)) parts)

unfoldable pub append_checksum_le : Bytes → Bytes → Bytes
append_checksum_le dst p = dst ++ le_bytes 4 (checksum_castagnoli p)

unfoldable pub check_trailing_le : Bytes → Bool
check_trailing_le buf =
    if ltb (length buf) 4
    then false
    else checksum_castagnoli (take (length buf - 4) buf) == le_value (drop (length buf - 4) buf)

abbrev pub mask_delta : ℕ
mask_delta = 0xa282ead8

-- `(crc >> 15 | crc << 17) + delta` on a uint32.
pub mask : ℕ → ℕ
mask crc = (bit_or (crc / 2 ^ 15) (crc * 2 ^ 17 % 2 ^ 32) + mask_delta) % 2 ^ 32

pub unmask : ℕ → ℕ
unmask masked =
    let rot = (masked + 2 ^ 32 - mask_delta) % 2 ^ 32 in
    bit_or (rot / 2 ^ 17) (rot * 2 ^ 15 % 2 ^ 32)
