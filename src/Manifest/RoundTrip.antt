-- ===== src/Manifest/RoundTrip.antt =====
-- The binary manifest is read back as it was written.
use go_durable_engine.Prelude.{
  ℕ, suc, ◌+◌, ◌^◌, ◌<◌, ◌≡◌, refl, sym, ap, ◌∙◌, Bool, true, false, List, [], ◌∷◌, ◌++◌,
  append-nil, append_assoc, arith, length, length-append, take, drop, take-append, ltb, leb,
  if◌then◌else◌, ok, Bytes, All,
}
use go_durable_engine.Bytes.Endian.{le_bytes, le_value, length-le_bytes, le_value-le_bytes}
use go_durable_engine.Crc.{checksum_castagnoli}
use go_durable_engine.Crc.Chain.{checksum_castagnoli-IsUint32}
use go_durable_engine.Prelude.Pieces.{IsAt, IsAt-start, IsAt-next}
use go_durable_engine.Wal.Torn.{==-refl, length-IsAt}
use go_durable_engine.Manifest.{magic_binary, FileMeta, State}
use go_durable_engine.Manifest.Codec.{
  short_block, encode_file, encode_files, encode_body, encode_binary, number, block, decode_file,
  decode_files, decode_binary, has_magic, Json, decode,
}

-- Every length and number fits the field it is written to.
pub record IsFile (f : FileMeta) : Type 0 where
  pub name : length f.name < 256 ^ 2
  pub level : f.level < 256 ^ 4
  pub min_key : length f.min_key < 256 ^ 2
  pub max_key : length f.max_key < 256 ^ 2
  pub max_seq : f.max_seq < 256 ^ 8
  pub entries : f.entries < 256 ^ 8
  pub file_size : f.file_size < 256 ^ 8

pub record IsState (st : State) : Type 0 where
  pub version : st.version < 256 ^ 4
  pub next_file : st.next_file < 256 ^ 8
  pub log_seq : st.log_seq < 256 ^ 8
  pub count : length st.files < 256 ^ 4
  pub files : All IsFile st.files

number-le_bytes :
    {p : Bytes} {off : ℕ} (w v : ℕ) (rest : Bytes)
    → v < 256 ^ w
    → IsAt p off (le_bytes w v ++ rest)
    → (number w p off ≡ ok (v, off + w)) × IsAt p (off + w) rest
unfolding number
number-le_bytes {p} {off} w v rest h at0 =
    let n = length-le_bytes w v in
    let next = IsAt-next (le_bytes w v) rest at0 in
    let inside : ltb (length p) (off + w) ≡ false = ground (arith, next.within) in
    let part : take w (drop off p) ≡ le_bytes w v =
      ap (take w) at0.tail
      ∙ ap (λ (k : ℕ). take k (le_bytes w v ++ rest)) (sym n)
      ∙ take-append (le_bytes w v) rest in
    (rw inside (rw part (rw (le_value-le_bytes w v h))), rw (← n) next)

block-short_block :
    {p : Bytes} {off : ℕ} (b rest : Bytes)
    → length b < 256 ^ 2
    → IsAt p off (short_block b ++ rest)
    → (block p off ≡ ok (b, off + 2 + length b)) × IsAt p (off + 2 + length b) rest
unfolding block short_block
block-short_block {p} {off} b rest h at0 =
    let at0' : IsAt p off (le_bytes 2 (length b) ++ (b ++ rest)) =
      rw (append_assoc (le_bytes 2 (length b)) b rest) at at0 in
    let n = number-le_bytes 2 (length b) (b ++ rest) h at0' in
    let next = IsAt-next b rest n.1 in
    let inside : ltb (length p) (off + 2 + length b) ≡ false = ground (arith, next.within) in
    (rw (n.0) (rw inside (rw (n.1.tail) (rw (take-append b rest)))), next)

-- The fields of a file behind its name.
abbrev fields : FileMeta → Bytes → Bytes
fields f rest =
    le_bytes 4 f.level
    ++ (le_bytes 8 f.max_seq
        ++ (le_bytes 8 f.entries
            ++ (le_bytes 8 f.file_size
                ++ (short_block f.min_key ++ (short_block f.max_key ++ rest)))))

encode_file-fields :
    (f : FileMeta) (rest : Bytes) → encode_file f ++ rest ≡ short_block f.name ++ fields f rest
unfolding encode_file
encode_file-fields f rest = simp append_assoc

decode_file-encode_file :
    {p : Bytes} {off : ℕ} (f : FileMeta) (rest : Bytes)
    → IsFile f
    → IsAt p off (encode_file f ++ rest)
    → (off1 : ℕ) × (decode_file p off ≡ ok (f, off1)) × IsAt p off1 rest
decode_file-encode_file {p} {off} f rest h at0 =
    let at0' : IsAt p off (short_block f.name ++ fields f rest) =
      rw (encode_file-fields f rest) at at0 in
    let name = block-short_block f.name (fields f rest) h.name at0' in
    let level = number-le_bytes 4 f.level _ h.level name.1 in
    let max_seq = number-le_bytes 8 f.max_seq _ h.max_seq level.1 in
    let entries = number-le_bytes 8 f.entries _ h.entries max_seq.1 in
    let size = number-le_bytes 8 f.file_size _ h.file_size entries.1 in
    let low = block-short_block f.min_key _ h.min_key size.1 in
    let high = block-short_block f.max_key rest h.max_key low.1 in
    let inside : leb (off + 2 + length f.name + 28) (length p) ≡ true =
      ground (arith, size.1.within) in
    unfold decode_file in
    (
      off + 2 + length f.name + 4 + 8 + 8 + 8 + 2 + length f.min_key + 2 + length f.max_key,
      rw (name.0) (
          rw inside (
            rw (level.0)
              (rw (max_seq.0) (rw (entries.0) (rw (size.0) (rw (low.0) (rw (high.0)))))))),
      high.1,
    )

decode_files-encode_files :
    (fs : List FileMeta) {p : Bytes} {off : ℕ} (rest : Bytes)
    → All IsFile fs
    → IsAt p off (encode_files fs ++ rest)
    → (off1 : ℕ) × (decode_files (length fs) p off ≡ ok (fs, off1)) × IsAt p off1 rest
unfolding encode_files decode_files
decode_files-encode_files [] {p} {off} rest h at0 = (off, refl, at0)
decode_files-encode_files (f ∷ fs) {p} {off} rest h at0 =
    let at0' : IsAt p off (encode_file f ++ (encode_files fs ++ rest)) =
      rw (append_assoc (encode_file f) (encode_files fs) rest) at at0 in
    let one = decode_file-encode_file f (encode_files fs ++ rest) h.0 at0' in
    let more = decode_files-encode_files fs rest h.1 one.2 in
    (more.0, rw (one.1) (rw (more.1)), more.2)

-- The fixed part in front of the files.
abbrev headed : State → Bytes → Bytes
headed st rest =
    le_bytes 4 magic_binary
    ++ (le_bytes 4 st.version
        ++ (le_bytes 8 st.next_file
            ++ (le_bytes 8 st.log_seq ++ (le_bytes 4 (length st.files) ++ rest))))

encode_binary-headed :
    (st : State)
    → encode_binary st
      ≡ headed st (encode_files st.files ++ le_bytes 4 (checksum_castagnoli (encode_body st)))
unfolding encode_binary encode_body
encode_binary-headed st = simp append_assoc

decode_binary-headed :
    {p : Bytes} (now : Bytes) (st : State) (sum : ℕ)
    → IsState st
    → sum < 256 ^ 4
    → IsAt p 0 (headed st (encode_files st.files ++ le_bytes 4 sum))
    → ((off : ℕ) → IsAt p off (le_bytes 4 sum) → checksum_castagnoli (take off p) ≡ sum)
    → decode_binary now p ≡ ok (record st { updated_at = now })
unfolding decode_binary
decode_binary-headed {p} now st sum h hs at0 summed =
    let magic = number-le_bytes 4 magic_binary _ (omega arith) at0 in
    let version = number-le_bytes 4 st.version _ h.version magic.1 in
    let next_file = number-le_bytes 8 st.next_file _ h.next_file version.1 in
    let log_seq = number-le_bytes 8 st.log_seq _ h.log_seq next_file.1 in
    let n = number-le_bytes 4 (length st.files) _ h.count log_seq.1 in
    let files = decode_files-encode_files st.files (le_bytes 4 sum) h.files n.1 in
    let end : IsAt p files.0 (le_bytes 4 sum ++ []) = rw append-nil files.2 in
    let want = number-le_bytes 4 sum [] hs end in
    let long : ltb (length p) 28 ≡ false = ground (arith, n.1.within) in
    rw long (
      rw (magic.0) (
        rw (version.0) (
          rw (next_file.0) (
            rw (log_seq.0) (
              rw (n.0)
                (rw (files.1) (rw (want.0) (rw (summed files.0 files.2) (rw (==-refl sum))))))))))

magic-has_magic :
    {p : Bytes} (rest : Bytes) → p ≡ le_bytes 4 magic_binary ++ rest → has_magic p ≡ true
unfolding le_bytes le_value
magic-has_magic {p} rest e =
    let long : ltb (suc (suc (suc (suc (length rest))))) 4 ≡ false = ground arith in
    rw e (rw long refl)

if_true {ℓ} : {A : Type ℓ} (b : Bool) (x y : A) → b ≡ true → (if b then x else y) ≡ x
if_true true x y e = refl
if_true false x y e = cc

-- A state whose lengths and numbers fit their fields is read back from its binary form, all but
-- the time of the update, which is that of the reading; and the choice between the two formats
-- falls on the binary one.
pub decode-encode_binary :
    (j : Json) (now : Bytes) (st : State)
    → IsState st
    → decode j now (encode_binary st) ≡ ok (record st { updated_at = now })
unfolding decode
decode-encode_binary j now st h =
    let p = encode_binary st in
    let body = encode_body st in
    let sum = checksum_castagnoli body in
    let small : sum < 256 ^ 4 = checksum_castagnoli-IsUint32 body in
    let at0 : IsAt p 0 (headed st (encode_files st.files ++ le_bytes 4 sum)) =
      rw (← encode_binary-headed st) (IsAt-start p) in
    let summed : (off : ℕ) → IsAt p off (le_bytes 4 sum) → checksum_castagnoli (take off p) ≡ sum =
      λ off a.
        let parts : p ≡ body ++ le_bytes 4 sum = unfold encode_binary in refl in
        let k : off ≡ length body =
          omega (
            arith,
            length-IsAt a,
            a.within,
            ap length parts,
            length-append body (le_bytes 4 sum),
          ) in
        ap checksum_castagnoli (
          ap (take off) parts
          ∙ ap (λ (n : ℕ). take n (body ++ le_bytes 4 sum)) k
          ∙ take-append body (le_bytes 4 sum)) in
    let m : has_magic p ≡ true = magic-has_magic _ (encode_binary-headed st) in
    if_true (has_magic p) _ _ m ∙ decode_binary-headed now st sum h small at0 summed
