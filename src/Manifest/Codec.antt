-- ===== src/Manifest/Codec.antt =====
-- internal/manifest/codec.go: the binary form of the manifest, and the choice between it and JSON.
use go_durable_engine.Prelude.{
  ℕ, zero, suc, ◌+◌, Bool, false, Option, none, some, List, [], ◌∷◌, ◌++◌, length, take, drop, ltb,
  ◌==◌, if◌then◌else◌, Result, ok, err, ◌>>=◌, ◌>>◌, guard, leb, Bytes,
}
use go_durable_engine.Bytes.Endian.{le_bytes, le_value}
use go_durable_engine.Crc.{checksum_castagnoli}
use go_durable_engine.Manifest.{Error, corrupt, magic_binary, version_json, FileMeta, State}

-- A length in two bytes and the content.
unfoldable pub short_block : Bytes → Bytes
short_block b = le_bytes 2 (length b) ++ b

unfoldable pub encode_file : FileMeta → Bytes
unfolding short_block
encode_file f =
    short_block f.name
    ++ (le_bytes 4 f.level
        ++ (le_bytes 8 f.max_seq
            ++ (le_bytes 8 f.entries
                ++ (le_bytes 8 f.file_size ++ (short_block f.min_key ++ short_block f.max_key)))))

unfoldable pub encode_files : List FileMeta → Bytes
unfolding encode_file
encode_files [] = []
encode_files (f ∷ fs) = encode_file f ++ encode_files fs

unfoldable pub encode_body : State → Bytes
unfolding encode_files
encode_body st =
    le_bytes 4 magic_binary
    ++ (le_bytes 4 st.version
        ++ (le_bytes 8 st.next_file
            ++ (le_bytes 8 st.log_seq ++ (le_bytes 4 (length st.files) ++ encode_files st.files))))

unfoldable pub encode_binary : State → Bytes
unfolding encode_body
encode_binary st = encode_body st ++ le_bytes 4 (checksum_castagnoli (encode_body st))

-- `if off+w > len(data) { return ErrCorrupt }`, the integer of `w` bytes at `off`, `off += w`.
unfoldable pub number : ℕ → Bytes → ℕ → Result Error (ℕ × ℕ)
number w raw off =
    if ltb (length raw) (off + w)
    then err corrupt
    else ok (le_value (take w (drop off raw)), off + w)

unfoldable pub block : Bytes → ℕ → Result Error (Bytes × ℕ)
unfolding number
block raw off = number 2 raw off >>= λ (n, off1).
    if ltb (length raw) (off1 + n) then err corrupt else ok (take n (drop off1 raw), off1 + n)

-- The source tests the three 8-byte numbers and the 4-byte one at once; so does `guard` here.
unfoldable pub decode_file : Bytes → ℕ → Result Error (FileMeta × ℕ)
unfolding block
decode_file raw off = do
  (name, off) ← block raw off
  guard (leb (off + 28) (length raw)) corrupt
  (level, off) ← number 4 raw off
  (max_seq, off) ← number 8 raw off
  (entries, off) ← number 8 raw off
  (file_size, off) ← number 8 raw off
  (min_key, off) ← block raw off
  (max_key, off) ← block raw off
  ok (
    record {
      name = name;
      level = level;
      min_key = min_key;
      max_key = max_key;
      max_seq = max_seq;
      entries = entries;
      file_size = file_size;
    },
    off,
  )

unfoldable pub decode_files : ℕ → Bytes → ℕ → Result Error (List FileMeta × ℕ)
unfolding decode_file
decode_files zero raw off = ok ([], off)
decode_files (suc n) raw off =
    decode_file raw off >>= λ (f, off1). decode_files n raw off1 >>= λ (fs, off2). ok (f ∷ fs, off2)

-- `now` is the clock's time in the format of `UpdatedAt`.
unfoldable pub decode_binary : Bytes → Bytes → Result Error State
unfolding decode_files
decode_binary now raw = if ltb (length raw) 28 then err corrupt else (do
  (magic, off) ← number 4 raw 0
  guard (magic == magic_binary) corrupt
  (version, off) ← number 4 raw off
  (next_file, off) ← number 8 raw off
  (log_seq, off) ← number 8 raw off
  (n, off) ← number 4 raw off
  (files, off) ← decode_files n raw off
  (want, _) ← number 4 raw off
  guard (checksum_castagnoli (take off raw) == want) corrupt
  ok (record {
    version = version;
    next_file = next_file;
    log_seq = log_seq;
    files = files;
    updated_at = now;
  }))

-- What `encoding/json` makes of a state and of a file's content.
pub record Json : Type 0 where
  pub to_json : State → Bytes
  pub of_json : Bytes → Option State

abbrev pub versioned : Option State → Result Error State
versioned none = err corrupt
versioned (some st) = ok (if st.version == 0 then record st { version = version_json } else st)

abbrev pub has_magic : Bytes → Bool
has_magic raw = if ltb (length raw) 4 then false else le_value (take 4 raw) == magic_binary

unfoldable pub decode : Json → Bytes → Bytes → Result Error State
unfolding decode_binary
decode j now raw = if has_magic raw then decode_binary now raw else versioned (j.of_json raw)
