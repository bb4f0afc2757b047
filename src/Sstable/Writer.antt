-- ===== src/Sstable/Writer.antt =====
-- The writer of internal/sstable/writer.go.
use go_durable_engine.Prelude.{
  ℕ, ◌+◌, ◌-◌, ◌%◌, ◌^◌, Bool, true, false, Option, none, some, List, [], ◌∷◌, ◌++◌, length, drop,
  ltb, leb, ◌==◌, if◌then◌else◌, Result, ok, err, Bytes,
}
use go_durable_engine.Bytes.{Slice, content, compare, is_neg, shared_prefix_len}
use go_durable_engine.Bytes.Endian.{le_bytes}
use go_durable_engine.Crc.{checksum_castagnoli}
use go_durable_engine.Varint.{encode_uint64}
use go_durable_engine.Bloom.{Builder, Filter, builder_add, build, marshal_binary}
use go_durable_engine.Sstable.{
  Error, Entry, IndexRec, Meta, magic_footer, restart_interval, default_block_size, flag_delete,
  flag_value,
}

-- `file` is what was written; its length is the offset that `Seek` returns.
pub record Writer : Type 0 where
  pub file : Bytes
  pub block_size : ℕ
  pub restart_int : ℕ
  pub buf : Bytes
  pub restarts : List ℕ
  pub entry_count : ℕ
  pub block_entries : ℕ
  pub last_key : Slice
  pub index : List IndexRec
  pub bloom : Builder
  pub min_key : Slice
  pub max_key : Slice
  pub max_seq : ℕ
  pub closed : Bool

-- The options, where a number that is not positive is 0 here, and the writer that `Create` makes.
unfoldable pub create : ℕ → ℕ → Writer
create block_size restart_int = record {
  file = [];
  block_size = if block_size == 0 then default_block_size else block_size;
  restart_int = if restart_int == 0 then restart_interval else restart_int;
  buf = [];
  restarts = [];
  entry_count = 0;
  block_entries = 0;
  last_key = none;
  index = [];
  bloom = record { keys = [] };
  min_key = none;
  max_key = none;
  max_seq = 0;
  closed = false;
}

-- `w.lastKey != nil && Compare(key, w.lastKey) < 0`
unfoldable pub is_before : Bytes → Slice → Bool
is_before key none = false
is_before key (some last) = is_neg (compare key last)

abbrev pub or_key : Slice → Bytes → Slice
or_key none key = some key
or_key (some k) key = some k

-- What the entry shares with the key before it; `none` at a restart point.
unfoldable pub shared_with : Writer → Bytes → Option ℕ
shared_with w key = elim w.last_key [
  | none ↦ none
  | some last ↦
      if w.block_entries % w.restart_int == 0 then none else some (shared_prefix_len last key)
]

abbrev pub or_zero : Option ℕ → ℕ
or_zero none = 0
or_zero (some n) = n

abbrev pub flag_of : Bool → ℕ
flag_of deleted = if deleted then flag_delete else flag_value

unfoldable pub encode_entry : ℕ → Bytes → Bytes → ℕ → Bool → Bytes
encode_entry shared key value seq deleted =
    let e1 = encode_uint64 [] shared in
    let e2 = encode_uint64 e1 (length key - shared) in
    let e3 = encode_uint64 e2 (length value) in
    let e4 = encode_uint64 e3 seq in
    let e5 = e4 ++ flag_of deleted ∷ [] in (e5 ++ drop shared key) ++ value

-- The loop that appends the restart points.
unfoldable pub put_restarts : Bytes → List ℕ → Bytes
put_restarts block [] = block
put_restarts block (off ∷ offs) = put_restarts (block ++ le_bytes 4 (off % 2 ^ 32)) offs

-- The block without its checksum, and with it.
unfoldable pub block_body : Bytes → List ℕ → Bytes
unfolding put_restarts
block_body buf restarts = put_restarts buf restarts ++ le_bytes 4 (length restarts % 2 ^ 32)

unfoldable pub with_crc : Bytes → Bytes
with_crc b = b ++ le_bytes 4 (checksum_castagnoli b)

unfoldable pub flush_block : Writer → Writer
unfolding block_body with_crc
flush_block w =
    let block = with_crc (block_body w.buf w.restarts) in
    if length w.buf == 0 then w else record w {
      file = w.file ++ block;
      index =
          w.index
          ++ record { last_key = w.last_key; offset = length w.file; length = length block } ∷ [];
      buf = [];
      restarts = [];
      block_entries = 0;
    }

-- The state after the entry was put into the buffer.
unfoldable pub buffered : Writer → Bytes → Entry → Writer
unfolding shared_with encode_entry
buffered w key e =
    let shared = shared_with w key in
    record w {
      min_key = or_key w.min_key key;
      max_key = some key;
      max_seq = if ltb w.max_seq e.seq then e.seq else w.max_seq;
      bloom = builder_add w.bloom key;
      restarts = elim shared [ none ↦ w.restarts ++ length w.buf ∷ [] | some n ↦ w.restarts ];
      buf = w.buf ++ encode_entry (or_zero shared) key e.value e.seq e.deleted;
      last_key = some key;
      entry_count = w.entry_count + 1;
      block_entries = w.block_entries + 1;
    }

unfoldable pub add : Writer → Entry → Result Error Writer
unfolding is_before buffered flush_block
add w e = if w.closed then err Error.closed else elim e.key [
  | none ↦ err Error.invalid
  | some key ↦
      if is_before key w.last_key
      then err Error.out_of_order
      else let w' = buffered w key e in
        ok (if leb w'.block_size (length w'.buf) then flush_block w' else w')
]

-- The loop of `WriteFile`.
unfoldable pub add_entries : Writer → List Entry → Result Error Writer
add_entries w [] = ok w
add_entries w (e ∷ es) = elim (add w e) [ err x ↦ err x | ok w' ↦ add_entries w' es ]

unfoldable pub put_index : Bytes → List IndexRec → Bytes
put_index b [] = b
put_index b (r ∷ rs) =
    let b1 = encode_uint64 b (length (content r.last_key)) in
    let b2 = b1 ++ content r.last_key in
    put_index (encode_uint64 (encode_uint64 b2 r.offset) r.length) rs

unfoldable pub index_bytes : List IndexRec → Bytes
unfolding put_index with_crc
index_bytes index = with_crc (put_index (encode_uint64 [] (length index)) index)

pub record Footer : Type 0 where
  pub index_off : ℕ
  pub index_len : ℕ
  pub bloom_off : ℕ
  pub bloom_len : ℕ
  pub max_seq : ℕ
  pub entries : ℕ

unfoldable pub footer_bytes : Footer → Bytes
footer_bytes f =
    le_bytes 4 magic_footer
    ++ (le_bytes 8 f.index_off
        ++ (le_bytes 8 f.index_len
            ++ (le_bytes 8 f.bloom_off
                ++ (le_bytes 8 f.bloom_len
                    ++ (le_bytes 8 f.max_seq
                        ++ (le_bytes 8 f.entries ++ le_bytes 4 magic_footer))))))

-- What is written behind the blocks, once the filter is built.
unfoldable pub finished : Writer → Filter → Meta × Writer
unfolding index_bytes footer_bytes
finished w bf =
    let bdata = marshal_binary bf in
    let indexed = index_bytes w.index in
    let footer : Footer = record {
      index_off = length w.file + length bdata;
      index_len = length indexed;
      bloom_off = length w.file;
      bloom_len = length bdata;
      max_seq = w.max_seq;
      entries = w.entry_count;
    } in
    let file = ((w.file ++ bdata) ++ indexed) ++ footer_bytes footer in
    (
      record {
        min_key = w.min_key;
        max_key = w.max_key;
        max_seq = w.max_seq;
        entries = w.entry_count;
        file_size = length file;
      },
      record w { file = file; closed = true },
    )

-- `sizes` are the sizes that the Bloom filter is made with.
unfoldable pub finish : (ℕ → ℕ × ℕ) → Writer → Result Error (Meta × Writer)
unfolding flush_block finished
finish sizes w = if w.closed then err Error.closed else elim (build sizes w.bloom) [
  | none ↦ err Error.panic
  | some bf ↦ ok (finished (flush_block w) bf)
]

unfoldable pub write_file : (ℕ → ℕ × ℕ) → Writer → List Entry → Result Error (Meta × Writer)
unfolding add_entries finish
write_file sizes w es = elim (add_entries w es) [ err x ↦ err x | ok w' ↦ finish sizes w' ]
