-- ===== src/Sstable/Footer.antt =====
-- Opening a table that was finished.
use go_durable_engine.Prelude.{
  ◌*◌, ℕ, ◌+◌, ◌-◌, ◌^◌, ◌≤◌, ◌<◌, ◌≡◌, refl, sym, ap, ◌∙◌, Bool, true, false, Option, none, some,
  List, [], ◌++◌, map, append-nil, append_assoc, arith, length, length-append, length-drop, take,
  drop, ltb, if◌then◌else◌, Result, ok, err, Bytes, IsUint64, All,
}
use go_durable_engine.Prelude.Pieces.{IsAt, IsAt-start}
use go_durable_engine.Bytes.Endian.{le_bytes, le_value}
use go_durable_engine.Bloom.{Filter, build, marshal_binary, unmarshal_binary}
use go_durable_engine.Bloom.Codec.{le_at, IsMarshallable, unmarshal_binary-marshal_binary}
use go_durable_engine.Sstable.{Error, IndexRec, Meta, magic_footer}
use go_durable_engine.Sstable.Writer.{
  Writer, flush_block, index_bytes, Footer, footer_bytes, finished, finish,
}
use go_durable_engine.Sstable.Reader.{read_at, parse_index, open_table, index_rec_size}
use go_durable_engine.Sstable.Flush.{read_at-piece}
use go_durable_engine.Sstable.Table.{IsIndexRec, stored_rec, parse_index-index_bytes}

record IsFooter (b : Bytes) (f : Footer) : Type 0 where
  pub magic : le_value (take 4 b) ≡ magic_footer
  pub index_off : le_value (take 8 (drop 4 b)) ≡ f.index_off
  pub index_len : le_value (take 8 (drop 12 b)) ≡ f.index_len
  pub bloom_off : le_value (take 8 (drop 20 b)) ≡ f.bloom_off
  pub bloom_len : le_value (take 8 (drop 28 b)) ≡ f.bloom_len
  pub max_seq : le_value (take 8 (drop 36 b)) ≡ f.max_seq
  pub entries : le_value (take 8 (drop 44 b)) ≡ f.entries
  pub magic_end : le_value (take 4 (drop 52 b)) ≡ magic_footer
  pub size : length b ≡ 56

abbrev pub FitsFooter : Footer → Type 0
FitsFooter f =
    IsUint64 f.index_off
    × IsUint64 f.index_len
    × IsUint64 f.bloom_off
    × IsUint64 f.bloom_len
    × IsUint64 f.max_seq
    × IsUint64 f.entries

footer_bytes-IsFooter : (f : Footer) → FitsFooter f → IsFooter (footer_bytes f) f
unfolding footer_bytes
footer_bytes-IsFooter f fits =
    let b = footer_bytes f in
    let t7 = le_bytes 4 magic_footer in
    let t6 = le_bytes 8 f.entries ++ t7 in
    let t5 = le_bytes 8 f.max_seq ++ t6 in
    let t4 = le_bytes 8 f.bloom_len ++ t5 in
    let t3 = le_bytes 8 f.bloom_off ++ t4 in
    let t2 = le_bytes 8 f.index_len ++ t3 in
    let t1 = le_bytes 8 f.index_off ++ t2 in
    let a0 = le_at {p = b} {off = 0} 4 magic_footer t1 (omega arith) (IsAt-start b) in
    let a1 = le_at {p = b} {off = 4} 8 f.index_off t2 fits.0 a0.1 in
    let a2 = le_at {p = b} {off = 12} 8 f.index_len t3 fits.1 a1.1 in
    let a3 = le_at {p = b} {off = 20} 8 f.bloom_off t4 fits.2 a2.1 in
    let a4 = le_at {p = b} {off = 28} 8 f.bloom_len t5 fits.3 a3.1 in
    let a5 = le_at {p = b} {off = 36} 8 f.max_seq t6 fits.4 a4.1 in
    let a6 = le_at {p = b} {off = 44} 8 f.entries t7 fits.5 a5.1 in
    let last : IsAt b 52 (t7 ++ []) = rw (append-nil t7) a6.1 in
    let a7 = le_at {p = b} {off = 52} 4 magic_footer [] (omega arith) last in
    record {
      magic = a0.0;
      index_off = a1.0;
      index_len = a2.0;
      bloom_off = a3.0;
      bloom_len = a4.0;
      max_seq = a5.0;
      entries = a6.0;
      magic_end = a7.0;
      size = omega (arith, a7.1.within, ap length a7.1.tail, length-drop 56 b);
    }

le-ltb : (n m : ℕ) → m ≤ n → ltb n m ≡ false
le-ltb n m h = ground arith

-- What `Open` needs of a file.
open_table-parts :
    (file fb bb ib : Bytes) (f : Footer) (bf : Filter) (index : List IndexRec)
    → 56 ≤ length file
    → read_at file (length file - 56) 56 ≡ ok fb
    → IsFooter fb f
    → read_at file f.bloom_off f.bloom_len ≡ ok bb
    → unmarshal_binary bb ≡ ok bf
    → read_at file f.index_off f.index_len ≡ ok ib
    → parse_index ib ≡ ok index
    → open_table file
      ≡ ok (record {
        file = file;
        index = index;
        bloom = bf;
        max_seq = f.max_seq;
        entries = f.entries;
      })
unfolding open_table
open_table-parts file fb bb ib f bf index long rf foot rb ub ri pi =
    let g : ltb (length file) 56 ≡ false = le-ltb (length file) 56 long in
    rw
      (
        g, rf, foot.magic, foot.magic_end, foot.bloom_off, foot.bloom_len, rb, ub, foot.index_off,
        foot.index_len, ri, pi, foot.max_seq, foot.entries,
      )
      refl

read_at-end : (a b : Bytes) → read_at (a ++ b) (length a) (length b) ≡ ok b
read_at-end a b = rw (append-nil b) at (read_at-piece a b [])

pub finish-open :
    (sizes : ℕ → ℕ × ℕ) (w : Writer) (bf : Filter)
    → w.closed ≡ false
    → build sizes w.bloom ≡ some bf
    → finish sizes w ≡ ok (finished (flush_block w) bf)
unfolding finish
finish-open sizes w bf is_open built =
    ap
      (λ (c : Bool). if c then err Error.closed else elim (build sizes w.bloom) [
        | none ↦ err Error.panic
        | some f ↦ ok (finished (flush_block w) f)
      ])
      is_open
    ∙ ap
        (λ (o : Option Filter). elim o as (λ x. Result Error (Meta × Writer)) [
          | none ↦ err Error.panic
          | some f ↦ ok (finished (flush_block w) f)
        ])
        built

-- A table that was finished is opened again: the checksums and the magic numbers hold, and the
-- reader has the writer's index, its Bloom filter, its greatest sequence number and its number of
-- entries. The sizes are those of a file of less than 2 ^ 63 bytes, with an index that a slice can be
-- made for.
pub open_table-finish :
    (sizes : ℕ → ℕ × ℕ) (w : Writer) (bf : Filter)
    → w.closed ≡ false
    → build sizes w.bloom ≡ some bf
    → IsMarshallable bf
    → All IsIndexRec (flush_block w).index
    → length (flush_block w).index * index_rec_size ≤ 2 ^ 48
    → IsUint64 (flush_block w).max_seq
    → IsUint64 (flush_block w).entry_count
    → length (flush_block w).file
        + length (marshal_binary bf)
        + length (index_bytes (flush_block w).index)
      < 2 ^ 63
    → (m : Meta) × (w' : Writer) × (finish sizes w ≡ ok (m, w'))
      × (open_table w'.file
          ≡ ok (record {
            file = w'.file;
            index = map stored_rec (flush_block w).index;
            bloom = bf;
            max_seq = (flush_block w).max_seq;
            entries = (flush_block w).entry_count;
          }))
      × (m.file_size ≡ length w'.file)
unfolding finished
open_table-finish sizes w bf is_open built good recs few seqs count small =
    let w1 = flush_block w in
    let bdata = marshal_binary bf in
    let indexed = index_bytes w1.index in
    let footer : Footer = record {
      index_off = length w1.file + length bdata;
      index_len = length indexed;
      bloom_off = length w1.file;
      bloom_len = length bdata;
      max_seq = w1.max_seq;
      entries = w1.entry_count;
    } in
    let fb = footer_bytes footer in
    let file = ((w1.file ++ bdata) ++ indexed) ++ fb in
    let foot =
      footer_bytes-IsFooter footer
        (omega arith, omega arith, omega arith, omega arith, seqs, count) in
    let l1 = length-append w1.file bdata in
    let l2 = length-append (w1.file ++ bdata) indexed in
    let l3 = length-append ((w1.file ++ bdata) ++ indexed) fb in
    let end : length file - 56 ≡ length ((w1.file ++ bdata) ++ indexed) =
      omega (arith, l3, foot.size) in
    let r_foot : read_at file (length file - 56) 56 ≡ ok fb =
      ap (λ (t : ℕ). read_at file t 56) end
      ∙ ap (read_at file (length ((w1.file ++ bdata) ++ indexed))) (sym foot.size)
      ∙ read_at-end ((w1.file ++ bdata) ++ indexed) fb in
    let r_bloom : read_at file (length w1.file) (length bdata) ≡ ok bdata =
      ap (λ (t : Bytes). read_at t (length w1.file) (length bdata))
        (append_assoc (w1.file ++ bdata) indexed fb ∙ append_assoc w1.file bdata (indexed ++ fb))
      ∙ read_at-piece w1.file bdata (indexed ++ fb) in
    let r_index : read_at file (length w1.file + length bdata) (length indexed) ≡ ok indexed =
      ap (λ (t : Bytes). read_at t (length w1.file + length bdata) (length indexed))
        (append_assoc (w1.file ++ bdata) indexed fb)
      ∙ ap (λ (t : ℕ). read_at ((w1.file ++ bdata) ++ (indexed ++ fb)) t (length indexed)) (sym l1)
      ∙ read_at-piece (w1.file ++ bdata) indexed fb in
    (
      record {
        min_key = w1.min_key;
        max_key = w1.max_key;
        max_seq = w1.max_seq;
        entries = w1.entry_count;
        file_size = length file;
      },
      record w1 { file = file; closed = true },
      finish-open sizes w bf is_open built,
      open_table-parts file fb bdata indexed footer bf (map stored_rec w1.index)
          (omega (arith, l3, foot.size)) r_foot foot r_bloom
          (unmarshal_binary-marshal_binary bf good) r_index
          (parse_index-index_bytes w1.index recs (omega arith) few),
      refl,
    )
