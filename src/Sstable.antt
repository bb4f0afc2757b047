-- ===== src/Sstable.antt =====
-- internal/sstable: tables of blocks with restart points, an index, a Bloom filter and a footer.
-- A file is the bytes written to it; the calls of the operating system succeed. An int here is
-- below 2 ^ 63, and the panics of a slice expression out of range are errors of their own.
pub mod Writer
pub mod Reader
pub mod Iterator
pub mod Entries
pub mod Blocks
pub mod Flush
pub mod Table
pub mod Footer
pub mod Adding
pub mod Progress
pub mod Seeking
pub mod Restarts
pub mod Filled
pub mod Indexed
pub mod Picked
pub mod Holding
pub mod Taken
pub mod Whole
pub mod Lookup
use go_durable_engine.Prelude.{ℕ, Bool, Option, List, Bytes}
use go_durable_engine.Bytes.{Slice}

pub data Error : Type 0 where
  corrupt closed invalid bad_magic out_of_order panic : Error

abbrev pub magic_footer : ℕ
magic_footer = 0x5353_5442

abbrev pub restart_interval : ℕ
restart_interval = 16

abbrev pub default_block_size : ℕ
default_block_size = 4096

abbrev pub flag_delete : ℕ
flag_delete = 1

abbrev pub flag_value : ℕ
flag_value = 0

pub record Entry : Type 0 where
  pub key : Slice
  pub value : Bytes
  pub seq : ℕ
  pub deleted : Bool

pub record IndexRec : Type 0 where
  pub last_key : Slice
  pub offset : ℕ
  pub length : ℕ

pub record Meta : Type 0 where
  pub min_key : Slice
  pub max_key : Slice
  pub max_seq : ℕ
  pub entries : ℕ
  pub file_size : ℕ
