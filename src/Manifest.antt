-- ===== src/Manifest.antt =====
-- internal/manifest/types.go: the set of live SSTables. A Go string is its bytes; a key is its
-- content, nil and empty not told apart. `file_size` is the 64-bit pattern of the source's int64.
pub mod Codec
pub mod RoundTrip
pub mod Store
pub mod Reopen
use go_durable_engine.Prelude.{ℕ, List, Bytes}

pub data Error : Type 0 where
  corrupt io : Error

abbrev pub magic_binary : ℕ
magic_binary = 0x4D4E4653

abbrev pub version_json : ℕ
version_json = 1

pub record FileMeta : Type 0 where
  pub name : Bytes
  pub level : ℕ
  pub min_key : Bytes
  pub max_key : Bytes
  pub max_seq : ℕ
  pub entries : ℕ
  pub file_size : ℕ

pub record State : Type 0 where
  pub version : ℕ
  pub next_file : ℕ
  pub log_seq : ℕ
  pub files : List FileMeta
  pub updated_at : Bytes
