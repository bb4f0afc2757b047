-- ===== src/Wal.antt =====
-- internal/wal/types.go and policy.go: what the write-ahead log stores.
-- A key is a slice that may be nil, since a nil key is refused further on; of a value only the
-- content is kept, as no branch of the code asks whether a value is nil.
pub mod Encode
pub mod Decode
pub mod Scan
pub mod Ends
pub mod RoundTrip
pub mod Torn
pub mod Log
use go_durable_engine.Prelude.{ℕ, ◌+◌, Bool, Bytes}
use go_durable_engine.Bytes.{Slice}

-- `io` is an error of the operating system or the injected one, `cancelled` that of a context, `too_large` the unnamed error of
-- an oversized payload. `panic` is a slice expression out of range, which ends the program, and
-- `out_of_fuel` no behaviour of the code.
pub data Error : Type 0 where
  closed corrupt bad_type short_write too_large io cancelled panic out_of_fuel : Error

abbrev pub type_put : ℕ
type_put = 1

abbrev pub type_delete : ℕ
type_delete = 2

abbrev pub type_batch : ℕ
type_batch = 3

abbrev pub header_size : ℕ
header_size = 4 + 1 + 4

-- One decoded entry.
pub record Record : Type 0 where
  pub typ : ℕ
  pub key : Slice
  pub value : Bytes
  pub seq : ℕ
  pub deleted : Bool

pub record BatchEntry : Type 0 where
  pub key : Slice
  pub value : Bytes
  pub deleted : Bool
