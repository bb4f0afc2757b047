-- ===== src/Bytes/Buffer.antt =====
-- internal/byteutil/buffer.go, and `AppendGrow` of bytes.go: a growable buffer with its capacity,
-- and a sequential reader. Contents behind the length of a buffer are never read, so they are left
-- out; an argument that is an int in Go is a number here.
use go_durable_engine.Prelude.{
  ℕ, ◌+◌, ◌-◌, ◌*◌, ◌/◌, ◌%◌, ◌^◌, [], ◌∷◌, ◌++◌, length, take, drop, ltb, leb, ◌==◌, if◌then◌else◌,
  Result, ok, err, Bytes, Option, none, some,
}
use go_durable_engine.Bytes.Endian.{le_bytes, le_value, be_bytes}

pub record Buffer : Type 0 where
  pub buf : Bytes
  pub cap : ℕ

unfoldable pub new_buffer : ℕ → Buffer
new_buffer cap_hint = record { buf = []; cap = cap_hint }

unfoldable pub reset : Buffer → Buffer
reset b = record b { buf = [] }

-- `if capNew < need { capNew = need }`, and the same with 64.
abbrev pub at_least : ℕ → ℕ → ℕ
at_least cap_new bound = if ltb cap_new bound then bound else cap_new

unfoldable pub grow : Buffer → ℕ → Buffer
grow b n =
    if n == 0
    then b
    else if leb (length b.buf + n) b.cap
    then b
    else record b { cap = at_least (at_least (b.cap * 2) (length b.buf + n)) 64 }

-- `dst` with its capacity, as a buffer.
unfoldable pub append_grow : Buffer → Bytes → Buffer
append_grow dst src =
    let need = length dst.buf + length src in
    if leb need dst.cap
    then record dst { buf = dst.buf ++ src }
    else record { buf = dst.buf ++ src; cap = at_least (at_least (dst.cap * 3 / 2) need) 64 }

-- `Write` and `WriteString`, which return the length and no error.
unfoldable pub write : Buffer → Bytes → Buffer
unfolding append_grow
write b p = append_grow b p

unfoldable pub write_byte : Buffer → ℕ → Buffer
unfolding grow
write_byte b c = let g = grow b 1 in record g { buf = g.buf ++ c ∷ [] }

-- `WriteU16LE`, `WriteU32LE` and `WriteU64LE` are those of 2, 4 and 8 bytes.
unfoldable pub write_le : ℕ → Buffer → ℕ → Buffer
unfolding write
write_le w b v = write b (le_bytes w v)

unfoldable pub write_be : ℕ → Buffer → ℕ → Buffer
unfolding write
write_be w b v = write b (be_bytes w v)

unfoldable pub write_lp32 : Buffer → Bytes → Buffer
unfolding write_le
write_lp32 b p = write (write_le 4 b (length p % 2 ^ 32)) p

unfoldable pub truncate : Buffer → ℕ → Buffer
truncate b n =
    let n' = if ltb (length b.buf) n then length b.buf else n in record b { buf = take n' b.buf }

-- `Put` of a pool: a buffer of more than a mebibyte is not kept.
unfoldable pub pool_put : Option Buffer → Option Buffer
unfolding reset
pool_put none = none
pool_put (some b) = if ltb (2 ^ 20) b.cap then none else some (reset b)

pub data ReaderError : Type 0 where
  end_of_input overflow : ReaderError

pub record SliceReader : Type 0 where
  pub b : Bytes
  pub off : ℕ

abbrev pub remaining : SliceReader → ℕ
remaining r = length r.b - r.off

-- `Read` into a slice of `n` bytes.
unfoldable pub read : SliceReader → ℕ → SliceReader × Result ReaderError Bytes
read r n =
    if leb (length r.b) r.off
    then (r, err end_of_input)
    else let got = take n (drop r.off r.b) in (record r { off = r.off + length got }, ok got)

unfoldable pub read_n : SliceReader → ℕ → SliceReader × Result ReaderError Bytes
read_n r n =
    if ltb (length r.b) (r.off + n)
    then (r, err end_of_input)
    else (record r { off = r.off + n }, ok (take n (drop r.off r.b)))

-- `ReadU32LE` and `ReadU64LE`; `U32LE` cannot fail on the bytes that were read.
abbrev pub valued : SliceReader × Result ReaderError Bytes → SliceReader × Result ReaderError ℕ
valued (r, ok d) = (r, ok (le_value d))
valued (r, err e) = (r, err e)

unfoldable pub read_le : ℕ → SliceReader → SliceReader × Result ReaderError ℕ
unfolding read_n
read_le w r = valued (read_n r w)

abbrev pub blob : SliceReader × Result ReaderError ℕ → SliceReader × Result ReaderError Bytes
blob (r, ok n) = read_n r n
blob (r, err e) = (r, err e)

unfoldable pub read_lp32 : SliceReader → SliceReader × Result ReaderError Bytes
unfolding read_le
read_lp32 r = blob (read_le 4 r)

unfoldable pub seek : SliceReader → ℕ → SliceReader × Result ReaderError (Unit {0})
seek r off = if ltb (length r.b) off then (r, err overflow) else (record r { off = off }, ok tt)
