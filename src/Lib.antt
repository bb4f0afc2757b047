-- ===== src/Lib.antt =====
-- go-durable-engine: an LSM key-value store with a write-ahead log.
--
-- The program. `lsmkv` is the database: a write goes to the write-ahead log (internal/wal), then to
-- the memtable (internal/memtable); a full memtable is flushed to an SSTable (internal/sstable), which
-- the manifest (internal/manifest) lists, and compaction (internal/compact) merges SSTables. All of
-- them write integers with internal/varintx and internal/byteutil and checksums with internal/crc32x.
--
-- What models what.
--   Varint           internal/varintx/varint.go: `encode_uint64` is EncodeUint64, and so on; Signed
--                    has zig-zag and the Reader.
--   Bytes            internal/byteutil/bytes.go; Endian has the integers of fixed width, Buffer
--                    internal/byteutil/buffer.go and AppendGrow.
--   Crc              internal/crc32x/crc.go and digest.go.
--   Wal.Encode       the payloads and frames that internal/wal/io.go writes.
--   Wal.Decode       decodeFrame, decodeOne and decodeBatch of internal/wal/replay.go.
--   Wal.Scan         scanValidPrefix, peekSeq and the loop of ReplayContext of the same file.
--   Wal.Log          the Log of internal/wal/io.go: AppendPut, AppendDelete, AppendBatch, Reset, Sync,
--                    Close, SetNextSeq, Open, recoverTail and ReplayContext, as functions from the
--                    log, and what the operating system answers, to the log and the result.
--   Manifest.Codec   EncodeBinary, decodeBinary and decode of internal/manifest/codec.go.
--   Manifest.Store   the Manifest of internal/manifest/store.go with its file.
--   Memtable         internal/memtable: the skip list of skiplist.go on a heap of nodes, where a pointer
--                    is an address, and MemTable. Search, Link, Insert, Write and Replace prove that
--                    the heap stays well formed, Contents is the sorted list that it stands for, and
--                    Operations and Refinement join them.
--   Bloom            internal/bloomx/filter.go and builder.go.
--   Sstable.Writer   Add, flushBlock, Finish and WriteFile of internal/sstable/writer.go.
--   Sstable.Reader   Open, readBlock, blockIter and Get of internal/sstable/reader.go.
--   Sstable.Iterator internal/sstable/iter.go.
--   Compact          PlanLevel0, CompactDirContext and PickBySize of internal/compact/plan.go; the merge
--                    of the chosen files is an argument.
--   Db               the DB of lsmkv: types.go, with normalize and walOpts of open.go. A read-write lock is
--                    always free, as calls run one after the other.
--   Db.Write         Put, Delete, Write, Sync, Flush and flushLocked of lsmkv/write.go, each a function
--                    from the database, and what the operating system answers, to the database and
--                    the result.
--   Db.Read          Get, Has, Stats and TableCount of lsmkv/read.go.
--   Db.Open          OpenContext, openTables, replayWALContext and closeUnlocked of lsmkv/open.go.
-- Sstable.Seeking to Lookup join the lookup in a block, in the index and in the Bloom filter to what
-- the writer did. Db.Serving defines the list of entries that the tables stand for, Sound the invariant
-- of a database in order, Recovery that of a recoverable one, whose log, manifest and tables hold all
-- of its entries; Fresh, Recoverable and Flushed show what makes a database recoverable, and Syncing
-- what of the log is on the disk.
-- The other modules prove; Examples runs the theorems at concrete inputs.
--
-- Conventions. A uint of w bits is a number below 2 ^ w with its wrap-around written out; an int64 is
-- its bit pattern where it can be negative. A slice is a list of bytes, or an option where the code
-- asks for nil. A pair of value and error is a `Result`. A panic of a slice expression is an error of
-- its own, and so is one of `make`, which fails on more than 2 ^ 48 bytes, as on 64-bit Linux; an
-- allocation below that which the machine cannot serve ends the process and is left out.
--
-- Crashes. Recoverable is about the content of the files, which outlives the end of the process
-- whether or not it was synced. A loss of power can take back what was not synced: `stable` of a log is
-- the content that is on the disk for sure, which a sync sets to the whole file; the policies SyncBatch
-- and SyncNone leave it behind the file. What a loss of power leaves of the manifest and of the tables
-- is not modelled.
--
-- The standard library. bytes.Compare is the lexicographic comparison of its documentation, which
-- byteutil.Compare hands on. hash/crc32 is the reflected CRC of the standard library, run from its polynomial;
-- encoding/json and fmt are parameters.
--
-- Fuel. The scan and the replay have one round of fuel more than the file has bytes, and each round
-- moves on by the nine bytes of a header at least. The varint loops recurse on the well-founded order
-- of the numbers. A walk on one level of the skip list has as much fuel as nodes were allocated, which
-- are more than the nodes behind the head. Seek in a block has one round more than the block has bytes,
-- and its binary search one for each restart point, which halves the points that are left.
--
-- Arguments. The draws of a level are an argument of a write to the skip list, and the sizes of a Bloom
-- filter, which New computes with floating-point logarithms, an argument of `build`. sort.Search is an
-- argument of the lookups in a table. `Env` holds these, JSON and the printing of a file's number for
-- the database; `Io`, `FlushIo`, `OpenIo` and `CloseIo` are the answers of the operating system to one
-- call. A node's array of pointers is a function of the level with the
-- length of the array beside it.
--
-- Bounds. A flush is of entries whose table is less than 4 GiB, as its offsets and lengths are uint32,
-- and a write of a number less than 2 ^ 64.
--
-- Not modelled: Compact of the database and the merge of a compaction, its merged iterator, the web
-- console, the file lock, locks between goroutines, directories and paths, what a failed opening leaves
-- behind, Abort of a writer.
pub mod Prelude
pub mod Varint
pub mod Bytes
pub mod Crc
pub mod Wal
pub mod Manifest
pub mod Compact
pub mod Memtable
pub mod Bloom
pub mod Sstable
pub mod Db
pub mod Examples
