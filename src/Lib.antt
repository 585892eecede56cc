-- ===== src/Lib.antt =====
-- A verification library of indexedWatch: a log-structured merge tree, a write-ahead log and a
-- registry of schemas, written in Go.
--
-- Parts, files and code:
--   * Bytes: byte strings. compareKeys of pkg/lsm/version.go and compareBytes of
--     pkg/lsm/sstable/block.go are `compare_bytes`, bytesEqual of pkg/lsm/memtable/memtable.go is
--     `bytes_equal`. Bytes/Varint has encoding/binary's PutUvarint and Uvarint and varintLen of
--     pkg/lsm/sstable/format.go; Bytes/Fixed has little- and big-endian integers.
--   * Schema: pkg/schema/schema.go. Schema/Registry: pkg/schema/registry.go and walentry.go, over
--     the interface `Log` of the operations of pkg/wal that it calls, with their laws `LogLaws`;
--     Schema/Registry/WalLog is the two on Wal/Segment. Schema/Registry/TypeMap is
--     the map of types. A call is a function from the registry to a result and a registry.
--   * Wal/Frame: pkg/wal/encoder.go and decoder.go, with the state of the Encoder and the Decoder.
--     Wal/PageWriter: pkg/wal/pagewriter.go over any io.Writer. Wal/Segment: pkg/wal/wal.go, with a
--     file as the list of its bytes. Wal/SyncGroup: pkg/wal/sync_group.go, as events of goroutines.
--   * Lsm/Arena, Lsm/InternalKey, Lsm/VersionEdit, Lsm/Version: pkg/lsm/arena/arena.go,
--     pkg/lsm/memtable/internalkey.go, and the edits and the versions of pkg/lsm/version.go.
--     Lsm/Merge: pkg/lsm/merge_iterator.go, over sources as the entries that are left of them.
--     Lsm/Compaction: the choices of pkg/lsm/compaction.go, and the edit that a compaction logs.
--     Lsm/Manifest: VersionSet of pkg/lsm/version.go, with the MANIFEST as the list of its bytes.
--   * Lsm/SortedMap: what pkg/lsm/skiplist and the table iterator show to their callers, a sequence of
--     entries in order. Lsm/Memtable: pkg/lsm/memtable/memtable.go on it, with the arena that bounds it.
--     Lsm/Read: getFromMemtable, getFromTable and getFromVersion of pkg/lsm/lsm.go. Lsm/Database:
--     Open, Set, Delete, Get, NewSnapshot and Snapshot.Get of pkg/lsm/lsm.go.
--   * Sstable/Separator and Sstable/Block: shortSeparator and shortSuccessor of
--     pkg/lsm/sstable/writer.go, and pkg/lsm/sstable/block.go. Sstable/Bloom: pkg/lsm/sstable/bloom.go.
--     Sstable/Format: the handles and constants of pkg/lsm/sstable/format.go. Sstable/Writer:
--     pkg/lsm/sstable/writer.go over an io.Writer that takes all bytes, which are the file.
--     Sstable/Reader: pkg/lsm/sstable/reader.go over these bytes, with Get and the two-level iterator,
--     and no cache. Sstable/Cache: pkg/lsm/sstable/cache.go, whose pointers are numbers into a heap.
--   * Prelude: shared names, tests into Bool, lists.
--   Each part's Tests file has runs on concrete data.
--
-- Bounds: uint32 and uint64 arithmetic wraps where it is written with a modulus; lengths are
-- unbounded. Fuel: a loop that reads a file takes one more than the number of its bytes, since a
-- record takes four bytes at least; the theorems on other loops say how much is enough.
--
-- Parameters: the protobuf library (`EntryCodec`, `RecordCodec`: what was marshalled is read back;
-- `IsCompact` of Wal/Segment/Rotation: the wire form of a record takes at most 32 bytes besides the
-- payload) and the update function of hash/crc32 and the product with math.Ln2, a float, about which nothing
-- is assumed. `Platform` of Sstable/Format has what the tables use: CRC-32C, whose results are
-- uint32 values, the printing of numbers, and that product.
--
-- Not modelled: failures of the file system and of the reading of an open table, mutexes (methods that hold one lock from start to end
-- are single steps) and calls of the database that overlap in time, the towers of the skiplist and
-- its concurrent insertion, reference counts, the reader with a block cache, CreateWriter and
-- OpenReader, which open files, the outputs that a compaction writes, and the database's flushes
-- and iterators: a write of Lsm/Database only leaves the signal for a flush, so that in a sequence of
-- writes the full memtables stay in memory and the tables stay as they are. Encode takes records of
-- any size, and Decode rejects those above 64 MiB: the results on reading a segment back are about
-- records up to that size.
pub mod Prelude
pub mod Bytes
pub mod Schema
pub mod Lsm
pub mod Sstable
pub mod Wal
