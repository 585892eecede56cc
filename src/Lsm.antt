-- ===== src/Lsm.antt =====
-- pkg/lsm: the log-structured merge tree.
pub mod Arena
pub mod InternalKey
pub mod VersionEdit
pub mod Tests
pub mod Version
pub mod Manifest
pub mod Compaction
pub mod SortedMap
pub mod Memtable
pub mod Merge
pub mod Read
pub mod Database
