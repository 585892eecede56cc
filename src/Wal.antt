-- ===== src/Wal.antt =====
-- pkg/wal: the write-ahead log.
pub mod Frame
pub mod Segment
pub mod PageWriter
pub mod Tests
pub mod SyncGroup
