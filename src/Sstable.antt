-- ===== src/Sstable.antt =====
-- pkg/lsm/sstable: the sorted tables.
pub mod Separator
pub mod Block
pub mod Bloom
pub mod Format
pub mod Writer
pub mod Reader
pub mod Cache
pub mod Tests
