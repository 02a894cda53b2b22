-- ===== src/Reader.antt =====
-- src/reader: readers of snapshots.
pub mod Pool
