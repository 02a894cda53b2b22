-- ===== src/Storage.antt =====
-- src/storage: the data of segments, and the deleted-document bitmap that the program takes from the
-- roaring crate.
pub mod Segment
pub mod Bitmap
pub mod MergePolicy
pub mod Frame
pub mod Wal
pub mod Checkpoint
