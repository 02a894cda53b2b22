-- ===== src/Index.antt =====
-- src/index: posting lists and skip lists.
pub mod Posting
pub mod SkipList
pub mod Inverted
