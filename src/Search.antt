-- ===== src/Search.antt =====
-- src/search: matching of terms, and the collection of results.
pub mod Fuzzy
pub mod TopK
