-- ===== src/Storage/Segment.antt =====
-- src/storage/segment.rs and src/core/types.rs: segments and documents. A segment id stands for a
-- random UUID; creation times are left out.
use drusdenx.Prelude.{ℕ}

pub record SegmentMetadata : Type 0 where
  pub size_bytes : ℕ
  pub min_doc_id : ℕ
  pub max_doc_id : ℕ

pub record Segment : Type 0 where
  pub id : ℕ
  pub doc_count : ℕ
  pub metadata : SegmentMetadata

-- A document with its fields, whose type is of no concern to the storage layer.
pub record Document (Fields : Type 0) : Type 0 where
  pub id : ℕ
  pub fields : Fields
