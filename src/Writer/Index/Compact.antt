-- ===== src/Writer/Index/Compact.antt =====
-- Rewriting of segments by the index writer (src/writer/index_writer.rs): `compact`, and the body of
-- the thread that merges segments. The thread runs at once here, with no other in between.
pub mod Laws
pub mod Merge
use drusdenx.Prelude.{
  ℕ, ◌+◌, ◌%◌, ◌^◌, List, [], ◌∷◌, ◌++◌, Bool, not, ◌==◌, any, keep, if◌then◌else◌,
}
use drusdenx.Storage.Segment.{Segment, Document}
use drusdenx.Storage.Bitmap.{Bitmap}
use drusdenx.Storage.Wal.{commit_op}
use drusdenx.Writer.{append, sync}
use drusdenx.Mvcc.{Snapshot, current_snapshot, create_snapshot_with_deletes}
use drusdenx.Writer.Index.{
  SegmentWriter, IndexWriter, new_segment_writer, write_document, finish, publish_segments,
}

module _ (bitmap : Bitmap) {Fields : Type 0} (held : ℕ → ℕ)
    (size : List (Document Fields) → ℕ) where
  -- The loop over the documents of a file, with the set of deleted documents.
  pub write_kept :
      bitmap.Bits → List (Document Fields) → SegmentWriter Fields → SegmentWriter Fields
  unfolding write_document
  write_kept deleted [] sw = sw
  write_kept deleted (doc ∷ docs) sw =
      write_kept deleted docs
        (if bitmap.contains deleted (doc.id % 2 ^ 32) then sw else write_document doc sw)

  -- The loop of `compact` over the segments, with what the files hold and the next id.
  pub compact_loop :
      bitmap.Bits
      → List Segment
      → (ℕ → List (Document Fields))
      → ℕ
      → List Segment × (ℕ → List (Document Fields)) × ℕ
  unfolding write_kept finish new_segment_writer
  compact_loop deleted [] stored next_id = ([], stored, next_id)
  compact_loop deleted (s ∷ segments) stored next_id =
      let sw = write_kept deleted (stored s.id) (new_segment_writer next_id) in
      let (rest, stored', next_id') =
        compact_loop deleted segments (λ id. if id == next_id then sw.documents else stored id)
          (next_id + 1) in
      (finish bitmap held size sw ∷ rest, stored', next_id')

  pub compact : IndexWriter Fields bitmap.Bits → IndexWriter Fields bitmap.Bits
  unfolding compact_loop
  compact w =
      let snapshot : Snapshot bitmap.Bits = current_snapshot bitmap.new w.mvcc in
      let (segments, stored, next_id) =
        compact_loop snapshot.deleted_docs snapshot.segments w.stored w.next_id in
      if bitmap.is_empty snapshot.deleted_docs then w else record w {
        mvcc = (create_snapshot_with_deletes held w.mvcc segments bitmap.new).0;
        stored = stored;
        next_id = next_id;
        wal = sync (append commit_op w.wal);
      }

  -- The loop of `merge_segments_impl` over the segments to merge.
  pub copy_all :
      bitmap.Bits
      → (ℕ → List (Document Fields))
      → List Segment
      → SegmentWriter Fields
      → SegmentWriter Fields
  unfolding write_kept
  copy_all deleted stored [] sw = sw
  copy_all deleted stored (s ∷ segments) sw =
      copy_all deleted stored segments (write_kept deleted (stored s.id) sw)

  pub merge_segments_impl :
      List Segment → IndexWriter Fields bitmap.Bits → IndexWriter Fields bitmap.Bits
  unfolding copy_all new_segment_writer finish publish_segments
  merge_segments_impl segments_to_merge w =
      let snapshot : Snapshot bitmap.Bits = current_snapshot bitmap.new w.mvcc in
      let merged_writer =
        copy_all snapshot.deleted_docs w.stored segments_to_merge (new_segment_writer w.next_id) in
      let kept = keep (λ s. not (any (λ t. t.id == s.id) segments_to_merge)) snapshot.segments in
      publish_segments bitmap held size (kept ++ finish bitmap held size merged_writer ∷ [])
        (record w {
          stored = λ id. if id == w.next_id then merged_writer.documents else w.stored id;
          next_id = w.next_id + 1;
        })
