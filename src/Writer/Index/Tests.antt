-- ===== src/Writer/Index/Tests.antt =====
-- The theorems on src/writer/index_writer.rs at a writer that is new.
use drusdenx.Prelude.{ℕ, ◌%◌, ◌^◌, ◌<◌, ◌≡◌, List, [], ◌∷◌, ◌++◌, false, ◌||◌, ◌==◌, length, arith}
use drusdenx.Storage.Wal.{add_document_op, delete_document_op, commit_op}
use drusdenx.Writer.Index.{
  IndexWriter, new_segment_writer, write_document, add_document, commit, delete_document, flush,
  new_index_writer,
}
use drusdenx.Writer.Index.Contents.{Holds, HoldsPublished, IsConsistent, contents, segments_of}
use drusdenx.Writer.Index.Operations.{add_document_lem, commit_lem}
use drusdenx.Writer.Index.Files.{docs_of}
use drusdenx.Writer.Index.Compact.{compact, merge_segments_impl}
use drusdenx.Writer.Index.Compact.Merge.{not_merged, merge_segments_impl_lem}
use drusdenx.Storage.Segment.{Segment}
use drusdenx.Writer.Index.Compact.Laws.{kept, compact_lem}
use drusdenx.Mvcc.{current_snapshot}
use drusdenx.Writer.Index.Deletes.{is_deleted, delete_document_lem, flush-drops_deletes}
use drusdenx.Writer.Index.Samples.{
  list_bitmap, none_held, file_size, document, writer, writer-Holds,
}

abbrev added : IndexWriter ℕ (List ℕ)
added = add_document list_bitmap none_held file_size document writer

add_document_lem_example :
    Holds list_bitmap (document ∷ []) added
    × (added.wal.entries ≡ writer.wal.entries ++ add_document_op document ∷ [])
add_document_lem_example =
    add_document_lem list_bitmap none_held file_size [] document writer writer-Holds

added-Holds : Holds list_bitmap (document ∷ []) added
added-Holds =
    let (holds, _) =
      add_document_lem list_bitmap none_held file_size [] document writer writer-Holds in
    holds

commit_lem_example :
    let w = commit list_bitmap none_held file_size added in
    HoldsPublished list_bitmap (document ∷ []) w
    × (w.wal.entries ≡ added.wal.entries ++ commit_op ∷ [])
    × (w.wal.synced ≡ length w.wal.entries)
commit_lem_example = commit_lem list_bitmap none_held file_size (document ∷ []) added added-Holds

delete_document_lem_example :
    let w = delete_document list_bitmap none_held file_size 5 added in
    Holds list_bitmap (document ∷ []) w
    × ((id : ℕ)
        → is_deleted list_bitmap w id ≡ (5 % 2 ^ 32 == id) || is_deleted list_bitmap added id)
    × (w.wal.entries ≡ added.wal.entries ++ delete_document_op 5 ∷ [])
delete_document_lem_example =
    delete_document_lem list_bitmap none_held file_size (document ∷ []) 5 added added-Holds

one_document : 0 < added.segment_writer.segment.doc_count
unfolding add_document new_index_writer new_segment_writer write_document
one_document = omega arith

flush-drops_deletes_example :
    is_deleted list_bitmap (flush list_bitmap none_held file_size added) 5 ≡ false
flush-drops_deletes_example =
    flush-drops_deletes list_bitmap none_held file_size added 5 added-Holds.0 one_document

abbrev deleted : IndexWriter ℕ (List ℕ)
deleted = delete_document list_bitmap none_held file_size 5 added

deleted-IsConsistent : IsConsistent list_bitmap deleted
deleted-IsConsistent =
    let (holds, _, _) =
      delete_document_lem list_bitmap none_held file_size (document ∷ []) 5 added added-Holds in
    holds.0

compact_lem_example :
    let w = compact list_bitmap none_held file_size deleted in
    IsConsistent list_bitmap w
    × (contents list_bitmap w
        ≡ kept list_bitmap
            (current_snapshot {B = List ℕ} [] deleted.mvcc).deleted_docs
            (docs_of deleted.stored (segments_of list_bitmap deleted))
          ++ deleted.segment_writer.documents)
    × ((id : ℕ) → is_deleted list_bitmap w id ≡ false)
compact_lem_example = compact_lem list_bitmap none_held file_size deleted deleted-IsConsistent

abbrev committed : IndexWriter ℕ (List ℕ)
committed = commit list_bitmap none_held file_size added

committed-IsConsistent : IsConsistent list_bitmap committed
committed-IsConsistent =
    let ((holds, _), _, _) =
      commit_lem list_bitmap none_held file_size (document ∷ []) added added-Holds in
    holds.0

abbrev all_segments : List Segment
all_segments = segments_of list_bitmap committed

merge_segments_impl_lem_example :
    let w = merge_segments_impl list_bitmap none_held file_size all_segments committed in
    IsConsistent list_bitmap w
    × (contents list_bitmap w
        ≡ (docs_of committed.stored (not_merged all_segments all_segments)
            ++ kept list_bitmap
                (current_snapshot {B = List ℕ} [] committed.mvcc).deleted_docs
                (docs_of committed.stored all_segments))
          ++ committed.segment_writer.documents)
    × ((id : ℕ) → is_deleted list_bitmap w id ≡ false)
merge_segments_impl_lem_example =
    merge_segments_impl_lem list_bitmap none_held file_size all_segments committed
      committed-IsConsistent
