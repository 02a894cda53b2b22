-- ===== src/Writer/Index/Deletes.antt =====
-- Deletes by the index writer (src/writer/index_writer.rs): the set of deleted documents that the
-- current snapshot has.
use drusdenx.Prelude.{
  ℕ, ◌%◌, ◌^◌, ◌<◌, ◌≡◌, refl, ap, ◌∙◌, List, [], ◌∷◌, Bool, true, false, ◌||◌, ◌++◌, ◌==◌, lt→ltb,
}
use drusdenx.Storage.Segment.{Document}
use drusdenx.Storage.Bitmap.{Bitmap}
use drusdenx.Storage.MergePolicy.{should_merge}
use drusdenx.Storage.Wal.{delete_document_op}
use drusdenx.Mvcc.{Snapshot, current_snapshot, create_snapshot_with_deletes}
use drusdenx.Mvcc.Publish.{current_snapshot-create}
use drusdenx.Writer.{append}
use drusdenx.Writer.Index.{
  IndexWriter, log_operation, delete_document_internal, delete_document, flush, replace_writer,
  with_finished,
}
use drusdenx.Writer.Index.Files.{docs_of}
use drusdenx.Writer.Index.Contents.{
  IsConsistent, Holds, with_log-Holds, merges_started, publish_segments_lem, segments_of,
}

module _ (bitmap : Bitmap) {Fields : Type 0} where
  abbrev pub is_deleted : IndexWriter Fields bitmap.Bits → ℕ → Bool
  is_deleted w id = bitmap.contains (current_snapshot bitmap.new w.mvcc).deleted_docs id

  module _ (held : ℕ → ℕ) (size : List (Document Fields) → ℕ) where
    -- The writer after its new snapshot is published.
    abbrev mark : ℕ → IndexWriter Fields bitmap.Bits → IndexWriter Fields bitmap.Bits
    mark doc_id w =
        let snapshot = current_snapshot bitmap.new w.mvcc in
        record w {
          mvcc =
              (create_snapshot_with_deletes held w.mvcc snapshot.segments
                (bitmap.insert snapshot.deleted_docs (doc_id % 2 ^ 32))).0;
        }

    mark_lem :
        (docs : List (Document Fields)) (doc_id : ℕ) (w : IndexWriter Fields bitmap.Bits)
        → Holds bitmap docs w
        → Holds bitmap docs (mark doc_id w)
          × ((id : ℕ) → is_deleted (mark doc_id w) id ≡ (doc_id % 2 ^ 32 == id) || is_deleted w id)
    mark_lem docs doc_id w (c, e) =
        let snapshot = current_snapshot bitmap.new w.mvcc in
        let deleted = bitmap.insert snapshot.deleted_docs (doc_id % 2 ^ 32) in
        let (valid, current, same, marked) =
          current_snapshot-create held bitmap.new deleted snapshot.segments w.mvcc c.versions in
        let kept : segments_of bitmap (mark doc_id w) ≡ segments_of bitmap w =
          ap (λ s. s.segments) current ∙ same in
        (
          (
            record {
              versions = valid;
              older = rw kept c.older;
              fresh = c.fresh;
              counted = c.counted;
            },
            ap (λ segments. docs_of w.stored segments ++ w.segment_writer.documents) kept ∙ e,
          ),
          λ id.
              ap (λ (s : Snapshot bitmap.Bits). bitmap.contains s.deleted_docs id) current
              ∙ ap (λ d. bitmap.contains d id) marked
              ∙ bitmap.contains-insert snapshot.deleted_docs (doc_id % 2 ^ 32) id,
        )

    -- A delete, logged or not.
    pub delete_document_internal_lem :
        (docs : List (Document Fields)) (doc_id : ℕ) (b : Bool) (w : IndexWriter Fields bitmap.Bits)
        → Holds bitmap docs w
        → let w' = delete_document_internal bitmap held size doc_id b w in
          Holds bitmap docs w'
          × ((id : ℕ) → is_deleted w' id ≡ (doc_id % 2 ^ 32 == id) || is_deleted w id)
          × (w'.wal ≡ (log_operation bitmap held size b (delete_document_op doc_id) w).wal)
    unfolding delete_document_internal log_operation
    delete_document_internal_lem docs doc_id false w h =
        let (holds, marks) = mark_lem docs doc_id w h in (holds, marks, refl)
    delete_document_internal_lem docs doc_id true w h =
        let logged : IndexWriter Fields bitmap.Bits = record w {
          wal = append (delete_document_op doc_id) w.wal;
        } in
        let (holds, marks) =
          mark_lem docs doc_id logged (with_log-Holds bitmap docs logged.wal w h) in
        (holds, marks, refl)

    -- A delete keeps the documents that the writer holds in their files, is logged after what the log
    -- holds, and marks as deleted the documents with the lower 32 bits of the given id and no other.
    pub delete_document_lem :
        (docs : List (Document Fields)) (doc_id : ℕ) (w : IndexWriter Fields bitmap.Bits)
        → Holds bitmap docs w
        → let w' = delete_document bitmap held size doc_id w in
          Holds bitmap docs w'
          × ((id : ℕ) → is_deleted w' id ≡ (doc_id % 2 ^ 32 == id) || is_deleted w id)
          × (w'.wal.entries ≡ w.wal.entries ++ delete_document_op doc_id ∷ [])
    unfolding delete_document log_operation append
    delete_document_lem docs doc_id w h =
        let (holds, marks, log) = delete_document_internal_lem docs doc_id true w h in
        (holds, marks, ap (λ l. l.entries) log)

    -- A flush of a writer that has a document in its segment publishes a snapshot in which no document
    -- is deleted, whatever was deleted before.
    pub flush-drops_deletes :
        (w : IndexWriter Fields bitmap.Bits) (id : ℕ)
        → IsConsistent bitmap w
        → 0 < w.segment_writer.segment.doc_count
        → is_deleted (flush bitmap held size w) id ≡ false
    unfolding flush
    flush-drops_deletes w id c h = rw (lt→ltb 0 w.segment_writer.segment.doc_count h) (
        let (merges, started) =
          merges_started bitmap held size
            (should_merge w.merge_policy (with_finished bitmap held size w))
            (with_finished bitmap held size w) (replace_writer bitmap held size w) in
        rw started (
          let (_, _, empty) =
            publish_segments_lem bitmap held size (with_finished bitmap held size w)
              (record (replace_writer bitmap held size w) { merges = merges })
              (unfold replace_writer in c.versions) in
          ap (λ d. bitmap.contains d id) empty ∙ bitmap.contains-new id))
