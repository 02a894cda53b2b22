-- ===== src/Writer/Index.antt =====
-- src/writer/index_writer.rs: the single writer of the index, over its log, the segment that it fills
-- and the controller of versions. `stored` is what the finished segment files hold, by segment id; a
-- new id is a number that was not used before. `size` stands for the length of a segment file. The
-- entries that the writer adds to the inverted index of a segment are left out, as is the time at
-- which the threads that merge segments run: `merges` keeps the lists that they are started with.
pub mod Files
pub mod Contents
pub mod Operations
pub mod Deletes
pub mod Compact
pub mod Samples
mod Tests
use drusdenx.Prelude.{
  ℕ, zero, suc, ◌+◌, ◌-◌, ◌%◌, ◌^◌, min, max, List, [], ◌∷◌, ◌++◌, Bool, true, ltb, leb, ◌==◌,
  is_empty, length, if◌then◌else◌,
}
use drusdenx.Storage.Segment.{Segment, SegmentMetadata, Document}
use drusdenx.Storage.Bitmap.{Bitmap}
use drusdenx.Storage.MergePolicy.{
  TieredMergePolicy, default_policy, should_merge, select_segments_to_merge,
}
use drusdenx.Storage.Wal.{
  Operation, add_document_op, update_document_op, delete_document_op, commit_op,
}
use drusdenx.Mvcc.{
  Snapshot, Controller, current_snapshot, create_snapshot, create_snapshot_with_deletes,
}
use drusdenx.Writer.{Log, append, sync}

pub record SegmentWriter (Fields : Type 0) : Type 0 where
  pub segment : Segment
  pub documents : List (Document Fields)

pub record IndexWriter (Fields B : Type 0) : Type 0 where
  pub segment_writer : SegmentWriter Fields
  pub wal : Log Fields
  pub mvcc : Controller B
  pub stored : ℕ → List (Document Fields)
  pub next_id : ℕ
  pub batch_size : ℕ
  pub merge_policy : TieredMergePolicy
  pub merges : List (List Segment)

module _ {Fields : Type 0} where
  -- `SegmentWriter::new`.
  pub new_segment_writer : ℕ → SegmentWriter Fields
  new_segment_writer id = record {
    segment = record {
      id = id;
      doc_count = 0;
      metadata = record { size_bytes = 0; min_doc_id = 2 ^ 64 - 1; max_doc_id = 0 };
    };
    documents = [];
  }

  -- `SegmentWriter::write_document`.
  pub write_document : Document Fields → SegmentWriter Fields → SegmentWriter Fields
  write_document doc w =
      let metadata = w.segment.metadata in
      record {
        segment = record {
          id = w.segment.id;
          doc_count = w.segment.doc_count + 1;
          metadata = record {
            size_bytes = metadata.size_bytes;
            min_doc_id = min metadata.min_doc_id doc.id;
            max_doc_id = max metadata.max_doc_id doc.id;
          };
        };
        documents = w.documents ++ doc ∷ [];
      }

module _ (bitmap : Bitmap) {Fields : Type 0} (held : ℕ → ℕ)
    (size : List (Document Fields) → ℕ) where
  abbrev Writer : Type 0
  Writer = IndexWriter Fields bitmap.Bits

  -- `new_with_merge_policy` with the tiered policy, over a controller, a log and the files on disk. The
  -- id of the first segment is one that no file has.
  pub new_index_writer :
      ℕ → Controller bitmap.Bits → Log Fields → (ℕ → List (Document Fields)) → Writer
  unfolding new_segment_writer
  new_index_writer id mvcc wal stored = record {
    segment_writer = new_segment_writer id;
    wal = wal;
    mvcc = mvcc;
    stored = stored;
    next_id = id + 1;
    batch_size = 1000;
    merge_policy = default_policy;
    merges = [];
  }

  -- `SegmentWriter::finish`.
  pub finish : SegmentWriter Fields → Segment
  finish w = record w.segment {
    metadata = record w.segment.metadata { size_bytes = size w.documents };
  }

  -- A new segment writer takes the place of the old one, whose file is finished.
  pub replace_writer : Writer → Writer
  unfolding new_segment_writer
  replace_writer w = record w {
    segment_writer = new_segment_writer w.next_id;
    stored =
        λ id. if id == w.segment_writer.segment.id then w.segment_writer.documents else w.stored id;
    next_id = w.next_id + 1;
  }

  -- The segments of the current snapshot, with the finished one.
  pub with_finished : Writer → List Segment
  unfolding finish
  with_finished w = (current_snapshot bitmap.new w.mvcc).segments ++ finish w.segment_writer ∷ []

  -- `mvcc.create_snapshot(segments)`.
  pub publish_segments : List Segment → Writer → Writer
  publish_segments segments w = record w {
    mvcc = (create_snapshot held bitmap.new w.mvcc segments).0;
  }

  -- The flush that `add_document_internal` has inline.
  pub roll_over : Writer → Writer
  unfolding replace_writer with_finished publish_segments
  roll_over w =
      if ltb 0 w.segment_writer.segment.doc_count
      then publish_segments (with_finished w) (replace_writer w)
      else replace_writer w

  pub log_operation : Bool → Operation Fields → Writer → Writer
  log_operation write_wal op w = if write_wal then record w { wal = append op w.wal } else w

  pub add_document_internal : Document Fields → Bool → Writer → Writer
  unfolding roll_over log_operation write_document
  add_document_internal doc write_wal w =
      let logged = log_operation write_wal (add_document_op doc) w in
      let written : Writer = record logged {
        segment_writer = write_document doc logged.segment_writer;
      } in
      if leb (w.batch_size % 2 ^ 32) written.segment_writer.segment.doc_count
      then roll_over written
      else written

  pub add_document : Document Fields → Writer → Writer
  unfolding add_document_internal
  add_document doc w = add_document_internal doc true w

  -- `merge_segments_async`, up to the start of its thread.
  pub merge_segments_async : List Segment → Writer → Writer
  merge_segments_async segments w =
      let chosen = select_segments_to_merge w.merge_policy segments in
      if is_empty chosen then w else record w { merges = w.merges ++ chosen ∷ [] }

  pub flush : Writer → Writer
  unfolding replace_writer with_finished publish_segments merge_segments_async
  flush w =
      let segments = with_finished w in
      let replaced = replace_writer w in
      if ltb 0 w.segment_writer.segment.doc_count
      then publish_segments segments (
          if should_merge w.merge_policy segments
          then merge_segments_async segments replaced
          else replaced)
      else replaced

  pub commit : Writer → Writer
  unfolding flush
  commit w = let flushed = flush w in record flushed { wal = sync (append commit_op flushed.wal) }

  pub delete_document_internal : ℕ → Bool → Writer → Writer
  unfolding log_operation
  delete_document_internal doc_id write_wal w =
      let logged = log_operation write_wal (delete_document_op doc_id) w in
      let snapshot : Snapshot bitmap.Bits = current_snapshot bitmap.new w.mvcc in
      let deleted : bitmap.Bits = bitmap.insert snapshot.deleted_docs (doc_id % 2 ^ 32) in
      record logged {
        mvcc = (create_snapshot_with_deletes held w.mvcc snapshot.segments deleted).0;
      }

  pub delete_document : ℕ → Writer → Writer
  unfolding delete_document_internal
  delete_document doc_id w = delete_document_internal doc_id true w

  -- A recovered operation is not logged again.
  pub apply_recovered_operation : Operation Fields → Writer → Writer
  unfolding add_document_internal delete_document_internal flush
  apply_recovered_operation (add_document_op doc) w = add_document_internal doc Bool.false w
  apply_recovered_operation (update_document_op doc) w = add_document_internal doc Bool.false w
  apply_recovered_operation (delete_document_op doc_id) w =
      delete_document_internal doc_id Bool.false w
  apply_recovered_operation commit_op w = flush w

  -- The loop of `add_documents_batch` over a large batch, which adds nothing to the inverted index.
  pub batch_loop : List (Document Fields) → Writer → Writer
  unfolding log_operation write_document replace_writer with_finished publish_segments
  batch_loop [] w = w
  batch_loop (doc ∷ docs) w =
      let logged = log_operation true (add_document_op doc) w in
      let written : Writer = record logged {
        segment_writer = write_document doc logged.segment_writer;
      } in
      batch_loop docs (
        if leb (w.batch_size % 2 ^ 32) written.segment_writer.segment.doc_count
        then publish_segments (with_finished written) (replace_writer written)
        else written)

  pub add_each : List (Document Fields) → Writer → Writer
  unfolding add_document
  add_each [] w = w
  add_each (doc ∷ docs) w = add_each docs (add_document doc w)

  pub add_documents_batch : List (Document Fields) → Writer → Writer
  unfolding batch_loop add_each
  add_documents_batch docs w = if ltb 100 (length docs) then batch_loop docs w else add_each docs w
