-- ===== src/Writer/Index/Operations.antt =====
-- What the operations of the index writer (src/writer/index_writer.rs) do to the documents that it
-- holds and to its log.
use mathlib.Core.List.{append_assoc, append-nil}
use drusdenx.Prelude.{
  ℕ, ◌+◌, ◌%◌, ◌^◌, ◌≡◌, refl, ap, sym, ◌∙◌, List, [], ◌∷◌, ◌++◌, Bool, true, false, ltb, leb,
  if◌then◌else◌, inl, inr, Bool-cases, lt→ltb, length, length-append, arith,
}
use drusdenx.Storage.Segment.{Segment, Document}
use drusdenx.Storage.MergePolicy.{should_merge}
use drusdenx.Storage.Bitmap.{Bitmap}
use drusdenx.Storage.Wal.{
  Operation, add_document_op, update_document_op, delete_document_op, commit_op,
}
use drusdenx.Writer.{append, sync}
use drusdenx.Writer.Index.{
  IndexWriter, write_document, roll_over, log_operation, add_document_internal, add_document, flush,
  commit, delete_document, delete_document_internal, batch_loop, add_each, publish_segments,
  replace_writer, with_finished, apply_recovered_operation, merge_segments_async,
}
use drusdenx.Writer.Index.Files.{docs_of}
use drusdenx.Writer.Index.Contents.{
  segments_of, Holds, HoldsPublished, roll_over-HoldsPublished, flush-HoldsPublished,
  merges_started, with_log-Holds,
}
use drusdenx.Writer.Index.Deletes.{delete_document_internal_lem}

module _ {Fields : Type 0} where
  -- The documents that an operation brings.
  abbrev pub documents_of : Operation Fields → List (Document Fields)
  documents_of (add_document_op doc) = doc ∷ []
  documents_of (update_document_op doc) = doc ∷ []
  documents_of (delete_document_op doc_id) = []
  documents_of commit_op = []

module _ (bitmap : Bitmap) {Fields : Type 0} (held : ℕ → ℕ)
    (size : List (Document Fields) → ℕ) where
  -- The writer with the document in its segment.
  abbrev written : Document Fields → IndexWriter Fields bitmap.Bits → IndexWriter Fields bitmap.Bits
  written doc w = record w { segment_writer = write_document doc w.segment_writer }

  written-Holds :
      (docs : List (Document Fields)) (doc : Document Fields) (w : IndexWriter Fields bitmap.Bits)
      → Holds bitmap docs w
      → Holds bitmap (docs ++ doc ∷ []) (written doc w)
  unfolding write_document
  written-Holds docs doc w (c, e) = (
    record {
      versions = c.versions;
      older = c.older;
      fresh = c.fresh;
      counted =
          let l = length-append w.segment_writer.documents (doc ∷ []) in
          let h = c.counted in ap (λ n. n + 1) h ∙ sym l;
    },
    sym (
          append_assoc (docs_of w.stored (segments_of bitmap w)) w.segment_writer.documents
            (doc ∷ []))
        ∙ ap (λ d. d ++ doc ∷ []) e,
  )

  log_operation-Holds :
      (docs : List (Document Fields)) (b : Bool) (op : Operation Fields)
      (w : IndexWriter Fields bitmap.Bits)
      → Holds bitmap docs w
      → Holds bitmap docs (log_operation bitmap held size b op w)
  unfolding log_operation
  log_operation-Holds docs true op w h = with_log-Holds bitmap docs (append op w.wal) w h
  log_operation-Holds docs false op w h = h

  add_document_internal-Holds :
      (docs : List (Document Fields)) (doc : Document Fields) (b : Bool)
      (w : IndexWriter Fields bitmap.Bits)
      → Holds bitmap docs w
      → Holds bitmap (docs ++ doc ∷ []) (add_document_internal bitmap held size doc b w)
  unfolding add_document_internal
  add_document_internal-Holds docs doc b w h =
      let logged = log_operation bitmap held size b (add_document_op doc) w in
      let new = written doc logged in
      let holds : Holds bitmap (docs ++ doc ∷ []) new =
        written-Holds docs doc logged (log_operation-Holds docs b (add_document_op doc) w h) in
      elim (Bool-cases (leb (w.batch_size % 2 ^ 32) new.segment_writer.segment.doc_count)) [
        | inl e ↦ rw e (roll_over-HoldsPublished bitmap held size (docs ++ doc ∷ []) new holds).0
        | inr e ↦ rw e holds
      ]

  -- Rolling a segment over does not touch the log.
  wal-roll_over : (w : IndexWriter Fields bitmap.Bits) → (roll_over bitmap held size w).wal ≡ w.wal
  unfolding roll_over publish_segments replace_writer
  wal-roll_over w = elim (Bool-cases (ltb 0 w.segment_writer.segment.doc_count)) [
    | inl e ↦ rw e refl
    | inr e ↦ rw e refl
  ]

  wal-add_document_internal :
      (doc : Document Fields) (b : Bool) (w : IndexWriter Fields bitmap.Bits)
      → (add_document_internal bitmap held size doc b w).wal
        ≡ (log_operation bitmap held size b (add_document_op doc) w).wal
  unfolding add_document_internal
  wal-add_document_internal doc b w =
      let logged = log_operation bitmap held size b (add_document_op doc) w in
      let new = written doc logged in
      elim (Bool-cases (leb (w.batch_size % 2 ^ 32) new.segment_writer.segment.doc_count)) [
        | inl e ↦ rw e (wal-roll_over new)
        | inr e ↦ rw e refl
      ]

  -- The log has one more entry.
  pub logs_document :
      (doc : Document Fields) (w : IndexWriter Fields bitmap.Bits)
      → (add_document bitmap held size doc w).wal.entries
        ≡ w.wal.entries ++ add_document_op doc ∷ []
  unfolding add_document log_operation append
  logs_document doc w = ap (λ log. log.entries) (wal-add_document_internal doc true w)

  pub logs_delete :
      (doc_id : ℕ) (w : IndexWriter Fields bitmap.Bits)
      → (delete_document bitmap held size doc_id w).wal.entries
        ≡ w.wal.entries ++ delete_document_op doc_id ∷ []
  unfolding delete_document delete_document_internal log_operation append
  logs_delete doc_id w = refl

  -- A document that is added comes after the documents that the writer holds, in the log and in the
  -- index, whether or not its segment is full with it.
  pub add_document_lem :
      (docs : List (Document Fields)) (doc : Document Fields) (w : IndexWriter Fields bitmap.Bits)
      → Holds bitmap docs w
      → Holds bitmap (docs ++ doc ∷ []) (add_document bitmap held size doc w)
        × ((add_document bitmap held size doc w).wal.entries
            ≡ w.wal.entries ++ add_document_op doc ∷ [])
  unfolding add_document
  add_document_lem docs doc w h =
      (add_document_internal-Holds docs doc true w h, logs_document doc w)

  wal-publish :
      (segments : List Segment) (b : Bool) (w : IndexWriter Fields bitmap.Bits)
      → (publish_segments bitmap held size segments (
          if b
          then merge_segments_async bitmap held size segments (replace_writer bitmap held size w)
          else replace_writer bitmap held size w)).wal
        ≡ w.wal
  wal-publish segments b w =
      let (merges, started) =
        merges_started bitmap held size b segments (replace_writer bitmap held size w) in
      rw started (unfold publish_segments replace_writer in refl)

  pub wal-flush : (w : IndexWriter Fields bitmap.Bits) → (flush bitmap held size w).wal ≡ w.wal
  unfolding flush
  wal-flush w = elim (Bool-cases (ltb 0 w.segment_writer.segment.doc_count)) [
    | inl e ↦ rw e (
        wal-publish (with_finished bitmap held size w)
          (should_merge w.merge_policy (with_finished bitmap held size w)) w)
    | inr e ↦ rw e (unfold replace_writer in refl)
  ]

  -- After a commit the documents are those of before, each of them is in a published segment, and the
  -- log ends with the record of the commit and is durable up to it.
  pub commit_lem :
      (docs : List (Document Fields)) (w : IndexWriter Fields bitmap.Bits)
      → Holds bitmap docs w
      → let w' = commit bitmap held size w in
        HoldsPublished bitmap docs w'
        × (w'.wal.entries ≡ w.wal.entries ++ commit_op ∷ [])
        × (w'.wal.synced ≡ length w'.wal.entries)
  unfolding commit append sync
  commit_lem docs w h =
      let (holds, published) = flush-HoldsPublished bitmap held size docs w h in
      (
        (with_log-Holds bitmap docs _ (flush bitmap held size w) holds, published),
        ap (λ log. log.entries ++ commit_op ∷ []) (wal-flush w),
        refl,
      )

  -- The loop publishes a full segment without asking whether it holds a document: it does.
  full_segment :
      (doc : Document Fields) (w : IndexWriter Fields bitmap.Bits)
      → roll_over bitmap held size (written doc w)
        ≡ publish_segments bitmap held size
            (with_finished bitmap held size (written doc w))
            (replace_writer bitmap held size (written doc w))
  unfolding roll_over write_document
  full_segment doc w = rw (lt→ltb 0 (w.segment_writer.segment.doc_count + 1) (omega arith)) refl

  batch_loop-add_each :
      (docs : List (Document Fields)) (w : IndexWriter Fields bitmap.Bits)
      → batch_loop bitmap held size docs w ≡ add_each bitmap held size docs w
  unfolding batch_loop add_each add_document add_document_internal
  batch_loop-add_each [] w = refl
  batch_loop-add_each (doc ∷ docs) w =
      let logged = log_operation bitmap held size true (add_document_op doc) w in
      rw (batch_loop-add_each docs, full_segment doc logged) refl

  -- A recovered operation brings its documents again, and is not logged again.
  pub apply_recovered_operation_lem :
      (docs : List (Document Fields)) (op : Operation Fields) (w : IndexWriter Fields bitmap.Bits)
      → Holds bitmap docs w
      → Holds bitmap (docs ++ documents_of op) (apply_recovered_operation bitmap held size op w)
        × ((apply_recovered_operation bitmap held size op w).wal ≡ w.wal)
  unfolding apply_recovered_operation
  apply_recovered_operation_lem docs (add_document_op doc) w h = (
    add_document_internal-Holds docs doc false w h,
    wal-add_document_internal doc false w ∙ unfold log_operation in refl,
  )
  apply_recovered_operation_lem docs (update_document_op doc) w h = (
    add_document_internal-Holds docs doc false w h,
    wal-add_document_internal doc false w ∙ unfold log_operation in refl,
  )
  apply_recovered_operation_lem docs (delete_document_op doc_id) w h =
      let (holds, _, log) = delete_document_internal_lem bitmap held size docs doc_id false w h in
      (rw (append-nil docs) holds, log ∙ unfold log_operation in refl)
  apply_recovered_operation_lem docs commit_op w h =
      (rw (append-nil docs) (flush-HoldsPublished bitmap held size docs w h).0, wal-flush w)

  pub add_each-Holds :
      (docs more : List (Document Fields)) (w : IndexWriter Fields bitmap.Bits)
      → Holds bitmap docs w
      → Holds bitmap (docs ++ more) (add_each bitmap held size more w)
  unfolding add_each
  add_each-Holds docs [] w h = rw (append-nil docs) h
  add_each-Holds docs (doc ∷ more) w h =
      rw (sym (append_assoc docs (doc ∷ []) more))
        (add_each-Holds (docs ++ doc ∷ []) more _ (add_document_lem docs doc w h).0)
