-- ===== src/Writer/Index/Contents.antt =====
-- What the index writer (src/writer/index_writer.rs) holds: the documents of the published segments,
-- then those of the segment that it fills.
use mathlib.Core.List.{append-nil}
use drusdenx.Prelude.{
  ℕ, ◌+◌, ◌<◌, ◌≢◌, ◌≡◌, refl, ap, sym, ◌∙◌, List, [], ◌∷◌, ◌++◌, Bool, true, false, ltb,
  if◌then◌else◌, inl, inr, is_empty, Bool-cases, not-ltb→le, length, All, All-append, All-weaken,
  arith, ==_self,
}
use drusdenx.Storage.Segment.{Segment, Document}
use drusdenx.Storage.Bitmap.{Bitmap}
use drusdenx.Storage.MergePolicy.{should_merge, select_segments_to_merge}
use drusdenx.Writer.Index.Files.{length-zero, docs_of, docs_of-append, docs_of_fresh}
use drusdenx.Mvcc.{new, current_snapshot}
use drusdenx.Mvcc.Publish.{
  IsValid, current_snapshot-create, new-IsValid, current_snapshot-new,
  create_snapshot_with_no_deletes,
}
use drusdenx.Writer.{Log}
use drusdenx.Writer.Index.{
  IndexWriter, new_index_writer, new_segment_writer, finish, replace_writer, with_finished,
  publish_segments, roll_over, merge_segments_async, flush,
}

module _ (bitmap : Bitmap) {Fields : Type 0} where
  abbrev pub segments_of : IndexWriter Fields bitmap.Bits → List Segment
  segments_of w = (current_snapshot bitmap.new w.mvcc).segments

  abbrev pub contents : IndexWriter Fields bitmap.Bits → List (Document Fields)
  contents w = docs_of w.stored (segments_of w) ++ w.segment_writer.documents

  pub record IsConsistent (w : IndexWriter Fields bitmap.Bits) : Type 0 where
    pub versions : IsValid w.mvcc
    pub older : All (λ s. (s.id ≢ w.segment_writer.segment.id) × (s.id < w.next_id)) (segments_of w)
    pub fresh : w.segment_writer.segment.id < w.next_id
    pub counted : w.segment_writer.segment.doc_count ≡ length w.segment_writer.documents

  -- A writer that is consistent, and what it holds.
  abbrev pub Holds : List (Document Fields) → IndexWriter Fields bitmap.Bits → Type 0
  Holds docs w = IsConsistent w × (contents w ≡ docs)

  -- The writer holds the documents, all of them in published segments.
  abbrev pub HoldsPublished : List (Document Fields) → IndexWriter Fields bitmap.Bits → Type 0
  HoldsPublished docs w = Holds docs w × (w.segment_writer.documents ≡ [])

  pub with_log-Holds :
      (docs : List (Document Fields)) (wal : Log Fields) (w : IndexWriter Fields bitmap.Bits)
      → Holds docs w
      → Holds docs (record w { wal = wal })
  with_log-Holds docs wal w (c, e) =
      (record { versions = c.versions; older = c.older; fresh = c.fresh; counted = c.counted }, e)

  module _ (held : ℕ → ℕ) (size : List (Document Fields) → ℕ) where
    pub publish_segments_lem :
        (segments : List Segment) (w : IndexWriter Fields bitmap.Bits)
        → IsValid w.mvcc
        → let w' = publish_segments bitmap held size segments w in
          IsValid w'.mvcc
          × (segments_of w' ≡ segments)
          × ((current_snapshot bitmap.new w'.mvcc).deleted_docs ≡ bitmap.new)
    unfolding publish_segments
    publish_segments_lem segments w v =
        let (valid, current, same, empty) =
          current_snapshot-create held bitmap.new bitmap.new segments w.mvcc v in
        rw (create_snapshot_with_no_deletes held bitmap.new w.mvcc segments)
          (valid, ap (λ s. s.segments) current ∙ same, ap (λ s. s.deleted_docs) current ∙ empty)

    replaced_docs_fresh :
        (w : IndexWriter Fields bitmap.Bits)
        → IsConsistent w
        → docs_of (replace_writer bitmap held size w).stored (segments_of w)
          ≡ docs_of w.stored (segments_of w)
    unfolding replace_writer
    replaced_docs_fresh w c =
        docs_of_fresh w.stored w.segment_writer.segment.id w.segment_writer.documents
          (segments_of w)
          (All-weaken (λ s. s.id ≢ w.segment_writer.segment.id) (λ s p. p.0) (segments_of w)
            c.older)

    finished_docs :
        (w : IndexWriter Fields bitmap.Bits)
        → docs_of
            (replace_writer bitmap held size w).stored
            (finish bitmap held size w.segment_writer ∷ [])
          ≡ w.segment_writer.documents
    unfolding replace_writer finish docs_of
    finished_docs w =
        rw (==_self w.segment_writer.segment.id) (append-nil w.segment_writer.documents)

    replaced_docs :
        (w : IndexWriter Fields bitmap.Bits)
        → IsConsistent w
        → docs_of (replace_writer bitmap held size w).stored (with_finished bitmap held size w)
          ≡ contents w
    unfolding with_finished
    replaced_docs w c =
        docs_of-append _ (segments_of w) (finish bitmap held size w.segment_writer ∷ [])
        ∙ rw (finished_docs w, replaced_docs_fresh w c) refl

    replace_writer-Holds :
        (docs : List (Document Fields)) (w : IndexWriter Fields bitmap.Bits)
        → Holds docs w
        → w.segment_writer.segment.doc_count ≡ 0
        → Holds docs (replace_writer bitmap held size w)
    unfolding replace_writer new_segment_writer
    replace_writer-Holds docs w (c, e) h =
        let none_left : w.segment_writer.documents ≡ [] =
          length-zero w.segment_writer.documents (sym c.counted ∙ h) in
        (
          record {
            versions = c.versions;
            older = All-weaken _ (λ s p. (omega arith, omega arith)) (segments_of w) c.older;
            fresh = omega arith;
            counted = refl;
          },
          ap (λ d. d ++ []) (replaced_docs_fresh w c)
              ∙ ap (◌++◌ (docs_of w.stored (segments_of w))) (sym none_left)
              ∙ e,
        )

    finished_older :
        (w : IndexWriter Fields bitmap.Bits)
        → IsConsistent w
        → All
            (λ s.
              (s.id ≢ (replace_writer bitmap held size w).segment_writer.segment.id)
              × (s.id < (replace_writer bitmap held size w).next_id))
            (with_finished bitmap held size w)
    unfolding replace_writer new_segment_writer with_finished finish
    finished_older w c =
        All-append (λ s. (s.id ≢ w.next_id) × (s.id < w.next_id + 1)) (segments_of w) _
          (All-weaken _ (λ s p. (omega arith, omega arith)) (segments_of w) c.older)
          ((omega arith, omega arith), tt)

    abbrev with_merges :
        List (List Segment) → IndexWriter Fields bitmap.Bits → IndexWriter Fields bitmap.Bits
    with_merges merges w = record w { merges = merges }

    -- Finishing a segment and publishing it moves its documents from the writer to the segments.
    pub publish_finished-Holds :
        (docs : List (Document Fields)) (merges : List (List Segment))
        (w : IndexWriter Fields bitmap.Bits)
        → Holds docs w
        → Holds docs (
            publish_segments bitmap held size
              (with_finished bitmap held size w)
              (with_merges merges (replace_writer bitmap held size w)))
    unfolding publish_segments
    publish_finished-Holds docs merges w (c, e) =
        let finished = with_finished bitmap held size w in
        let replaced = with_merges merges (replace_writer bitmap held size w) in
        let (valid, same, _) =
          publish_segments_lem finished replaced (unfold replace_writer in c.versions) in
        (
          record {
            versions = valid;
            older = rw same (finished_older w c);
            fresh = unfold replace_writer new_segment_writer in omega arith;
            counted = unfold replace_writer new_segment_writer in refl;
          },
          unfold replace_writer new_segment_writer in
              ap (λ segments. docs_of (replace_writer bitmap held size w).stored segments ++ [])
                same
              ∙ append-nil (docs_of (replace_writer bitmap held size w).stored finished)
              ∙ replaced_docs w c
              ∙ e,
        )

    replaced-HoldsPublished :
        (docs : List (Document Fields)) (w : IndexWriter Fields bitmap.Bits)
        → Holds docs w
        → ltb 0 w.segment_writer.segment.doc_count ≡ false
        → HoldsPublished docs (replace_writer bitmap held size w)
    replaced-HoldsPublished docs w h e =
        let le = not-ltb→le 0 w.segment_writer.segment.doc_count e in
        (
          replace_writer-Holds docs w h (omega arith),
          unfold replace_writer new_segment_writer in refl,
        )

    finished-HoldsPublished :
        (docs : List (Document Fields)) (merges : List (List Segment))
        (w : IndexWriter Fields bitmap.Bits)
        → Holds docs w
        → HoldsPublished docs (
            publish_segments bitmap held size
              (with_finished bitmap held size w)
              (with_merges merges (replace_writer bitmap held size w)))
    finished-HoldsPublished docs merges w h = (
      publish_finished-Holds docs merges w h,
      unfold publish_segments replace_writer new_segment_writer in refl,
    )

    pub roll_over-HoldsPublished :
        (docs : List (Document Fields)) (w : IndexWriter Fields bitmap.Bits)
        → Holds docs w
        → HoldsPublished docs (roll_over bitmap held size w)
    unfolding roll_over
    roll_over-HoldsPublished docs w h =
        elim (Bool-cases (ltb 0 w.segment_writer.segment.doc_count)) [
          | inl e ↦
              rw e (finished-HoldsPublished docs (replace_writer bitmap held size w).merges w h)
          | inr e ↦ rw e (replaced-HoldsPublished docs w h e)
        ]

    -- A merge that starts adds to the list of merges, and changes nothing else.
    pub merges_started :
        (b : Bool) (segments : List Segment) (w : IndexWriter Fields bitmap.Bits)
        → (merges : List (List Segment)) × ((if b
              then merge_segments_async bitmap held size segments w
              else w)
            ≡ with_merges merges w)
    unfolding merge_segments_async
    merges_started false segments w = (w.merges, refl)
    merges_started true segments w =
        elim (Bool-cases (is_empty (select_segments_to_merge w.merge_policy segments))) [
          | inl e ↦ (w.merges, rw e refl)
          | inr e ↦ (w.merges ++ select_segments_to_merge w.merge_policy segments ∷ [], rw e refl)
        ]

    pub flush-HoldsPublished :
        (docs : List (Document Fields)) (w : IndexWriter Fields bitmap.Bits)
        → Holds docs w
        → HoldsPublished docs (flush bitmap held size w)
    unfolding flush
    flush-HoldsPublished docs w h = elim (Bool-cases (ltb 0 w.segment_writer.segment.doc_count)) [
      | inl e ↦
          let (merges, started) =
            merges_started (should_merge w.merge_policy (with_finished bitmap held size w))
              (with_finished bitmap held size w) (replace_writer bitmap held size w) in
          rw (e, started) (finished-HoldsPublished docs merges w h)
      | inr e ↦ rw e (replaced-HoldsPublished docs w h e)
    ]

    -- A new writer over a new controller holds nothing, whatever the files and the log have.
    pub new_index_writer-Holds :
        (id : ℕ) (wal : Log Fields) (stored : ℕ → List (Document Fields))
        → Holds [] (new_index_writer bitmap held size id new wal stored)
    unfolding new_index_writer new_segment_writer docs_of
    new_index_writer-Holds id wal stored = (
      record {
        versions = new-IsValid;
        older = rw (current_snapshot-new bitmap.new) tt;
        fresh = omega arith;
        counted = refl;
      },
      rw (current_snapshot-new bitmap.new) refl,
    )
