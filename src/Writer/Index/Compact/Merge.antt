-- ===== src/Writer/Index/Compact/Merge.antt =====
-- What a merge of segments (`merge_segments_impl` of src/writer/index_writer.rs) does to the documents
-- of the index.
use mathlib.Core.List.{append_assoc, append-nil}
use drusdenx.Prelude.{
  ℕ, ◌+◌, ◌<◌, ◌≡◌, ◌≢◌, refl, ap, sym, ◌∙◌, List, [], ◌∷◌, ◌++◌, Bool, false, not, ◌==◌, any, keep,
  All, All-append, All-weaken, Bool-cases, inl, inr, ==_self, arith, if◌then◌else◌,
}
use drusdenx.Storage.Segment.{Segment, Document}
use drusdenx.Storage.Bitmap.{Bitmap}
use drusdenx.Mvcc.{current_snapshot}
use drusdenx.Writer.Index.{SegmentWriter, IndexWriter, new_segment_writer, finish, publish_segments}
use drusdenx.Writer.Index.Files.{docs_of, docs_of-append, docs_of_fresh}
use drusdenx.Writer.Index.Contents.{IsConsistent, contents, segments_of, publish_segments_lem}
use drusdenx.Writer.Index.Deletes.{is_deleted}
use drusdenx.Writer.Index.Compact.{write_kept, copy_all, merge_segments_impl}
use drusdenx.Writer.Index.Compact.Laws.{kept, keep-append, write_kept_lem}

All-keep {κ} :
    {A : Type 0} (P : A → Type κ) (p : A → Bool) (xs : List A) → All P xs → All P (keep p xs)
All-keep P p [] h = tt
All-keep P p (x ∷ xs) h = elim (Bool-cases (p x)) [
  | inl e ↦ rw e (h.0, All-keep P p xs h.1)
  | inr e ↦ rw e (All-keep P p xs h.1)
]

-- The segments that a merge leaves as they are.
abbrev pub not_merged : List Segment → List Segment → List Segment
not_merged merged segments = keep (λ s. not (any (λ t. t.id == s.id) merged)) segments

module _ (bitmap : Bitmap) {Fields : Type 0} (held : ℕ → ℕ)
    (size : List (Document Fields) → ℕ) where
  copy_all_lem :
      (deleted : bitmap.Bits) (stored : ℕ → List (Document Fields)) (segments : List Segment)
      (sw : SegmentWriter Fields)
      → ((copy_all bitmap held size deleted stored segments sw).documents
          ≡ sw.documents ++ kept bitmap deleted (docs_of stored segments))
        × ((copy_all bitmap held size deleted stored segments sw).segment.id ≡ sw.segment.id)
  unfolding copy_all docs_of
  copy_all_lem deleted stored [] sw = (sym (append-nil sw.documents), refl)
  copy_all_lem deleted stored (s ∷ segments) sw =
      let (documents, id) = write_kept_lem bitmap held size deleted (stored s.id) sw in
      let (rest, id') =
        copy_all_lem deleted stored segments
          (write_kept bitmap held size deleted (stored s.id) sw) in
      (
        rest
            ∙ ap (λ d. d ++ kept bitmap deleted (docs_of stored segments)) documents
            ∙ append_assoc sw.documents (kept bitmap deleted (stored s.id))
                (kept bitmap deleted (docs_of stored segments))
            ∙ ap (◌++◌ sw.documents) (sym (keep-append _ (stored s.id) (docs_of stored segments))),
        id' ∙ id,
      )

  abbrev merged_writer : List Segment → IndexWriter Fields bitmap.Bits → SegmentWriter Fields
  merged_writer segments w =
      copy_all bitmap held size (current_snapshot bitmap.new w.mvcc).deleted_docs w.stored segments
        (new_segment_writer w.next_id)

  merged_writer_lem :
      (segments : List Segment) (w : IndexWriter Fields bitmap.Bits)
      → ((merged_writer segments w).documents
          ≡ kept bitmap
              (current_snapshot bitmap.new w.mvcc).deleted_docs
              (docs_of w.stored segments))
        × ((finish bitmap held size (merged_writer segments w)).id ≡ w.next_id)
  unfolding new_segment_writer finish
  merged_writer_lem segments w =
      copy_all_lem (current_snapshot bitmap.new w.mvcc).deleted_docs w.stored segments
        (new_segment_writer w.next_id)

  -- A merge leaves the documents of the other segments, then those of the merged segments that are not
  -- deleted, then those of the segment that the writer fills. After it no document is deleted, also of
  -- those that were deleted in the segments that are not merged.
  pub merge_segments_impl_lem :
      (segments : List Segment) (w : IndexWriter Fields bitmap.Bits)
      → IsConsistent bitmap w
      → let w' = merge_segments_impl bitmap held size segments w in
        IsConsistent bitmap w'
        × (contents bitmap w'
            ≡ (docs_of w.stored (not_merged segments (segments_of bitmap w))
                ++ kept bitmap
                    (current_snapshot bitmap.new w.mvcc).deleted_docs
                    (docs_of w.stored segments))
              ++ w.segment_writer.documents)
        × ((id : ℕ) → is_deleted bitmap w' id ≡ false)
  unfolding merge_segments_impl publish_segments docs_of
  merge_segments_impl_lem segments w c =
      let sw = merged_writer segments w in
      let (documents, id) = merged_writer_lem segments w in
      let others = not_merged segments (segments_of bitmap w) in
      let all = others ++ finish bitmap held size sw ∷ [] in
      let stored : ℕ → List (Document Fields) =
        λ i. if i == w.next_id then sw.documents else w.stored i in
      let written : IndexWriter Fields bitmap.Bits = record w {
        stored = stored;
        next_id = w.next_id + 1;
      } in
      let (valid, published, empty) =
        publish_segments_lem bitmap held size all written c.versions in
      let fresh = c.fresh in
      let older =
        All-keep (λ s. (s.id ≢ w.segment_writer.segment.id) × (s.id < w.next_id)) _
          (segments_of bitmap w) c.older in
      let old_docs : docs_of stored others ≡ docs_of w.stored others =
        docs_of_fresh w.stored w.next_id sw.documents others
          (All-weaken _ (λ s p. omega arith) others older) in
      let new_docs : stored (finish bitmap held size sw).id ++ [] ≡ sw.documents =
        append-nil _ ∙ ap stored id ∙ rw (==_self w.next_id) refl in
      (
        record {
          versions = valid;
          older = rw published (
              All-append (λ s. (s.id ≢ w.segment_writer.segment.id) × (s.id < w.next_id + 1)) others
                _ (All-weaken _ (λ s p. (p.0, omega arith)) others older)
                ((omega arith, omega arith), tt));
          fresh = omega arith;
          counted = c.counted;
        },
        ap (λ ss. docs_of stored ss ++ w.segment_writer.documents) published
            ∙ ap (λ d. d ++ w.segment_writer.documents)
                (docs_of-append stored others (finish bitmap held size sw ∷ [])
                  ∙ ap (λ d. d ++ (stored (finish bitmap held size sw).id ++ [])) old_docs
                  ∙ ap (◌++◌ (docs_of w.stored others)) (new_docs ∙ documents)),
        λ i. ap (λ d. bitmap.contains d i) empty ∙ bitmap.contains-new i,
      )
