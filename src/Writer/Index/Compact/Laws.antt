-- ===== src/Writer/Index/Compact/Laws.antt =====
-- What `compact` (src/writer/index_writer.rs) does to the documents of the index.
use mathlib.Core.List.{append_assoc, append-nil}
use drusdenx.Prelude.{
  ℕ, ◌+◌, ◌%◌, ◌^◌, ◌<◌, ◌≤◌, ◌≡◌, refl, ap, sym, ◌∙◌, List, [], ◌∷◌, ◌++◌, Bool, true, false, not,
  ◌==◌, keep, All, All-weaken, Bool-cases, inl, inr, ==_self, arith, if◌then◌else◌,
}
use drusdenx.Storage.Segment.{Segment, Document}
use drusdenx.Storage.Bitmap.{Bitmap}
use drusdenx.Mvcc.{Snapshot, current_snapshot}
use drusdenx.Mvcc.Publish.{current_snapshot-create}
use drusdenx.Writer.Index.{SegmentWriter, IndexWriter, new_segment_writer, write_document, finish}
use drusdenx.Writer.Index.Files.{docs_of, docs_of_fresh}
use drusdenx.Writer.Index.Contents.{IsConsistent, contents, segments_of}
use drusdenx.Writer.Index.Deletes.{is_deleted}
use drusdenx.Writer.Index.Compact.{write_kept, compact_loop, compact}

pub keep-append :
    {A : Type 0} (p : A → Bool) (xs ys : List A) → keep p (xs ++ ys) ≡ keep p xs ++ keep p ys
keep-append p [] ys = refl
keep-append p (x ∷ xs) ys = elim (Bool-cases (p x)) [
  | inl e ↦ rw e (ap (◌∷◌ x) (keep-append p xs ys))
  | inr e ↦ rw e (keep-append p xs ys)
]

keep_everything :
    {A : Type 0} (p : A → Bool) (xs : List A) → ((x : A) → p x ≡ true) → keep p xs ≡ xs
keep_everything p [] h = refl
keep_everything p (x ∷ xs) h = rw (h x) (ap (◌∷◌ x) (keep_everything p xs h))

module _ (bitmap : Bitmap) {Fields : Type 0} where
  -- The documents that a set of deleted documents leaves.
  abbrev pub kept : bitmap.Bits → List (Document Fields) → List (Document Fields)
  kept deleted docs = keep (λ doc. not (bitmap.contains deleted (doc.id % 2 ^ 32))) docs

  module _ (held : ℕ → ℕ) (size : List (Document Fields) → ℕ) where
    pub write_kept_lem :
        (deleted : bitmap.Bits) (docs : List (Document Fields)) (sw : SegmentWriter Fields)
        → ((write_kept bitmap held size deleted docs sw).documents
            ≡ sw.documents ++ kept deleted docs)
          × ((write_kept bitmap held size deleted docs sw).segment.id ≡ sw.segment.id)
    unfolding write_kept write_document
    write_kept_lem deleted [] sw = (sym (append-nil sw.documents), refl)
    write_kept_lem deleted (doc ∷ docs) sw =
        elim (Bool-cases (bitmap.contains deleted (doc.id % 2 ^ 32))) [
          | inl e ↦ rw (write_kept, e) (write_kept_lem deleted docs sw)
          | inr e ↦
              let (documents, id) = write_kept_lem deleted docs (write_document doc sw) in
              rw (write_kept, e)
                (documents ∙ append_assoc sw.documents (doc ∷ []) (kept deleted docs), id)
        ]

    -- What one round of the loop writes.
    abbrev rewritten : bitmap.Bits → List (Document Fields) → ℕ → SegmentWriter Fields
    rewritten deleted docs id = write_kept bitmap held size deleted docs (new_segment_writer id)

    rewritten_lem :
        (deleted : bitmap.Bits) (docs : List (Document Fields)) (id : ℕ)
        → ((rewritten deleted docs id).documents ≡ kept deleted docs)
          × ((finish bitmap held size (rewritten deleted docs id)).id ≡ id)
    unfolding new_segment_writer finish
    rewritten_lem deleted docs id = write_kept_lem deleted docs (new_segment_writer id)

    -- The loop writes files with new ids, which hold what the old ones held and was not deleted, and
    -- leaves the old files as they were.
    pub record Rewrites (deleted : bitmap.Bits) (segments : List Segment)
        (stored : ℕ → List (Document Fields)) (next_id : ℕ) (news : List Segment)
        (stored' : ℕ → List (Document Fields)) (next_id' : ℕ) : Type 0 where
      pub documents : docs_of stored' news ≡ kept deleted (docs_of stored segments)
      pub ids : All (λ s. (next_id ≤ s.id) × (s.id < next_id')) news
      pub grows : next_id ≤ next_id'
      pub old : (id : ℕ) → id < next_id → stored' id ≡ stored id

    compact_loop-Rewrites :
        (deleted : bitmap.Bits) (segments : List Segment) (stored : ℕ → List (Document Fields))
        (next_id : ℕ)
        → All (λ s. s.id < next_id) segments
        → let (news, stored', next_id') =
            compact_loop bitmap held size deleted segments stored next_id in
          Rewrites deleted segments stored next_id news stored' next_id'
    unfolding compact_loop docs_of
    compact_loop-Rewrites deleted [] stored next_id h = record {
      documents = refl;
      ids = tt;
      grows = omega arith;
      old = λ id l. refl;
    }
    compact_loop-Rewrites deleted (s ∷ segments) stored next_id h =
        let sw = rewritten deleted (stored s.id) next_id in
        let stored1 : ℕ → List (Document Fields) =
          λ id. if id == next_id then sw.documents else stored id in
        let (written, id) = rewritten_lem deleted (stored s.id) next_id in
        let r =
          compact_loop-Rewrites deleted segments stored1 (next_id + 1)
            (All-weaken _ (λ t p. omega arith) segments h.1) in
        let (news, stored', next_id') =
          compact_loop bitmap held size deleted segments stored1 (next_id + 1) in
        let first : stored' (finish bitmap held size sw).id ≡ kept deleted (stored s.id) =
          ap stored' id ∙ r.old next_id (omega arith) ∙ rw (==_self next_id) written in
        let others : docs_of stored' news ≡ kept deleted (docs_of stored segments) =
          r.documents
          ∙ ap (kept deleted) (
              docs_of_fresh stored next_id sw.documents segments
                (All-weaken _ (λ t p. omega arith) segments h.1)) in
        record {
          documents =
              ap (λ d. d ++ docs_of stored' news) first
              ∙ ap (◌++◌ (kept deleted (stored s.id))) others
              ∙ sym (keep-append _ (stored s.id) (docs_of stored segments));
          ids = (
            (let g = r.grows in (omega arith, omega arith)),
            All-weaken _ (λ t p. (omega arith, p.1)) news r.ids,
          );
          grows = (let g = r.grows in omega arith);
          old = λ i l.
              let differs : (i == next_id) ≡ false = grind arith in
              r.old i (omega arith) ∙ rw differs refl;
        }

    -- `compact` leaves the documents that are not deleted, in their order, and those of the segment
    -- that the writer fills, whether they are deleted or not; after it no document is deleted.
    pub compact_lem :
        (w : IndexWriter Fields bitmap.Bits)
        → IsConsistent bitmap w
        → let w' = compact bitmap held size w in
          IsConsistent bitmap w'
          × (contents bitmap w'
              ≡ kept
                  (current_snapshot bitmap.new w.mvcc).deleted_docs
                  (docs_of w.stored (segments_of bitmap w))
                ++ w.segment_writer.documents)
          × ((id : ℕ) → is_deleted bitmap w' id ≡ false)
    unfolding compact
    compact_lem w c =
        let snapshot = current_snapshot bitmap.new w.mvcc in
        let r =
          compact_loop-Rewrites snapshot.deleted_docs snapshot.segments w.stored w.next_id
            (All-weaken _ (λ s p. p.1) snapshot.segments c.older) in
        let (news, stored, next_id) =
          compact_loop bitmap held size snapshot.deleted_docs snapshot.segments w.stored
            w.next_id in
        elim (Bool-cases (bitmap.is_empty snapshot.deleted_docs)) [
          | inl e ↦
              rw (compact, e)
                (
                  c,
                  ap (λ d. d ++ w.segment_writer.documents)
                      (sym (
                        keep_everything _ (docs_of w.stored snapshot.segments) (λ doc.
                          rw (bitmap.contains-is_empty snapshot.deleted_docs e (doc.id % 2 ^ 32))
                            refl))),
                  bitmap.contains-is_empty snapshot.deleted_docs e,
                )
          | inr e ↦
              let (valid, current, same, empty) =
                current_snapshot-create held bitmap.new bitmap.new news w.mvcc c.versions in
              let published = ap (λ (t : Snapshot bitmap.Bits). t.segments) current ∙ same in
              let fresh = c.fresh in
              rw (compact, e)
                (
                  record {
                    versions = valid;
                    older = rw published (All-weaken _ (λ s p. (omega arith, p.1)) news r.ids);
                    fresh = (let g = r.grows in omega arith);
                    counted = c.counted;
                  },
                  ap (λ segments. docs_of stored segments ++ w.segment_writer.documents) published
                      ∙ ap (λ d. d ++ w.segment_writer.documents) r.documents,
                  λ id.
                      ap (λ (t : Snapshot bitmap.Bits). bitmap.contains t.deleted_docs id) current
                      ∙ ap (λ d. bitmap.contains d id) empty
                      ∙ bitmap.contains-new id,
                )
        ]
