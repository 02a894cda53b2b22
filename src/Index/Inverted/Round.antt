-- ===== src/Index/Inverted/Round.antt =====
-- One round of the loop of `add_document` (src/index/inverted.rs) against the postings that the index
-- should keep.
use drusdenx.Prelude.{
  ℕ, ◌<◌, ◌%◌, ◌^◌, ◌≡◌, refl, sym, ◌∙◌, List, [], ◌∷◌, ok, Bool-cases, inl, inr, All, length,
}
use drusdenx.Prelude.Ascending.{Ascending}
use drusdenx.Compression.VByte.{IsU32}
use drusdenx.Index.Posting.{Posting, PostingList, as_u32, HasPositions, entry_count, decode_doc_ids}
use drusdenx.Index.Posting
use drusdenx.Index.Posting.RoundTrip.{entry_count-new}
use drusdenx.Index.SkipList.{build}
use drusdenx.Index.Inverted.{
  Term, same_term, get, insert, InvertedIndex, insert_by_doc, existing_postings, update_term,
  add_term,
}
use drusdenx.Index.Inverted.Maps.{same_term→≡}
use drusdenx.Index.Inverted.Sorted.{
  doc_ids, IsNew, IsStored, iter-stored, All-insert_by_doc, insert_by_doc-Ascending,
}
use drusdenx.Index.Inverted.Lists.{
  listed, skipped, skipped-insert_by_doc, counted, counted-insert_by_doc, updated, updated_lem,
  at_key, listed-insert_by_doc, new-sort_by_doc, posting_for, decode_doc_ids-stored,
}
use drusdenx.Index.Inverted.Dictionary.{
  IsDictionary, doc_freq_of, doc_freq_of-add_term, add_term-IsDictionary,
}

module _ {F : Type 0} (one : F) (interval : ℕ → ℕ) where
  -- The index keeps exactly these postings, each list sorted by document.
  pub record IsIndexOf (at : Term → List (Posting F)) (index : InvertedIndex F) : Type 0 where
    pub keeps : (t : Term) → get t index.postings ≡ listed (at t)
    pub skips : (t : Term) → get t index.skip_lists ≡ skipped interval (at t)
    pub is_dictionary : IsDictionary index.dictionary
    pub counts : (t : Term) → doc_freq_of t index.dictionary ≡ counted (at t)
    pub are_stored : (t : Term) → All (IsStored one) (at t)
    pub are_sorted : (t : Term) → Ascending (doc_ids (at t))

module _ {F : Type 0} (zero one : F) (norm : ℕ → F) (interval : ℕ → ℕ) where
  iter_existing :
      (es : List (Posting F))
      → All (IsStored one) es
      → existing_postings zero one norm interval (listed es) ≡ ok es
  unfolding existing_postings listed
  iter_existing [] h = refl
  iter_existing (e ∷ es) h = iter-stored one (e ∷ es) h

  -- What a round of the loop of `add_document` leaves.
  unfoldable pub round : Term → List (Posting F) → InvertedIndex F → InvertedIndex F
  round t es index = record index {
    postings = insert t (Posting.new es) index.postings;
    dictionary = add_term zero t (length es % 2 ^ 32) index.dictionary;
    skip_lists = insert t (build (interval (length (doc_ids es))) (doc_ids es)) index.skip_lists;
  }

  pub update_term-round :
      (at : Term → List (Posting F)) (index : InvertedIndex F) (doc_id tokens : ℕ) (t : Term)
      (positions : List ℕ)
      → IsIndexOf one interval at index
      → doc_id < 2 ^ 32
      → All IsU32 positions
      → IsNew doc_id (at t)
      → update_term zero one norm interval doc_id tokens t positions index
        ≡ ok (round t (insert_by_doc (posting_for one doc_id positions) (at t)) index)
  unfolding update_term round
  update_term-round at index doc_id tokens t positions is small us fresh =
      let p = record (posting_for one doc_id positions) { field_norm = norm tokens } in
      let es = insert_by_doc (posting_for one doc_id positions) (at t) in
      let stored : All (IsStored one) es =
        All-insert_by_doc (IsStored one) (posting_for one doc_id positions) (at t) (small, us, refl)
          (is.are_stored t) in
      rw
        (
          is.keeps t,
          iter_existing (at t) (is.are_stored t),
          new-sort_by_doc one p (at t) (is.are_stored t) (is.are_sorted t) fresh,
          decode_doc_ids-stored one es stored,
          entry_count-new es,
        )
        refl

  pub round-IsIndexOf :
      (at : Term → List (Posting F)) (index : InvertedIndex F) (t : Term) (p : Posting F)
      → IsIndexOf one interval at index
      → IsStored one p
      → IsNew p.doc_id (at t)
      → IsIndexOf one interval (updated t p at) (round t (insert_by_doc p (at t)) index)
  unfolding round
  round-IsIndexOf at index t p is stored fresh = record {
    keeps = λ u. at_key t p at listed index.postings (listed-insert_by_doc p (at t)) is.keeps u;
    skips = λ u.
        at_key t p at (skipped interval) index.skip_lists (skipped-insert_by_doc interval p (at t))
          is.skips u;
    is_dictionary =
        add_term-IsDictionary zero t (length (insert_by_doc p (at t)) % 2 ^ 32) index.dictionary
          is.is_dictionary;
    counts = λ u.
        doc_freq_of-add_term zero u t (length (insert_by_doc p (at t)) % 2 ^ 32) index.dictionary
          is.is_dictionary
        ∙ elim (Bool-cases (same_term u t)) [
          | inl h ↦
              let e : u ≡ t = same_term→≡ u t h in rw (h, e) (sym (counted-insert_by_doc p (at t)))
          | inr h ↦ rw h (is.counts u)
        ];
    are_stored = λ u.
        updated_lem (All (IsStored one)) t p at u
          (All-insert_by_doc (IsStored one) p (at t) stored (is.are_stored t)) (is.are_stored u);
    are_sorted = λ u.
        updated_lem (λ es. Ascending (doc_ids es)) t p at u
          (insert_by_doc-Ascending p (at t) (is.are_sorted t) fresh) (is.are_sorted u);
  }
