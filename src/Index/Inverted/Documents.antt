-- ===== src/Index/Inverted/Documents.antt =====
-- An index built by `InvertedIndex::add_document` (src/index/inverted.rs), called on documents in any
-- order of ids.
use drusdenx.Prelude.{
  ℕ, ◌+◌, ◌≡◌, refl, List, [], ◌∷◌, Result, ok, ◌>>=◌, ◌↔◌, ◌⊎◌, inl, inr, arith, All, In, length,
}
use drusdenx.Prelude.Ascending.{Ascending}
use drusdenx.Index.Posting.{Posting, iter}
use drusdenx.Index.Posting
use drusdenx.Index.Inverted.{Term, get, InvertedIndex, new, add_document, search_term}
use drusdenx.Index.Inverted.Sorted.{doc_ids, IsNew, iter-stored}
use drusdenx.Index.Inverted.Lists.{listed, skipped, counted}
use drusdenx.Index.Inverted.Dictionary.{doc_freq_of, empty-IsDictionary, doc_freq_of-empty}
use drusdenx.Index.Inverted.Round.{IsIndexOf}
use drusdenx.Index.Inverted.Build.{with_document, add_document-IsIndexOf}
use drusdenx.Index.Inverted.Postings.{
  Document, AreDocuments, total, postings_of, IsPostingIn, In-postings_of, with_document-IsNew,
}

module _ {F : Type 0} (zero one : F) (norm : ℕ → F) (interval : ℕ → ℕ) where
  -- One call of `add_document` for each document.
  unfoldable pub add_documents : List Document → InvertedIndex F → Result (InvertedIndex F)
  unfolding add_document
  add_documents [] index = ok index
  add_documents ((d, tokens) ∷ docs) index = do
    index' ← add_document zero one norm interval d tokens index
    add_documents docs index'

  new-IsIndexOf : IsIndexOf one interval (λ t. []) (new {F = F})
  unfolding new get listed skipped counted
  new-IsIndexOf = record {
    keeps = λ t. refl;
    skips = λ t. refl;
    is_dictionary = empty-IsDictionary;
    counts = doc_freq_of-empty F;
    are_stored = λ t. tt;
    are_sorted = λ t. tt;
  }

  add_documents-IsIndexOf :
      (at : Term → List (Posting F)) (index : InvertedIndex F) (docs : List Document)
      → IsIndexOf one interval at index
      → AreDocuments docs
      → ((t : Term) → All (λ doc. IsNew doc.0 (at t)) docs)
      → (index' : InvertedIndex F) × (add_documents docs index ≡ ok index')
        × IsIndexOf one interval (λ t. postings_of one t docs (at t)) index'
        × (index'.doc_count ≡ index.doc_count + length docs)
        × (index'.total_tokens ≡ index.total_tokens + total docs)
  unfolding add_documents
  add_documents-IsIndexOf at index [] is are fresh = (index, refl, is, omega arith, omega arith)
  add_documents-IsIndexOf at index ((d, tokens) ∷ docs) is (small, us, apart, are) fresh =
      let (index1, e1, is1, count1, total1) =
        add_document-IsIndexOf zero one norm interval at index d tokens is small us
          (λ t. (fresh t).0) in
      let (index2, e2, is2, count2, total2) =
        add_documents-IsIndexOf (λ t. with_document one d tokens t (at t)) index1 docs is1 are
          (λ t. still_new t docs apart (fresh t).1) in
      (index2, rw e1 e2, is2, omega arith, omega arith)
    where
      still_new :
          (t : Term) (docs : List Document)
          → All (λ doc. ¬ (d ≡ doc.0)) docs
          → All (λ doc. IsNew doc.0 (at t)) docs
          → All (λ doc. IsNew doc.0 (with_document one d tokens t (at t))) docs
      still_new t [] apart fresh = tt
      still_new t ((d', tokens') ∷ docs) apart fresh = (
        with_document-IsNew one d d' tokens t (at t) apart.0 fresh.0,
        still_new t docs apart.1 fresh.1,
      )

  pub add_documents-at :
      (docs : List Document)
      → AreDocuments docs
      → (index : InvertedIndex F) × (add_documents docs new ≡ ok index)
        × IsIndexOf one interval (λ t. postings_of one t docs []) index
        × (index.doc_count ≡ length docs)
        × (index.total_tokens ≡ total docs)
  unfolding new
  add_documents-at docs are =
      let (index, e, is, count, tokens) =
        add_documents-IsIndexOf (λ t. []) new docs new-IsIndexOf are (λ t. all_new docs) in
      (index, e, is, omega arith, omega arith)
    where
      all_new : (docs : List Document) → All (λ doc. IsNew {F = F} doc.0 []) docs
      all_new [] = tt
      all_new (doc ∷ docs) = (tt, all_new docs)

  -- Documents whose ids are below 2^32 and differ, with positions of 32 bits, are added one by one to a
  -- new index without an error, in any order of their ids. The counts of documents and of tokens are
  -- right. Each term has a list of postings, strictly ascending by id, that reads back as it is; the
  -- index keeps it exactly when it is not empty, and then the term's document frequency is its length
  -- modulo 2^32. A posting is in the list exactly when it has the id of one of the documents in which
  -- the term occurs, the term's positions there in the order of the tokens, their number modulo 2^32,
  -- and the norm 1.0.
  pub add_documents_lem :
      (docs : List Document)
      → AreDocuments docs
      → (index : InvertedIndex F) × (add_documents docs new ≡ ok index)
        × (index.doc_count ≡ length docs)
        × (index.total_tokens ≡ total docs)
        × ((t : Term)
            → (es : List (Posting F)) × (search_term zero one norm interval t index ≡ listed es)
              × (doc_freq_of t index.dictionary ≡ counted es)
              × (iter one (Posting.new es) ≡ ok es)
              × Ascending (doc_ids es)
              × ((p : Posting F)
                  → In p es ↔ ((doc : Document) × In doc docs × IsPostingIn one t p doc)))
  unfolding search_term
  add_documents_lem docs are =
      let (index, e, is, count, tokens) = add_documents-at docs are in
      (
        index,
        e,
        count,
        tokens,
        λ t. (
          postings_of one t docs [],
          is.keeps t,
          is.counts t,
          iter-stored one (postings_of one t docs []) (is.are_stored t),
          is.are_sorted t,
          λ p. from_docs (In-postings_of one t p docs []),
        ),
      )
    where
      from_docs : {A : Type 0} {D : Type 0} → A ↔ (D ⊎ ⊥) → A ↔ D
      from_docs h = (λ a. elim (h.0 a) [ inl k ↦ k | inr k ↦ elim k [ ] ], λ k. h.1 (inl k))
