-- ===== src/Index/Inverted/Search.antt =====
-- The queries over several terms of src/index/inverted.rs on an index built from documents.
use drusdenx.Prelude.{
  ℕ, ◌≡◌, refl, List, [], ◌∷◌, false, is_empty, ok, ◌↔◌, inl, inr, All, In, All-weaken,
}
use drusdenx.Prelude.Ascending.{Ascending}
use drusdenx.Index.Posting.{Posting}
use drusdenx.Index.Inverted.{Term, InvertedIndex, Token, new, intersect_terms, union_terms}
use drusdenx.Index.Inverted.Maps.{positions_of}
use drusdenx.Index.Inverted.Sorted.{doc_ids}
use drusdenx.Index.Inverted.Lists.{posting_for}
use drusdenx.Index.Inverted.Query.{intersect_terms_at, union_terms_at}
use drusdenx.Index.Inverted.Postings.{Document, AreDocuments, Occurs, postings_of, In-postings_of}
use drusdenx.Index.Inverted.Documents.{add_documents, add_documents-at}

-- The document with this id has the term.
abbrev pub HasTerm : List Document → ℕ → Term → Type 0
HasTerm docs d t = (tokens : List Token) × In (d, tokens) docs × Occurs t tokens

In-doc_ids :
    {F : Type 0} (d : ℕ) (es : List (Posting F))
    → In d (doc_ids es) ↔ ((p : Posting F) × In p es × (d ≡ p.doc_id))
In-doc_ids {F = F} d es = (to es, λ k. from es k.0 k.1 k.2)
  where
    to : (es : List (Posting F)) → In d (doc_ids es) → (p : Posting F) × In p es × (d ≡ p.doc_id)
    to [] m = elim m [ ]
    to (e ∷ es) (inl k) = (e, inl refl, k)
    to (e ∷ es) (inr m) = let (p, a, b) = to es m in (p, inr a, b)

    from : (es : List (Posting F)) (p : Posting F) → In p es → d ≡ p.doc_id → In d (doc_ids es)
    from [] p m e = elim m [ ]
    from (q ∷ es) p (inl k) e = inl (rw k at e)
    from (q ∷ es) p (inr m) e = inr (from es p m e)

module _ {F : Type 0} (one : F) where
  In-ids_iff :
      (docs : List Document) (d : ℕ) (t : Term)
      → In d (doc_ids (postings_of one t docs [])) ↔ HasTerm docs d t
  In-ids_iff docs d t = (to, from)
    where
      to : In d (doc_ids (postings_of one t docs [])) → HasTerm docs d t
      to m =
          let (p, k, e) = (In-doc_ids d (postings_of one t docs [])).0 m in
          elim ((In-postings_of one t p docs []).0 k) [
            | inl ((d', tokens), a, b) ↦
                let same : d ≡ d' = rw (b.1) at e in (tokens, rw same a, b.0)
            | inr n ↦ elim n [ ]
          ]

      from : HasTerm docs d t → In d (doc_ids (postings_of one t docs []))
      from (tokens, m, occurs) = (In-doc_ids d (postings_of one t docs [])).1 (
        posting_for one d (positions_of t tokens),
        (In-postings_of one t (posting_for one d (positions_of t tokens)) docs []).1
            (inl ((d, tokens), m, (occurs, refl))),
        refl,
      )

module _ {F : Type 0} (zero one : F) (norm : ℕ → F) (interval : ℕ → ℕ) where
  -- On an index that `add_document` built from documents whose ids are below 2^32 and differ,
  -- `intersect_terms` ends without an error; its result is strictly ascending, and an id is in it
  -- exactly when there is a term at all and the document with that id has every term.
  pub intersect_terms-add_documents :
      (docs : List Document) (terms : List Term)
      → AreDocuments docs
      → (index : InvertedIndex F) × (add_documents zero one norm interval docs new ≡ ok index)
        × (r : List ℕ) × (intersect_terms zero one norm interval terms index ≡ ok r)
        × Ascending r
        × ((d : ℕ) → In d r ↔ ((is_empty terms ≡ false) × All (HasTerm docs d) terms))
  intersect_terms-add_documents docs terms are =
      let (index, e, is, docs_counted, tokens_counted) =
        add_documents-at zero one norm interval docs are in
      let (r, e', asc, mem) =
        intersect_terms_at zero one norm interval (λ t. postings_of one t docs []) index is terms in
      (
        index,
        e,
        r,
        e',
        asc,
        λ d. (
          λ m. (
            ((mem d).0 m).0,
            All-weaken (HasTerm docs d) (λ t. (In-ids_iff one docs d t).0) terms ((mem d).0 m).1,
          ),
          λ m. (mem d).1 (m.0, All-weaken _ (λ t. (In-ids_iff one docs d t).1) terms m.1),
        ),
      )

  -- On an index that `add_document` built from documents whose ids are below 2^32 and differ,
  -- `union_terms` ends without an error; its result is strictly ascending, and an id is in it exactly
  -- when the document with that id has one of the terms.
  pub union_terms-add_documents :
      (docs : List Document) (terms : List Term)
      → AreDocuments docs
      → (index : InvertedIndex F) × (add_documents zero one norm interval docs new ≡ ok index)
        × (r : List ℕ) × (union_terms zero one norm interval terms index ≡ ok r)
        × Ascending r
        × ((d : ℕ) → In d r ↔ ((t : Term) × In t terms × HasTerm docs d t))
  union_terms-add_documents docs terms are =
      let (index, e, is, docs_counted, tokens_counted) =
        add_documents-at zero one norm interval docs are in
      let (r, e', asc, mem) =
        union_terms_at zero one norm interval (λ t. postings_of one t docs []) index is terms in
      (
        index,
        e,
        r,
        e',
        asc,
        λ d. (
          λ m. let (t, k, h) = (mem d).0 m in (t, k, (In-ids_iff one docs d t).0 h),
          λ m. (mem d).1 (m.0, m.1, (In-ids_iff one docs d m.0).1 m.2),
        ),
      )
