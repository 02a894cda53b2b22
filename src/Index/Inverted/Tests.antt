-- ===== src/Index/Inverted/Tests.antt =====
-- Two documents, the later id added first, and the theorems on the index built from them.
use drusdenx.Prelude.{ℕ, ◌≡◌, refl, List, [], ◌∷◌, Result, ok, arith, All, In, false, is_empty, ◌↔◌}
use drusdenx.Prelude.Ascending.{Ascending}
use drusdenx.Index.Posting.{Posting, iter}
use drusdenx.Index.Posting
use drusdenx.Index.Inverted.{
  Term, InvertedIndex, Token, group, new, intersect_terms, union_terms, search_term,
}
use drusdenx.Index.Inverted.Sorted.{doc_ids}
use drusdenx.Index.Inverted.Lists.{listed, counted}
use drusdenx.Index.Inverted.Dictionary.{doc_freq_of}
use drusdenx.Index.Inverted.Postings.{Document, AreDocuments, IsPostingIn}
use drusdenx.Index.Inverted.Documents.{add_documents, add_documents_lem}
use drusdenx.Index.Inverted.Search.{
  HasTerm, intersect_terms-add_documents, union_terms-add_documents,
}

abbrev one_token : Term → ℕ → Token
one_token t p = record { text = t; position = p }

abbrev two_documents : List Document
two_documents =
    (7, one_token (97 ∷ []) 0 ∷ one_token (98 ∷ []) 1 ∷ one_token (97 ∷ []) 2 ∷ [])
    ∷ (4, one_token (98 ∷ []) 0 ∷ [])
    ∷ []

two_documents-AreDocuments : AreDocuments two_documents
two_documents-AreDocuments = (
  omega arith,
  (omega arith, (omega arith, (omega arith, tt))),
  ((λ e. omega arith), tt),
  (omega arith, (omega arith, tt), tt, tt),
)

abbrev two_terms : List Term
two_terms = (98 ∷ []) ∷ (97 ∷ []) ∷ []

-- Floats are numbers here, and every skip interval is 2.
abbrev built : Result (InvertedIndex ℕ)
built = add_documents 0 1 (λ n. n) (λ n. 2) two_documents new

two_groups :
    group (one_token (97 ∷ []) 0 ∷ one_token (98 ∷ []) 1 ∷ one_token (97 ∷ []) 2 ∷ []) []
    ≡ (97 ∷ [], 0 ∷ 2 ∷ []) ∷ (98 ∷ [], 1 ∷ []) ∷ []
unfolding group
two_groups = refl

add_documents_lem_example :
    (index : InvertedIndex ℕ) × (built ≡ ok index)
    × (index.doc_count ≡ 2)
    × (index.total_tokens ≡ 4)
    × ((t : Term)
        → (es : List (Posting ℕ)) × (search_term 0 1 (λ n. n) (λ n. 2) t index ≡ listed es)
          × (doc_freq_of t index.dictionary ≡ counted es)
          × (iter 1 (Posting.new es) ≡ ok es)
          × Ascending (doc_ids es)
          × ((p : Posting ℕ)
              → In p es ↔ ((doc : Document) × In doc two_documents × IsPostingIn 1 t p doc)))
add_documents_lem_example =
    add_documents_lem 0 1 (λ n. n) (λ n. 2) two_documents two_documents-AreDocuments

intersect_terms-add_documents_example :
    (index : InvertedIndex ℕ) × (built ≡ ok index)
    × (r : List ℕ) × (intersect_terms 0 1 (λ n. n) (λ n. 2) two_terms index ≡ ok r)
    × Ascending r
    × ((d : ℕ) → In d r ↔ ((is_empty two_terms ≡ false) × All (HasTerm two_documents d) two_terms))
intersect_terms-add_documents_example =
    intersect_terms-add_documents 0 1 (λ n. n) (λ n. 2) two_documents two_terms
      two_documents-AreDocuments

union_terms-add_documents_example :
    (index : InvertedIndex ℕ) × (built ≡ ok index)
    × (r : List ℕ) × (union_terms 0 1 (λ n. n) (λ n. 2) two_terms index ≡ ok r)
    × Ascending r
    × ((d : ℕ) → In d r ↔ ((t : Term) × In t two_terms × HasTerm two_documents d t))
union_terms-add_documents_example =
    union_terms-add_documents 0 1 (λ n. n) (λ n. 2) two_documents two_terms
      two_documents-AreDocuments
