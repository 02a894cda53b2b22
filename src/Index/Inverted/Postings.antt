-- ===== src/Index/Inverted/Postings.antt =====
-- The postings that the documents given to `InvertedIndex::add_document` (src/index/inverted.rs) leave
-- for a term.
use drusdenx.Prelude.{
  ℕ, ◌+◌, ◌<◌, ◌^◌, ◌≡◌, refl, List, [], ◌∷◌, map, none, some, ◌↔◌, ◌⊎◌, inl, inr, Bool-cases, All,
  In, length, false,
}
use drusdenx.Compression.VByte.{IsU32}
use drusdenx.Index.Posting.{Posting}
use drusdenx.Index.Inverted.{Term, same_term, Token, insert_by_doc}
use drusdenx.Index.Inverted.Maps.{same_term→≡, same_term_self, positions_of, extended}
use drusdenx.Index.Inverted.Sorted.{IsNew, In-insert_by_doc, All-insert_by_doc}
use drusdenx.Index.Inverted.Lists.{posting_for}
use drusdenx.Index.Inverted.Build.{with_document}

-- A document is its id and its tokens.
abbrev pub Document : Type 0
Document = ℕ × List Token

-- Ids of 32 bits that differ from each other, and positions of 32 bits.
abbrev pub AreDocuments : List Document → Type 0
AreDocuments [] = Unit
AreDocuments ((d, tokens) ∷ docs) =
    (d < 2 ^ 32)
    × All (λ token. IsU32 token.position) tokens
    × All (λ doc. ¬ (d ≡ doc.0)) docs
    × AreDocuments docs

-- The term is the text of one of the tokens.
abbrev pub Occurs : Term → List Token → Type 0
Occurs t tokens = In t (map (λ token. token.text) tokens)

abbrev pub total : List Document → ℕ
total [] = 0
total ((d, tokens) ∷ docs) = length tokens + total docs

positions_of-cases :
    (t : Term) (tokens : List Token)
    → (Occurs t tokens × (extended none (positions_of t tokens) ≡ some (positions_of t tokens)))
      ⊎ ((¬ Occurs t tokens) × (extended none (positions_of t tokens) ≡ none))
unfolding positions_of
positions_of-cases t [] = inr (λ m. m, refl)
positions_of-cases t (token ∷ tokens) = elim (Bool-cases (same_term t token.text)) [
  | inl h ↦ rw h (inl (inl (same_term→≡ t token.text h), refl))
  | inr h ↦ rw h (elim (positions_of-cases t tokens) [
    | inl k ↦ inl (inr k.0, k.1)
    | inr k ↦ inr (absent h k.0, k.1)
  ])
]
  where
    absent : same_term t token.text ≡ false → ¬ Occurs t tokens → ¬ Occurs t (token ∷ tokens)
    absent h gone (inl e) =
        let self : same_term token.text token.text ≡ false = rw e at h in
        let k = same_term_self token.text in cc
    absent h gone (inr m) = gone m

module _ {F : Type 0} (one : F) where
  -- The postings of a term after the documents, in the order of their ids.
  abbrev pub postings_of : Term → List Document → List (Posting F) → List (Posting F)
  postings_of t [] es = es
  postings_of t ((d, tokens) ∷ docs) es = postings_of t docs (with_document one d tokens t es)

  pub with_document-IsNew :
      (d d' : ℕ) (tokens : List Token) (t : Term) (es : List (Posting F))
      → ¬ (d ≡ d')
      → IsNew d' es
      → IsNew d' (with_document one d tokens t es)
  with_document-IsNew d d' tokens t es ne h = elim (positions_of-cases t tokens) [
    | inl k ↦ rw (k.1) (
        All-insert_by_doc (λ e. ¬ (e.doc_id ≡ d')) (posting_for one d (positions_of t tokens)) es ne
          h)
    | inr k ↦ rw (k.1) h
  ]

  -- The posting of a term in a document.
  abbrev pub IsPostingIn : Term → Posting F → Document → Type 0
  IsPostingIn t p doc = Occurs t doc.1 × (p ≡ posting_for one doc.0 (positions_of t doc.1))

  In-with_document :
      (d : ℕ) (tokens : List Token) (t : Term) (p : Posting F) (es : List (Posting F))
      → In p (with_document one d tokens t es) ↔ (IsPostingIn t p (d, tokens) ⊎ In p es)
  In-with_document d tokens t p es = elim (positions_of-cases t tokens) [
    | inl k ↦ rw (k.1) (found k.0)
    | inr k ↦ rw (k.1) (inr, none_here k.0)
  ]
    where
      found :
          Occurs t tokens
          → In p (insert_by_doc (posting_for one d (positions_of t tokens)) es)
            ↔ (IsPostingIn t p (d, tokens) ⊎ In p es)
      found here =
          let (to, from) = In-insert_by_doc p (posting_for one d (positions_of t tokens)) es in
          (
            λ m. elim (to m) [ inl e ↦ inl (here, e) | inr k ↦ inr k ],
            λ m. elim m [ inl e ↦ from (inl e.1) | inr k ↦ from (inr k) ],
          )

      none_here : ¬ Occurs t tokens → IsPostingIn t p (d, tokens) ⊎ In p es → In p es
      none_here gone (inl k) = absurd (gone k.0)
      none_here gone (inr m) = m

  pub In-postings_of :
      (t : Term) (p : Posting F) (docs : List Document) (es : List (Posting F))
      → In p (postings_of t docs es)
        ↔ (((doc : Document) × In doc docs × IsPostingIn t p doc) ⊎ In p es)
  In-postings_of t p [] es = (inr, absent)
    where
      absent : ((doc : Document) × ⊥ × IsPostingIn t p doc) ⊎ In p es → In p es
      absent (inl (doc, m, k)) = elim m [ ]
      absent (inr m) = m
  In-postings_of t p ((d, tokens) ∷ docs) es =
      let (to, from) = In-postings_of t p docs (with_document one d tokens t es) in
      let (to', from') = In-with_document d tokens t p es in
      (λ m. later to' (to m), λ m. from (sooner from' m))
    where
      later :
          (In p (with_document one d tokens t es) → IsPostingIn t p (d, tokens) ⊎ In p es)
          → ((doc : Document) × In doc docs × IsPostingIn t p doc)
            ⊎ In p (with_document one d tokens t es)
          → ((doc : Document) × In doc ((d, tokens) ∷ docs) × IsPostingIn t p doc) ⊎ In p es
      later to' (inl (doc, m, k)) = inl (doc, inr m, k)
      later to' (inr m) = elim (to' m) [ inl k ↦ inl ((d, tokens), inl refl, k) | inr k ↦ inr k ]

      sooner :
          (IsPostingIn t p (d, tokens) ⊎ In p es → In p (with_document one d tokens t es))
          → ((doc : Document) × In doc ((d, tokens) ∷ docs) × IsPostingIn t p doc) ⊎ In p es
          → ((doc : Document) × In doc docs × IsPostingIn t p doc)
            ⊎ In p (with_document one d tokens t es)
      sooner from' (inl (doc, inl e, k)) = inr (from' (inl (rw e at k)))
      sooner from' (inl (doc, inr m, k)) = inl (doc, m, k)
      sooner from' (inr m) = inr (from' (inr m))
