-- ===== src/Index/Inverted/Build.antt =====
-- The loop over a document's terms, and `add_document` (src/index/inverted.rs).
use drusdenx.Prelude.{
  ℕ, ◌+◌, ◌<◌, ◌^◌, ◌≡◌, refl, sym, ap, ◌∙◌, List, [], ◌∷◌, Option, none, some, ok, false,
  All-append, Bool-cases, inl, inr, All, length,
}
use drusdenx.Compression.VByte.{IsU32}
use drusdenx.Index.Posting.{Posting}
use drusdenx.Index.Inverted.{
  Term, same_term, get, InvertedIndex, insert_by_doc, update_terms, push_position, add_document,
  group, Token,
}
use drusdenx.Index.Inverted.Maps.{
  same_term→≡, same_term_self, get-group, group-IsMap, IsMap, positions_of, extended,
}
use drusdenx.Index.Inverted.Sorted.{IsNew}
use drusdenx.Index.Inverted.Lists.{listed, skipped, counted, updated, posting_for}
use drusdenx.Index.Inverted.Round.{IsIndexOf, round, update_term-round, round-IsIndexOf}

module _ {F : Type 0} (one : F) where
  -- The postings of a term after a document in which it has these positions, or does not occur.
  abbrev pub with_group : ℕ → Option (List ℕ) → List (Posting F) → List (Posting F)
  with_group doc_id none es = es
  with_group doc_id (some positions) es = insert_by_doc (posting_for one doc_id positions) es

  -- The postings of a term after one more document.
  abbrev pub with_document : ℕ → List Token → Term → List (Posting F) → List (Posting F)
  with_document doc_id tokens t es = with_group doc_id (extended none (positions_of t tokens)) es

  abbrev updated_all :
      ℕ → List (Term × List ℕ) → (Term → List (Posting F)) → Term → List (Posting F)
  updated_all doc_id groups at u = with_group doc_id (get u groups) (at u)

module _ {F : Type 0} (zero one : F) (norm : ℕ → F) (interval : ℕ → ℕ) where
  -- The same postings in another form.
  IsIndexOf-ext :
      (at at' : Term → List (Posting F)) (index : InvertedIndex F)
      → ((t : Term) → at t ≡ at' t)
      → IsIndexOf one interval at index
      → IsIndexOf one interval at' index
  IsIndexOf-ext at at' index same is = record {
    keeps = λ t. is.keeps t ∙ ap listed (same t);
    skips = λ t. is.skips t ∙ ap (skipped interval) (same t);
    is_dictionary = is.is_dictionary;
    counts = λ t. is.counts t ∙ ap counted (same t);
    are_stored = λ t. rw (sym (same t)) (is.are_stored t);
    are_sorted = λ t. rw (sym (same t)) (is.are_sorted t);
  }

  updated_all-cons :
      (doc_id : ℕ) (t : Term) (positions : List ℕ) (groups : List (Term × List ℕ))
      (at : Term → List (Posting F)) (u : Term)
      → get t groups ≡ none
      → updated_all one doc_id groups (updated t (posting_for one doc_id positions) at) u
        ≡ updated_all one doc_id ((t, positions) ∷ groups) at u
  unfolding get
  updated_all-cons doc_id t positions groups at u none_left = elim (Bool-cases (same_term u t)) [
    | inl h ↦
        let e : u ≡ t = same_term→≡ u t h in
        let gone : get u groups ≡ none = rw e none_left in rw (h, gone) refl
    | inr h ↦ rw h refl
  ]

  grouped_apart :
      (t u : Term) (positions : List ℕ) (groups : List (Term × List ℕ))
      → get t groups ≡ none
      → get u groups ≡ some positions
      → same_term u t ≡ false
  grouped_apart t u positions groups gone found = elim (Bool-cases (same_term u t)) [
    | inl h ↦
        let e : u ≡ t = same_term→≡ u t h in
        let gone' : get u groups ≡ none = rw e gone in absurd (cc)
    | inr h ↦ h
  ]

  -- The document is new to the postings of the terms that are still to come.
  abbrev IsNewTo : ℕ → List (Term × List ℕ) → (Term → List (Posting F)) → Type 0
  IsNewTo doc_id groups at =
      (t : Term) (positions : List ℕ) → get t groups ≡ some positions → IsNew doc_id (at t)

  IsNewTo-rest :
      (doc_id : ℕ) (t : Term) (positions : List ℕ) (p : Posting F) (groups : List (Term × List ℕ))
      (at : Term → List (Posting F))
      → get t groups ≡ none
      → IsNewTo doc_id ((t, positions) ∷ groups) at
      → IsNewTo doc_id groups (updated t p at)
  unfolding get
  IsNewTo-rest doc_id t positions p groups at gone fresh u ps found =
      let apart = grouped_apart t u ps groups gone found in rw apart (fresh u ps (rw apart found))

  pub update_terms_lem :
      (at : Term → List (Posting F)) (index : InvertedIndex F) (doc_id tokens : ℕ)
      (groups : List (Term × List ℕ))
      → IsIndexOf one interval at index
      → doc_id < 2 ^ 32
      → All (λ g. All IsU32 g.1) groups
      → IsMap groups
      → IsNewTo doc_id groups at
      → (index' : InvertedIndex F) × (update_terms zero one norm interval doc_id tokens groups index
          ≡ ok index')
        × IsIndexOf one interval (updated_all one doc_id groups at) index'
        × (index'.doc_count ≡ index.doc_count)
        × (index'.total_tokens ≡ index.total_tokens)
  unfolding update_terms get round
  update_terms_lem at index doc_id tokens [] is small us distinct fresh =
      (index, refl, is, refl, refl)
  update_terms_lem at index doc_id tokens ((t, positions) ∷ groups) is small us distinct fresh =
      let p = posting_for one doc_id positions in
      let new_here = fresh t positions (rw (same_term_self t) refl) in
      let (index', e, is', docs, total) =
        update_terms_lem (updated t p at)
          (round zero one norm interval t (insert_by_doc p (at t)) index) doc_id tokens groups
          (round-IsIndexOf zero one norm interval at index t p is (small, us.0, refl) new_here)
          small us.1 distinct.1 (IsNewTo-rest doc_id t positions p groups at distinct.0 fresh) in
      (
        index',
        rw
            (update_term-round zero one norm interval at index doc_id tokens t positions is small
              us.0 new_here)
            e,
        IsIndexOf-ext (updated_all one doc_id groups (updated t p at))
            (updated_all one doc_id ((t, positions) ∷ groups) at) index'
            (λ u. updated_all-cons doc_id t positions groups at u distinct.0) is',
        docs,
        total,
      )

abbrev HasU32Positions : Term × List ℕ → Type 0
HasU32Positions g = All IsU32 g.1

push_position-U32 :
    (t : Term) (p : ℕ) (m : List (Term × List ℕ))
    → IsU32 p
    → All HasU32Positions m
    → All HasU32Positions (push_position t p m)
unfolding push_position
push_position-U32 t p [] u h = ((u, tt), tt)
push_position-U32 t p ((w, ps) ∷ m) u h = elim (Bool-cases (same_term t w)) [
  | inl e ↦ rw e (All-append IsU32 ps (p ∷ []) h.0 (u, tt), h.1)
  | inr e ↦ rw e (h.0, push_position-U32 t p m u h.1)
]

group-U32 :
    (tokens : List Token) (m : List (Term × List ℕ))
    → All (λ token. IsU32 token.position) tokens
    → All HasU32Positions m
    → All HasU32Positions (group tokens m)
unfolding group
group-U32 [] m us h = h
group-U32 (token ∷ tokens) m us h =
    group-U32 tokens (push_position token.text token.position m) us.1
      (push_position-U32 token.text token.position m us.0 h)

module _ {F : Type 0} (zero one : F) (norm : ℕ → F) (interval : ℕ → ℕ) where
  pub add_document-IsIndexOf :
      (at : Term → List (Posting F)) (index : InvertedIndex F) (doc_id : ℕ) (tokens : List Token)
      → IsIndexOf one interval at index
      → doc_id < 2 ^ 32
      → All (λ token. IsU32 token.position) tokens
      → ((t : Term) → IsNew doc_id (at t))
      → (index' : InvertedIndex F) × (add_document zero one norm interval doc_id tokens index
          ≡ ok index')
        × IsIndexOf one interval (λ t. with_document one doc_id tokens t (at t)) index'
        × (index'.doc_count ≡ index.doc_count + 1)
        × (index'.total_tokens ≡ index.total_tokens + length tokens)
  unfolding add_document
  add_document-IsIndexOf at index doc_id tokens is small us fresh =
      let (index', e, is', docs, total) =
        update_terms_lem zero one norm interval at index doc_id (length tokens) (group tokens []) is
          small (group-U32 tokens [] us tt) (group-IsMap tokens [] tt) (λ t ps found. fresh t) in
      let is'' =
        IsIndexOf-ext zero one norm interval (updated_all one doc_id (group tokens []) at)
          (λ t. with_document one doc_id tokens t (at t)) index'
          (λ t. ap (λ o. with_group one doc_id o (at t)) (get-group t tokens)) is' in
      (
        record index' {
          doc_count = index'.doc_count + 1;
          total_tokens = index'.total_tokens + length tokens;
        },
        rw e refl,
        record {
          keeps = is''.keeps;
          skips = is''.skips;
          is_dictionary = is''.is_dictionary;
          counts = is''.counts;
          are_stored = is''.are_stored;
          are_sorted = is''.are_sorted;
        },
        ap (λ n. n + 1) docs,
        ap (λ n. n + length tokens) total,
      )
