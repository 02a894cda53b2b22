-- ===== src/Index/Inverted/Lists.antt =====
-- The posting list that `add_document` of src/index/inverted.rs rebuilds for a term.
use drusdenx.Prelude.{
  ℕ, ◌%◌, ◌^◌, ◌≡◌, refl, sym, ap, ◌∙◌, List, [], ◌∷◌, ◌++◌, map, Option, none, some, Result, ok,
  if◌then◌else◌, leb, arith, Bool-cases, inl, inr, All, length,
}
use drusdenx.Prelude.Ascending.{Ascending}
use drusdenx.Index.Posting.{Posting, PostingList, as_u32, HasPositions, entry_count, decode_doc_ids}
use drusdenx.Index.Posting
use drusdenx.Index.Posting.RoundTrip.{decode_doc_ids-new, new-map}
use drusdenx.Index.SkipList.{SkipList, build}
use drusdenx.Index.Inverted.{Term, same_term, get, insert, new, insert_by_doc, sort_by_doc}
use drusdenx.Index.Inverted.Maps.{same_term→≡, get-insert}
use drusdenx.Index.Inverted.Sorted.{doc_ids, IsNew, IsStored, sort_by_doc-append}

module _ {F : Type 0} (one : F) where
  -- A posting with the norm that it reads back with.
  abbrev renormed : Posting F → Posting F
  renormed p = record p { field_norm = one }

  renormed-stored : (p : Posting F) → p.field_norm ≡ one → renormed p ≡ p
  renormed-stored p n = rw (sym n) refl

  map-insert_by_doc :
      (p : Posting F) (es : List (Posting F))
      → All (IsStored one) es
      → map renormed (insert_by_doc p es) ≡ insert_by_doc (renormed p) es
  unfolding insert_by_doc
  map-insert_by_doc p [] h = refl
  map-insert_by_doc p (q ∷ es) ((lt, k, n), h) = elim (Bool-cases (leb p.doc_id q.doc_id)) [
    | inl e ↦ rw (e, unchanged es h, sym n) refl
    | inr e ↦
        rw (e, map-insert_by_doc p es h)
          (ap (λ x. x ∷ insert_by_doc (renormed p) es) (renormed-stored q n))
  ]
    where
      unchanged : (es : List (Posting F)) → All (IsStored one) es → map renormed es ≡ es
      unchanged [] h = refl
      unchanged (e ∷ es) ((lt, k, n), h) = rw (sym n, unchanged es h) refl

  -- The posting of a document in which a term has these positions.
  abbrev pub posting_for : ℕ → List ℕ → Posting F
  posting_for doc_id positions = record {
    doc_id = doc_id;
    term_freq = length positions % 2 ^ 32;
    positions = positions;
    field_norm = one;
  }

  pub ids-stored :
      (es : List (Posting F)) → All (IsStored one) es → map (λ p. as_u32 p.doc_id) es ≡ doc_ids es
  ids-stored [] h = refl
  ids-stored (e ∷ es) ((lt, k, n), h) =
      let cut : as_u32 e.doc_id ≡ e.doc_id = omega arith in rw (cut, ids-stored es h) refl

  pub decode_doc_ids-stored :
      (es : List (Posting F))
      → All (IsStored one) es
      → decode_doc_ids (Posting.new es) ≡ ok (doc_ids es)
  decode_doc_ids-stored es h = decode_doc_ids-new es ∙ ap ok (ids-stored es h)

  -- The list that `add_document` rebuilds for a term.
  pub new-sort_by_doc :
      (p : Posting F) (es : List (Posting F))
      → All (IsStored one) es
      → Ascending (doc_ids es)
      → IsNew p.doc_id es
      → Posting.new (sort_by_doc (es ++ p ∷ [])) ≡ Posting.new (insert_by_doc (renormed p) es)
  new-sort_by_doc p es h sorted fresh =
      ap Posting.new (sort_by_doc-append p es sorted fresh)
      ∙ sym (new-map renormed (λ q. refl) (λ q. refl) (λ q. refl) (insert_by_doc p es))
      ∙ ap Posting.new (map-insert_by_doc p es h)

module _ {F : Type 0} where
  unfoldable pub listed : List (Posting F) → Option PostingList
  listed [] = none
  listed (p ∷ ps) = some (Posting.new (p ∷ ps))

  pub listed-insert_by_doc :
      (p : Posting F) (es : List (Posting F))
      → listed (insert_by_doc p es) ≡ some (Posting.new (insert_by_doc p es))
  unfolding listed insert_by_doc
  listed-insert_by_doc p [] = refl
  listed-insert_by_doc p (q ∷ es) = elim (Bool-cases (leb p.doc_id q.doc_id)) [
    | inl e ↦ rw e refl
    | inr e ↦ rw e refl
  ]

  -- How often the dictionary says that a term occurs.
  unfoldable pub counted : List (Posting F) → Result (Option ℕ)
  counted [] = ok none
  counted (p ∷ ps) = ok (some (length (p ∷ ps) % 2 ^ 32))

  pub counted-insert_by_doc :
      (p : Posting F) (es : List (Posting F))
      → counted (insert_by_doc p es) ≡ ok (some (length (insert_by_doc p es) % 2 ^ 32))
  unfolding counted insert_by_doc
  counted-insert_by_doc p [] = refl
  counted-insert_by_doc p (q ∷ es) = elim (Bool-cases (leb p.doc_id q.doc_id)) [
    | inl e ↦ rw e refl
    | inr e ↦ rw e refl
  ]

  -- One more posting for a term.
  abbrev pub updated : Term → Posting F → (Term → List (Posting F)) → Term → List (Posting F)
  updated t p at u = if same_term u t then insert_by_doc p (at u) else at u

  pub updated_lem :
      (P : List (Posting F) → Type 0) (t : Term) (p : Posting F) (at : Term → List (Posting F))
      (u : Term)
      → P (insert_by_doc p (at t))
      → P (at u)
      → P (updated t p at u)
  updated_lem P t p at u here there = elim (Bool-cases (same_term u t)) [
    | inl h ↦ let e : u ≡ t = same_term→≡ u t h in rw (h, e) here
    | inr h ↦ rw h there
  ]

  -- A map from terms to what is kept of their postings, after an insertion.
  pub at_key :
      {V : Type 0} (t : Term) (p : Posting F) (at : Term → List (Posting F))
      (keep : List (Posting F) → Option V) (m : List (Term × V)) {v : V}
      → keep (insert_by_doc p (at t)) ≡ some v
      → ((u : Term) → get u m ≡ keep (at u))
      → (u : Term) → get u (insert t v m) ≡ keep (updated t p at u)
  at_key t p at keep m {v} new same u = get-insert u t v m ∙ elim (Bool-cases (same_term u t)) [
    | inl h ↦ let e : u ≡ t = same_term→≡ u t h in rw (h, e) (sym new)
    | inr h ↦ rw h (same u)
  ]

module _ {F : Type 0} (interval : ℕ → ℕ) where
  unfoldable pub skipped : List (Posting F) → Option SkipList
  skipped [] = none
  skipped (p ∷ ps) = some (build (interval (length (doc_ids (p ∷ ps)))) (doc_ids (p ∷ ps)))

  pub skipped-insert_by_doc :
      (p : Posting F) (es : List (Posting F))
      → skipped (insert_by_doc p es)
        ≡ some (
            build (interval (length (doc_ids (insert_by_doc p es)))) (doc_ids (insert_by_doc p es)))
  unfolding skipped insert_by_doc
  skipped-insert_by_doc p [] = refl
  skipped-insert_by_doc p (q ∷ es) = elim (Bool-cases (leb p.doc_id q.doc_id)) [
    | inl e ↦ rw e refl
    | inr e ↦ rw e refl
  ]
