-- ===== src/Index/Inverted/Sorted.antt =====
-- The sorting of postings in src/index/inverted.rs: adding one posting to a list that is sorted.
use drusdenx.Prelude.{
  ℕ, ◌<◌, ◌%◌, ◌^◌, ◌≡◌, refl, sym, ap, ◌∙◌, List, [], ◌∷◌, ◌++◌, map, ok, false, ◌↔◌, ◌⊎◌, leb,
  arith, Bool-cases, inl, inr, In, All, All-weaken, leb→le, le→leb,
}
use drusdenx.Prelude.Ascending.{Ascending}
use drusdenx.Index.Posting.{Posting, HasPositions, stored, iter}
use drusdenx.Index.Posting
use drusdenx.Index.Posting.RoundTrip.{iter-new}
use drusdenx.Index.Inverted.{insert_by_doc, sort_by_doc}

module _ {F : Type 0} where
  abbrev pub doc_ids : List (Posting F) → List ℕ
  doc_ids = map (λ p. p.doc_id)

  -- No posting of the list is of the document.
  abbrev pub IsNew : ℕ → List (Posting F) → Type 0
  IsNew doc_id es = All (λ e. ¬ (e.doc_id ≡ doc_id)) es

  pub In-insert_by_doc :
      (x p : Posting F) (es : List (Posting F)) → In x (insert_by_doc p es) ↔ ((x ≡ p) ⊎ In x es)
  unfolding insert_by_doc
  In-insert_by_doc x p [] = (λ m. m, λ m. m)
  In-insert_by_doc x p (q ∷ es) = elim (Bool-cases (leb p.doc_id q.doc_id)) [
    | inl h ↦ rw h (λ m. m, λ m. m)
    | inr h ↦ let (to, from) = In-insert_by_doc x p es in rw h (later to, sooner from)
  ]
    where
      later :
          (In x (insert_by_doc p es) → (x ≡ p) ⊎ In x es)
          → (x ≡ q) ⊎ In x (insert_by_doc p es)
          → (x ≡ p) ⊎ ((x ≡ q) ⊎ In x es)
      later to (inl e) = inr (inl e)
      later to (inr m) = elim (to m) [ inl e ↦ inl e | inr k ↦ inr (inr k) ]

      sooner :
          ((x ≡ p) ⊎ In x es → In x (insert_by_doc p es))
          → (x ≡ p) ⊎ ((x ≡ q) ⊎ In x es)
          → (x ≡ q) ⊎ In x (insert_by_doc p es)
      sooner from (inl e) = inr (from (inl e))
      sooner from (inr (inl e)) = inl e
      sooner from (inr (inr m)) = inr (from (inr m))

  pub All-insert_by_doc :
      (P : Posting F → Type 0) (p : Posting F) (es : List (Posting F))
      → P p
      → All P es
      → All P (insert_by_doc p es)
  unfolding insert_by_doc
  All-insert_by_doc P p [] h hs = (h, tt)
  All-insert_by_doc P p (q ∷ es) h hs = elim (Bool-cases (leb p.doc_id q.doc_id)) [
    | inl e ↦ rw e (h, hs)
    | inr e ↦ rw e (hs.0, All-insert_by_doc P p es h hs.1)
  ]

  All-ids : (P : ℕ → Type 0) (es : List (Posting F)) → All P (doc_ids es) → All (λ p. P p.doc_id) es
  All-ids P [] h = tt
  All-ids P (e ∷ es) h = (h.0, All-ids P es h.1)

  All-of_ids :
      (P : ℕ → Type 0) (es : List (Posting F)) → All (λ p. P p.doc_id) es → All P (doc_ids es)
  All-of_ids P [] h = tt
  All-of_ids P (e ∷ es) h = (h.0, All-of_ids P es h.1)

  -- A list of postings sorted by document stays sorted when a new document's posting goes in.
  pub insert_by_doc-Ascending :
      (p : Posting F) (es : List (Posting F))
      → Ascending (doc_ids es)
      → IsNew p.doc_id es
      → Ascending (doc_ids (insert_by_doc p es))
  unfolding insert_by_doc
  insert_by_doc-Ascending p [] h new = (tt, tt)
  insert_by_doc-Ascending p (q ∷ es) h new = elim (Bool-cases (leb p.doc_id q.doc_id)) [
    | inl e ↦
        let le = leb→le p.doc_id q.doc_id e in
        let ne : ¬ (q.doc_id ≡ p.doc_id) = new.0 in
        let lt : p.doc_id < q.doc_id = omega arith in
        rw e ((lt, All-weaken (λ y. p.doc_id < y) (λ y k. omega arith) (doc_ids es) h.0), h)
    | inr e ↦
        let lt : q.doc_id < p.doc_id = ground arith in
        rw e (
          All-of_ids (λ y. q.doc_id < y) (insert_by_doc p es)
              (All-insert_by_doc (λ y. q.doc_id < y.doc_id) p es lt
                (All-ids (λ y. q.doc_id < y) es h.0)),
          insert_by_doc-Ascending p es h.1 new.1,
        )
  ]

  insert_by_doc_first :
      (q : Posting F) (es : List (Posting F))
      → All (λ p. q.doc_id < p.doc_id) es
      → insert_by_doc q es ≡ q ∷ es
  unfolding insert_by_doc
  insert_by_doc_first q [] h = refl
  insert_by_doc_first q (p ∷ es) h = rw (le→leb q.doc_id p.doc_id (omega arith)) refl

  -- Sorting a sorted list with one more posting at its end puts that posting at its place.
  pub sort_by_doc-append :
      (p : Posting F) (es : List (Posting F))
      → Ascending (doc_ids es)
      → IsNew p.doc_id es
      → sort_by_doc (es ++ p ∷ []) ≡ insert_by_doc p es
  unfolding sort_by_doc
  sort_by_doc-append p [] h new = refl
  sort_by_doc-append p (q ∷ es) h new =
      rw (sort_by_doc-append p es h.1 new.1) (elim (Bool-cases (leb p.doc_id q.doc_id)) [
        | inl e ↦
            let le = leb→le p.doc_id q.doc_id e in
            let ne : ¬ (q.doc_id ≡ p.doc_id) = new.0 in
            let lt : p.doc_id < q.doc_id = omega arith in
            let above = All-ids (λ y. q.doc_id < y) es h.0 in
            let not_below : leb q.doc_id p.doc_id ≡ false = ground arith in
            let first : insert_by_doc p es ≡ p ∷ es =
              insert_by_doc_first p es
                (All-weaken (λ y. p.doc_id < y.doc_id) (λ y k. omega arith) es above) in
            rw (first, e, not_below, insert_by_doc_first q es above) refl
        | inr e ↦
            let lt : q.doc_id < p.doc_id = ground arith in
            insert_by_doc_first q (insert_by_doc p es) (
              All-insert_by_doc (λ y. q.doc_id < y.doc_id) p es lt
                (All-ids (λ y. q.doc_id < y) es h.0))
            ∙ rw e refl
      ])

-- What a posting is once it was read back.
abbrev pub IsStored : {F : Type 0} → F → Posting F → Type 0
IsStored one p = (p.doc_id < 2 ^ 32) × HasPositions p × (p.field_norm ≡ one)

module _ {F : Type 0} (one : F) where
  -- Postings that were read back once are read back unchanged.
  pub iter-stored :
      (es : List (Posting F)) → All (IsStored one) es → iter one (Posting.new es) ≡ ok es
  iter-stored es h = iter-new one es (All-weaken HasPositions (λ p k. k.1) es h) ∙ ap ok (same es h)
    where
      same : (es : List (Posting F)) → All (IsStored one) es → map (stored one) es ≡ es
      same [] h = refl
      same (e ∷ es) ((lt, k, n), hs) =
          let cut : e.doc_id % 2 ^ 32 ≡ e.doc_id = omega arith in rw (cut, sym n, same es hs) refl
