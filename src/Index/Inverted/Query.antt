-- ===== src/Index/Inverted/Query.antt =====
-- `intersect_terms` and `union_terms` of src/index/inverted.rs on an index of known documents.
use mathlib.Core.Option
use drusdenx.Prelude.{
  ℕ, ◌≡◌, refl, sym, ap, List, [], ◌∷◌, Option, none, some, ok, ◌↔◌, ◌⊎◌, inl, inr, false, is_empty,
  All, In,
}
use drusdenx.Prelude.Ascending.{Ascending}
use drusdenx.Index.Posting.{Posting, PostingList, as_u32, iter}
use drusdenx.Index.Posting
use drusdenx.Index.Inverted.{
  Term, InvertedIndex, sorted_array, collect_all, collect_some, collect_round, collect_some_round,
  intersect_collected, intersect_terms, union_arrays, union_collected, union_terms,
}
use drusdenx.Index.Inverted.Sorted.{doc_ids, IsStored, iter-stored}
use drusdenx.Index.Inverted.Lists.{listed, ids-stored}
use drusdenx.Index.Inverted.Round.{IsIndexOf}
use drusdenx.Index.Inverted.Arrays.{intersect_arrays_lem, union_arrays_lem}

module _ {F : Type 0} (zero one : F) (norm : ℕ → F) (interval : ℕ → ℕ) where
  -- What a round of each of the two loops makes of a term's postings.
  abbrev all_round : Option (List (List ℕ)) → List (Posting F) → Option (List (List ℕ))
  all_round rest [] = none
  all_round rest (e ∷ es) = Option.map (λ arrays. doc_ids (e ∷ es) ∷ arrays) rest

  abbrev some_round : List (List ℕ) → List (Posting F) → List (List ℕ)
  some_round rest [] = rest
  some_round rest (e ∷ es) = doc_ids (e ∷ es) ∷ rest

  sorted_array-stored :
      (es : List (Posting F))
      → All (IsStored one) es
      → sorted_array zero one norm interval (Posting.new es) ≡ ok (doc_ids es)
  unfolding sorted_array
  sorted_array-stored es h = rw (iter-stored one es h) (ap ok (ids-stored one es h))

  collect_round-listed :
      (rest : Option (List (List ℕ))) (es : List (Posting F))
      → All (IsStored one) es
      → collect_round zero one norm interval (ok rest) (listed es) ≡ ok (all_round rest es)
  unfolding listed
  collect_round-listed rest [] h = refl
  collect_round-listed rest (e ∷ es) h = rw (sorted_array-stored (e ∷ es) h) refl

  collect_some_round-listed :
      (rest : List (List ℕ)) (es : List (Posting F))
      → All (IsStored one) es
      → collect_some_round zero one norm interval (ok rest) (listed es) ≡ ok (some_round rest es)
  unfolding listed
  collect_some_round-listed rest [] h = refl
  collect_some_round-listed rest (e ∷ es) h = rw (sorted_array-stored (e ∷ es) h) refl

  module _ (at : Term → List (Posting F)) (index : InvertedIndex F)
      (is : IsIndexOf one interval at index) where
    all_ids : List Term → Option (List (List ℕ))
    all_ids [] = some []
    all_ids (t ∷ terms) = all_round (all_ids terms) (at t)

    some_ids : List Term → List (List ℕ)
    some_ids [] = []
    some_ids (t ∷ terms) = some_round (some_ids terms) (at t)

    collect_all-all_ids :
        (terms : List Term) → collect_all zero one norm interval terms index ≡ ok (all_ids terms)
    unfolding collect_all all_ids
    collect_all-all_ids [] = refl
    collect_all-all_ids (t ∷ terms) =
        rw (is.keeps t, collect_all-all_ids terms)
          (collect_round-listed (all_ids terms) (at t) (is.are_stored t))

    collect_some-some_ids :
        (terms : List Term) → collect_some zero one norm interval terms index ≡ ok (some_ids terms)
    unfolding collect_some some_ids
    collect_some-some_ids [] = refl
    collect_some-some_ids (t ∷ terms) =
        rw (is.keeps t, collect_some-some_ids terms)
          (collect_some_round-listed (some_ids terms) (at t) (is.are_stored t))

    -- The id of a posting of the term.
    abbrev Has : ℕ → Term → Type 0
    Has d t = In d (doc_ids (at t))

    -- A term without postings stops the collecting.
    all_ids-cases :
        (terms : List Term)
        → ((all_ids terms ≡ none) × ((d : ℕ) → ¬ All (Has d) terms))
          ⊎ ((arrays : List (List ℕ)) × (all_ids terms ≡ some arrays)
              × All Ascending arrays
              × ((d : ℕ) → All (In d) arrays ↔ All (Has d) terms)
              × (is_empty arrays ≡ is_empty terms))
    unfolding all_ids
    all_ids-cases [] = inr ([], refl, tt, λ d. (λ h. tt, λ h. tt), refl)
    all_ids-cases (t ∷ terms) = go (at t) (is.are_sorted t) (all_ids terms) (all_ids-cases terms)
      where
        go :
            (es : List (Posting F))
            → Ascending (doc_ids es)
            → (rest : Option (List (List ℕ)))
            → ((rest ≡ none) × ((d : ℕ) → ¬ All (Has d) terms))
              ⊎ ((arrays : List (List ℕ)) × (rest ≡ some arrays)
                  × All Ascending arrays
                  × ((d : ℕ) → All (In d) arrays ↔ All (Has d) terms)
                  × (is_empty arrays ≡ is_empty terms))
            → ((all_round rest es ≡ none) × ((d : ℕ) → ¬ (In d (doc_ids es) × All (Has d) terms)))
              ⊎ ((arrays : List (List ℕ)) × (all_round rest es ≡ some arrays)
                  × All Ascending arrays
                  × ((d : ℕ) → All (In d) arrays ↔ (In d (doc_ids es) × All (Has d) terms))
                  × (is_empty arrays ≡ false))
        go [] h rest cases = inl (refl, λ d m. m.0)
        go (e ∷ es) h rest (inl (gone, never)) = inl (rw gone refl, λ d m. never d m.1)
        go (e ∷ es) h rest (inr (arrays, found, asc, same, full)) = inr (
          doc_ids (e ∷ es) ∷ arrays,
          rw found refl,
          (h, asc),
          λ d. (λ m. (m.0, (same d).0 m.1), λ m. (m.0, (same d).1 m.1)),
          refl,
        )

    some_ids_lem :
        (terms : List Term)
        → All Ascending (some_ids terms)
          × ((d : ℕ)
              → ((ids : List ℕ) × In ids (some_ids terms) × In d ids)
                ↔ ((t : Term) × In t terms × Has d t))
    unfolding some_ids
    some_ids_lem [] = (tt, λ d. (λ m. elim m.1 [ ], λ m. elim m.1 [ ]))
    some_ids_lem (t ∷ terms) = go (at t) refl (is.are_sorted t) (some_ids_lem terms)
      where
        go :
            (es : List (Posting F))
            → at t ≡ es
            → Ascending (doc_ids es)
            → All Ascending (some_ids terms)
              × ((d : ℕ)
                  → ((ids : List ℕ) × In ids (some_ids terms) × In d ids)
                    ↔ ((u : Term) × In u terms × Has d u))
            → All Ascending (some_round (some_ids terms) es)
              × ((d : ℕ)
                  → ((ids : List ℕ) × In ids (some_round (some_ids terms) es) × In d ids)
                    ↔ ((u : Term) × In u (t ∷ terms) × Has d u))
        go [] e h (asc, same) =
            (asc, λ d. (λ m. let (u, a, b) = (same d).0 m in (u, inr a, b), back d))
          where
            back :
                (d : ℕ)
                → (u : Term) × In u (t ∷ terms) × Has d u
                → (ids : List ℕ) × In ids (some_ids terms) × In d ids
            back d (u, inl k, m) =
                let here : Has d t = rw k at m in let gone : ⊥ = rw e at here in elim gone [ ]
            back d (u, inr k, m) = (same d).1 (u, k, m)
        go (x ∷ es) e h (asc, same) = ((h, asc), λ d. (there d, back d))
          where
            there :
                (d : ℕ)
                → (ids : List ℕ) × In ids (doc_ids (x ∷ es) ∷ some_ids terms) × In d ids
                → (u : Term) × In u (t ∷ terms) × Has d u
            there d (ids, inl k, m) =
                let here : In d (doc_ids (x ∷ es)) = rw k at m in (t, inl refl, rw e here)
            there d (ids, inr k, m) = let (u, a, b) = (same d).0 (ids, k, m) in (u, inr a, b)

            back :
                (d : ℕ)
                → (u : Term) × In u (t ∷ terms) × Has d u
                → (ids : List ℕ) × In ids (doc_ids (x ∷ es) ∷ some_ids terms) × In d ids
            back d (u, inl k, m) =
                let here : Has d t = rw k at m in (doc_ids (x ∷ es), inl refl, rw e at here)
            back d (u, inr k, m) = let (ids, a, b) = (same d).1 (u, k, m) in (ids, inr a, b)

    pub intersect_terms_at :
        (terms : List Term)
        → (r : List ℕ) × (intersect_terms zero one norm interval terms index ≡ ok r)
          × Ascending r
          × ((d : ℕ) → In d r ↔ ((is_empty terms ≡ false) × All (Has d) terms))
    unfolding intersect_terms
    intersect_terms_at terms =
        rw (collect_all-all_ids terms) (go (all_ids terms) (all_ids-cases terms))
      where
        go :
            (collected : Option (List (List ℕ)))
            → ((collected ≡ none) × ((d : ℕ) → ¬ All (Has d) terms))
              ⊎ ((arrays : List (List ℕ)) × (collected ≡ some arrays)
                  × All Ascending arrays
                  × ((d : ℕ) → All (In d) arrays ↔ All (Has d) terms)
                  × (is_empty arrays ≡ is_empty terms))
            → (r : List ℕ) × (intersect_collected zero one norm interval collected ≡ ok r)
              × Ascending r
              × ((d : ℕ) → In d r ↔ ((is_empty terms ≡ false) × All (Has d) terms))
        go collected (inl (e, never)) =
            ([], rw e refl, tt, λ d. (λ m. elim m [ ], λ m. never d m.1))
        go collected (inr ([], e, asc, same, full)) =
            ([], rw e refl, tt, λ d. (λ m. elim m [ ], λ m. absurd (let k = m.0 in cc)))
        go collected (inr (first ∷ rest, e, asc, same, full)) =
            let (r, e', asc', mem) =
              intersect_arrays_lem zero one norm interval first rest asc.0 asc.1 in
            (
              r,
              rw e e',
              asc',
              λ d. (λ m. (sym full, (same d).0 ((mem d).0 m)), λ m. (mem d).1 ((same d).1 m.1)),
            )

    pub union_terms_at :
        (terms : List Term)
        → (r : List ℕ) × (union_terms zero one norm interval terms index ≡ ok r)
          × Ascending r
          × ((d : ℕ) → In d r ↔ ((t : Term) × In t terms × Has d t))
    unfolding union_terms
    union_terms_at terms =
        rw (collect_some-some_ids terms) (go (some_ids terms) (some_ids_lem terms))
      where
        go :
            (arrays : List (List ℕ))
            → All Ascending arrays
              × ((d : ℕ)
                  → ((ids : List ℕ) × In ids arrays × In d ids)
                    ↔ ((t : Term) × In t terms × Has d t))
            → (r : List ℕ) × (ok (union_collected zero one norm interval arrays) ≡ ok r)
              × Ascending r
              × ((d : ℕ) → In d r ↔ ((t : Term) × In t terms × Has d t))
        go [] (asc, same) = ([], refl, tt, λ d. (λ m. elim m [ ], λ m. elim ((same d).1 m).1 [ ]))
        go (first ∷ rest) (asc, same) =
            let (asc', mem) = union_arrays_lem zero one norm interval first rest asc.0 asc.1 in
            (
              union_arrays zero one norm interval first rest,
              refl,
              asc',
              λ d. (
                λ m. (same d).0 (in_arrays d ((mem d).0 m)),
                λ m. (mem d).1 (of_arrays d ((same d).1 m)),
              ),
            )
          where
            in_arrays :
                (d : ℕ)
                → In d first ⊎ ((ids : List ℕ) × In ids rest × In d ids)
                → (ids : List ℕ) × In ids (first ∷ rest) × In d ids
            in_arrays d (inl m) = (first, inl refl, m)
            in_arrays d (inr (ids, k, m)) = (ids, inr k, m)

            of_arrays :
                (d : ℕ)
                → (ids : List ℕ) × In ids (first ∷ rest) × In d ids
                → In d first ⊎ ((ids : List ℕ) × In ids rest × In d ids)
            of_arrays d (ids, inl e, m) = inl (rw e at m)
            of_arrays d (ids, inr k, m) = inr (ids, k, m)
