-- ===== src/Search/TopK/Results.antt =====
-- What the collector of src/search/results.rs returns.
use mathlib.Core.List.{append-nil}
use drusdenx.Prelude.{
  ℕ, ◌≤◌, ◌<◌, ◌≡◌, refl, sym, ap, ◌∙◌, min, List, [], ◌∷◌, ◌++◌, Bool, true, false, ltb, arith,
  length, keep, All, All-weaken, All-of_In, Bool-cases, inl, inr, ltb→lt, not-ltb→le, lt→ltb,
  le→not-ltb,
}
use drusdenx.Search.TopK.{
  ScoredDocument, TopKCollector, new, push, collect, sort_descending, into_results, peek_score,
  collect_each,
}
use drusdenx.Search.TopK.Best.{
  SameDocuments, IsRising, IsFalling, IsBest, length-push, rejected-IsBest, room-IsBest,
  full-IsBest, length-keep-append, length-keep-true,
}
use drusdenx.Search.TopK.Sorting.{sort_descending_lem}

module _ {S D E : Type 0} (zero : S) (greater : S → S → Bool) (rank : S → ℕ)
    (greater_rank : (a b : S) → greater a b ≡ ltb (rank b) (rank a)) where
  collect-IsBest :
      (k : ℕ) (docs dropped : List (ScoredDocument S D E)) (c : TopKCollector S D E)
      (d : ScoredDocument S D E)
      → IsBest zero greater rank greater_rank k docs dropped c
      → rank zero ≤ rank d.score
      → (dropped' : List (ScoredDocument S D E)) × IsBest zero greater rank greater_rank k
          (d ∷ docs)
          dropped'
          (collect zero greater d c)
  unfolding collect
  collect-IsBest k docs dropped c d is le = elim (Bool-cases (ltb (length c.heap) c.k)) [
    | inl r ↦
        let room : length c.heap < c.k = ltb→lt (length c.heap) c.k r in
        let fits : ltb c.k (length (push zero greater d c.heap)) ≡ false =
          le→not-ltb c.k (length (push zero greater d c.heap))
            (omega (arith, length-push zero greater rank greater_rank d c.heap)) in
        let room' : length c.heap < k = omega (arith, is.same_k) in
        elim (Bool-cases (greater d.score c.min_score)) [
          | inl h ↦
              rw (h, fits)
                (dropped, room-IsBest zero greater rank greater_rank k docs dropped c d is le room')
          | inr h ↦
              rw (h, r, fits)
                (dropped, room-IsBest zero greater rank greater_rank k docs dropped c d is le room')
        ]
    | inr r ↦
        let no_room = not-ltb→le (length c.heap) c.k r in
        let over : ltb c.k (length (push zero greater d c.heap)) ≡ true =
          lt→ltb c.k (length (push zero greater d c.heap))
            (omega (arith, length-push zero greater rank greater_rank d c.heap)) in
        elim (Bool-cases (greater d.score c.min_score)) [
          | inl h ↦
              let lt =
                ltb→lt (rank c.min_score) (rank d.score)
                  (sym (greater_rank d.score c.min_score) ∙ h) in
              rw (h, over)
                (full-IsBest zero greater rank greater_rank k docs dropped c d is (omega arith)
                  (omega (arith, is.kept, is.same_k)))
          | inr h ↦
              let low =
                not-ltb→le (rank c.min_score) (rank d.score)
                  (sym (greater_rank d.score c.min_score) ∙ h) in
              rw (h, r)
                (
                  d ∷ dropped,
                  rejected-IsBest zero greater rank greater_rank k docs dropped c d is low
                      (omega (arith, is.same_k)),
                )
        ]
  ]

  -- The same documents in another order.
  IsBest-SameDocuments :
      (k : ℕ) (docs docs' dropped : List (ScoredDocument S D E)) (c : TopKCollector S D E)
      → IsBest zero greater rank greater_rank k docs dropped c
      → SameDocuments docs docs'
      → IsBest zero greater rank greater_rank k docs' dropped c
  IsBest-SameDocuments k docs docs' dropped c is same =
      let count : length docs ≡ length docs' = omega (
        arith,
        same (λ x. true),
        length-keep-true zero greater rank greater_rank docs,
        length-keep-true zero greater rank greater_rank docs',
      ) in
      record {
        same_k = is.same_k;
        total = is.total ∙ count;
        kept = omega (arith, is.kept);
        rising = is.rising;
        documents = λ p. is.documents p ∙ same p;
        below = is.below;
        bounded = is.bounded;
        not_yet = is.not_yet;
      }

  collect_each-IsBest :
      (k : ℕ) (docs seen dropped : List (ScoredDocument S D E)) (c : TopKCollector S D E)
      → IsBest zero greater rank greater_rank k seen dropped c
      → All (λ d. rank zero ≤ rank d.score) docs
      → (dropped' : List (ScoredDocument S D E)) × IsBest zero greater rank greater_rank k
          (docs ++ seen)
          dropped'
          (collect_each zero greater docs c)
  unfolding collect_each
  collect_each-IsBest k [] seen dropped c is h = (dropped, is)
  collect_each-IsBest k (d ∷ docs) seen dropped c is h =
      let (dropped1, is1) = collect-IsBest k seen dropped c d is h.0 in
      let (dropped2, is2) =
        collect_each-IsBest k docs (d ∷ seen) dropped1 (collect zero greater d c) is1 h.1 in
      (
        dropped2,
        IsBest-SameDocuments k (docs ++ d ∷ seen) (d ∷ docs ++ seen) dropped2
            (collect_each zero greater docs (collect zero greater d c)) is2 (λ p. middle p),
      )
    where
      middle :
          (p : ScoredDocument S D E → Bool)
          → length (keep p (docs ++ d ∷ seen)) ≡ length (keep p (d ∷ docs ++ seen))
      middle p = ground (
        arith,
        length-keep-append zero greater rank greater_rank p docs (d ∷ seen),
        length-keep-append zero greater rank greater_rank p docs seen,
      )

  new-IsBest :
      (k : ℕ) → IsBest {D = D} {E = E} zero greater rank greater_rank k [] [] (new zero greater k)
  unfolding new
  new-IsBest k = record {
    same_k = refl;
    total = refl;
    kept = omega arith;
    rising = tt;
    documents = λ p. refl;
    below = λ h. tt;
    bounded = tt;
    not_yet = λ h. refl;
  }

  -- The score of the first document is at most all the others'.
  first_lowest :
      (heap : List (ScoredDocument S D E))
      → IsRising rank heap
      → All (λ d. rank (peek_score zero greater heap) ≤ rank d.score) heap
  first_lowest [] h = tt
  first_lowest (d ∷ heap) h = (omega arith, h.0)

  -- Every dropped document is at most as good as every kept one.
  dropped_lower :
      (k : ℕ) (docs dropped : List (ScoredDocument S D E)) (c : TopKCollector S D E)
      → IsBest zero greater rank greater_rank k docs dropped c
      → All (λ d. All (λ e. rank d.score ≤ rank e.score) c.heap) dropped
  dropped_lower k docs dropped c is = elim (Bool-cases (ltb 0 k)) [
    | inl h ↦
        All-weaken (λ d. All (λ e. rank d.score ≤ rank e.score) c.heap)
          (λ d q.
            All-weaken (λ e. rank d.score ≤ rank e.score) (λ e r. omega arith) c.heap is.bounded)
          dropped (is.below (ltb→lt 0 k h))
    | inr h ↦
        let empty : length c.heap ≡ 0 = omega (arith, is.kept, not-ltb→le 0 k h) in
        All-of_In (λ d. All (λ e. rank d.score ≤ rank e.score) c.heap) dropped
          (λ d m. nothing d c.heap empty)
  ]
    where
      nothing :
          (d : ScoredDocument S D E) (heap : List (ScoredDocument S D E))
          → length heap ≡ 0
          → All (λ e. rank d.score ≤ rank e.score) heap
      nothing d [] h = tt
      nothing d (e ∷ heap) h = absurd (omega arith)

  -- For documents with scores of at least 0.0, compared like numbers: the results of a collector of the
  -- k best have as many hits as there are documents, and at most k; they are in descending order of
  -- score; together with some other documents they are the documents collected, each as often; and no
  -- hit has a lower score than one of these others, nor than `max_score`. `total_hits` counts all the
  -- documents.
  pub into_results-collect_each :
      (k : ℕ) (docs : List (ScoredDocument S D E))
      → All (λ d. rank zero ≤ rank d.score) docs
      → let results =
          into_results zero greater (collect_each zero greater docs (new zero greater k)) in
        (length results.hits ≡ min k (length docs))
        × IsFalling rank results.hits
        × (results.total_hits ≡ length docs)
        × ((dropped : List (ScoredDocument S D E)) × SameDocuments (results.hits ++ dropped) docs
            × All (λ d. All (λ e. rank d.score ≤ rank e.score) results.hits) dropped)
        × All (λ e. rank results.max_score ≤ rank e.score) results.hits
  unfolding into_results
  into_results-collect_each k docs h =
      let (dropped, is') = collect_each-IsBest k docs [] [] (new zero greater k) (new-IsBest k) h in
      let c = collect_each zero greater docs (new zero greater k) in
      let is =
        IsBest-SameDocuments k (docs ++ []) docs dropped c is'
          (λ p. ap (λ xs. length (keep p xs)) (append-nil docs)) in
      let (same, falling, every) = sort_descending_lem zero greater rank greater_rank c.heap in
      (
        sizes c.heap same ∙ is.kept,
        falling,
        is.total,
        (
          dropped,
          λ p. both c.heap dropped p same ∙ is.documents p,
          All-weaken
              (λ d. All (λ e. rank d.score ≤ rank e.score) (sort_descending zero greater c.heap))
              (λ d q. every (λ e. rank d.score ≤ rank e.score) q) dropped
              (dropped_lower k docs dropped c is),
        ),
        every (λ e. rank (peek_score zero greater c.heap) ≤ rank e.score)
            (first_lowest c.heap is.rising),
      )
    where
      sizes :
          (heap : List (ScoredDocument S D E))
          → SameDocuments (sort_descending zero greater heap) heap
          → length (sort_descending zero greater heap) ≡ length heap
      sizes heap same = omega (
        arith,
        same (λ x. true),
        length-keep-true zero greater rank greater_rank heap,
        length-keep-true zero greater rank greater_rank (sort_descending zero greater heap),
      )

      both :
          (heap dropped : List (ScoredDocument S D E)) (p : ScoredDocument S D E → Bool)
          → SameDocuments (sort_descending zero greater heap) heap
          → length (keep p (sort_descending zero greater heap ++ dropped))
            ≡ length (keep p (heap ++ dropped))
      both heap dropped p same = omega (
        arith,
        same p,
        length-keep-append zero greater rank greater_rank p heap dropped,
        length-keep-append zero greater rank greater_rank p (sort_descending zero greater heap)
            dropped,
      )
