-- ===== src/Search/TopK/Sorting.antt =====
-- The sorting of hits in src/search/results.rs.
use drusdenx.Prelude.{
  ℕ, ◌≤◌, ◌≡◌, refl, sym, ◌∙◌, List, [], ◌∷◌, Bool, ltb, arith, length, keep, All, All-weaken,
  Bool-cases, inl, inr, ltb→lt, not-ltb→le,
}
use drusdenx.Search.TopK.{ScoredDocument, insert_descending, sort_descending}
use drusdenx.Search.TopK.Best.{SameDocuments, IsFalling}

module _ {S D E : Type 0} (zero : S) (greater : S → S → Bool) (rank : S → ℕ)
    (greater_rank : (a b : S) → greater a b ≡ ltb (rank b) (rank a)) where
  keep-insert_descending :
      (p : ScoredDocument S D E → Bool) (d : ScoredDocument S D E)
      (docs : List (ScoredDocument S D E))
      → length (keep p (insert_descending zero greater d docs)) ≡ length (keep p (d ∷ docs))
  unfolding insert_descending
  keep-insert_descending p d [] = refl
  keep-insert_descending p d (e ∷ docs) = elim (Bool-cases (greater e.score d.score)) [
    | inl h ↦ rw h (ground (arith, keep-insert_descending p d docs))
    | inr h ↦ rw h refl
  ]

  All-insert_descending :
      (P : ScoredDocument S D E → Type 0) (d : ScoredDocument S D E)
      (docs : List (ScoredDocument S D E))
      → P d
      → All P docs
      → All P (insert_descending zero greater d docs)
  unfolding insert_descending
  All-insert_descending P d [] h hs = (h, tt)
  All-insert_descending P d (e ∷ docs) h hs = elim (Bool-cases (greater e.score d.score)) [
    | inl k ↦ rw k (hs.0, All-insert_descending P d docs h hs.1)
    | inr k ↦ rw k (h, hs)
  ]

  insert_descending-IsFalling :
      (d : ScoredDocument S D E) (docs : List (ScoredDocument S D E))
      → IsFalling rank docs
      → IsFalling rank (insert_descending zero greater d docs)
  unfolding insert_descending
  insert_descending-IsFalling d [] h = (tt, tt)
  insert_descending-IsFalling d (e ∷ docs) h = elim (Bool-cases (greater e.score d.score)) [
    | inl k ↦
        let lt = ltb→lt (rank d.score) (rank e.score) (sym (greater_rank e.score d.score) ∙ k) in
        rw k (
          All-insert_descending (λ x. rank x.score ≤ rank e.score) d docs (omega arith) h.0,
          insert_descending-IsFalling d docs h.1,
        )
    | inr k ↦
        let le =
          not-ltb→le (rank d.score) (rank e.score) (sym (greater_rank e.score d.score) ∙ k) in
        rw k ((le, All-weaken (λ x. rank x.score ≤ rank d.score) (λ x q. omega arith) docs h.0), h)
  ]

  pub sort_descending_lem :
      (docs : List (ScoredDocument S D E))
      → SameDocuments (sort_descending zero greater docs) docs
        × IsFalling rank (sort_descending zero greater docs)
        × ((P : ScoredDocument S D E → Type 0)
            → All P docs
            → All P (sort_descending zero greater docs))
  unfolding sort_descending
  sort_descending_lem [] = (λ p. refl, tt, λ P h. h)
  sort_descending_lem (d ∷ docs) =
      let (same, falling, every) = sort_descending_lem docs in
      (
        λ p. keep-insert_descending p d (sort_descending zero greater docs) ∙ more p same,
        insert_descending-IsFalling d (sort_descending zero greater docs) falling,
        λ P h. All-insert_descending P d (sort_descending zero greater docs) h.0 (every P h.1),
      )
    where
      more :
          (p : ScoredDocument S D E → Bool)
          → SameDocuments (sort_descending zero greater docs) docs
          → length (keep p (d ∷ sort_descending zero greater docs)) ≡ length (keep p (d ∷ docs))
      more p same = ground (arith, same p)
