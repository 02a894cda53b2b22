-- ===== src/Search/TopK/Best.antt =====
-- The collector of src/search/results.rs: what it holds after some documents.
use drusdenx.Prelude.{
  ℕ, ◌+◌, ◌≤◌, ◌<◌, ◌≡◌, refl, sym, ap, ◌∙◌, min, List, [], ◌∷◌, ◌++◌, Bool, true, ltb, arith,
  length, length-append, keep, All, All-weaken, Bool-cases, inl, inr, ltb→lt, not-ltb→le,
}
use drusdenx.Search.TopK.{ScoredDocument, TopKCollector, push, popped}

-- Both lists have the same documents, each as often: every test counts the same number in both.
abbrev pub SameDocuments : {A : Type 0} → List A → List A → Type 0
SameDocuments {A = A} xs ys = (p : A → Bool) → length (keep p xs) ≡ length (keep p ys)

module _ {S D E : Type 0} (rank : S → ℕ) where
  -- Lowest score first, and highest score first.
  abbrev pub IsRising : List (ScoredDocument S D E) → Type 0
  IsRising [] = Unit
  IsRising (d ∷ docs) = All (λ e. rank d.score ≤ rank e.score) docs × IsRising docs

  abbrev pub IsFalling : List (ScoredDocument S D E) → Type 0
  IsFalling [] = Unit
  IsFalling (d ∷ docs) = All (λ e. rank e.score ≤ rank d.score) docs × IsFalling docs

-- Scores that are numbers are compared as their ranks.
module _ {S D E : Type 0} (zero : S) (greater : S → S → Bool) (rank : S → ℕ)
    (greater_rank : (a b : S) → greater a b ≡ ltb (rank b) (rank a)) where
  keep-push :
      (p : ScoredDocument S D E → Bool) (d : ScoredDocument S D E)
      (heap : List (ScoredDocument S D E))
      → length (keep p (push zero greater d heap)) ≡ length (keep p (d ∷ heap))
  unfolding push
  keep-push p d [] = refl
  keep-push p d (e ∷ heap) = elim (Bool-cases (greater d.score e.score)) [
    | inl h ↦ rw h (ground (arith, keep-push p d heap))
    | inr h ↦ rw h refl
  ]

  All-push :
      (P : ScoredDocument S D E → Type 0) (d : ScoredDocument S D E)
      (heap : List (ScoredDocument S D E))
      → P d
      → All P heap
      → All P (push zero greater d heap)
  unfolding push
  All-push P d [] h hs = (h, tt)
  All-push P d (e ∷ heap) h hs = elim (Bool-cases (greater d.score e.score)) [
    | inl k ↦ rw k (hs.0, All-push P d heap h hs.1)
    | inr k ↦ rw k (h, hs)
  ]

  push-IsRising :
      (d : ScoredDocument S D E) (heap : List (ScoredDocument S D E))
      → IsRising rank heap
      → IsRising rank (push zero greater d heap)
  unfolding push
  push-IsRising d [] h = (tt, tt)
  push-IsRising d (e ∷ heap) h = elim (Bool-cases (greater d.score e.score)) [
    | inl k ↦
        let lt = ltb→lt (rank e.score) (rank d.score) (sym (greater_rank d.score e.score) ∙ k) in
        rw k (
          All-push (λ x. rank e.score ≤ rank x.score) d heap (omega arith) h.0,
          push-IsRising d heap h.1,
        )
    | inr k ↦
        let le =
          not-ltb→le (rank e.score) (rank d.score) (sym (greater_rank d.score e.score) ∙ k) in
        rw k ((le, All-weaken (λ x. rank d.score ≤ rank x.score) (λ x q. omega arith) heap h.0), h)
  ]

  pub length-push :
      (d : ScoredDocument S D E) (heap : List (ScoredDocument S D E))
      → length (push zero greater d heap) ≡ length heap + 1
  unfolding push
  length-push d [] = refl
  length-push d (e ∷ heap) = elim (Bool-cases (greater d.score e.score)) [
    | inl k ↦ rw k (omega (arith, length-push d heap))
    | inr k ↦ rw k (omega arith)
  ]

  -- What the collector has done after some documents, of which it has dropped some.
  pub record IsBest (k : ℕ) (docs dropped : List (ScoredDocument S D E)) (c : TopKCollector S D E)
      : Type 0 where
    pub same_k : c.k ≡ k
    pub total : c.total_collected ≡ length docs
    pub kept : length c.heap ≡ min k (length docs)
    pub rising : IsRising rank c.heap
    pub documents : SameDocuments (c.heap ++ dropped) docs
    pub below : 0 < k → All (λ d. rank d.score ≤ rank c.min_score) dropped
    pub bounded : All (λ e. rank c.min_score ≤ rank e.score) c.heap
    pub not_yet : length c.heap < k → rank c.min_score ≡ rank zero

  pub length-keep-append :
      (p : ScoredDocument S D E → Bool) (xs ys : List (ScoredDocument S D E))
      → length (keep p (xs ++ ys)) ≡ length (keep p xs) + length (keep p ys)
  length-keep-append p [] ys = omega arith
  length-keep-append p (x ∷ xs) ys = ground (arith, length-keep-append p xs ys)

  pub length-keep-true :
      (xs : List (ScoredDocument S D E)) → length (keep (λ x. true) xs) ≡ length xs
  length-keep-true [] = refl
  length-keep-true (x ∷ xs) = ap ℕ.suc (length-keep-true xs)

  -- Nothing was dropped as long as there was room.
  none_dropped :
      (k : ℕ) (docs dropped : List (ScoredDocument S D E)) (c : TopKCollector S D E)
      → IsBest k docs dropped c
      → length c.heap < k
      → dropped ≡ []
  none_dropped k docs dropped c is lt = length-zero dropped (
      omega (
        arith,
        is.kept,
        is.documents (λ x. true),
        length-keep-true (c.heap ++ dropped),
        length-keep-true docs,
        length-append c.heap dropped,
      ))
    where
      length-zero : (xs : List (ScoredDocument S D E)) → length xs ≡ 0 → xs ≡ []
      length-zero [] h = refl
      length-zero (x ∷ xs) h = absurd (omega arith)

  pub rejected-IsBest :
      (k : ℕ) (docs dropped : List (ScoredDocument S D E)) (c : TopKCollector S D E)
      (d : ScoredDocument S D E)
      → IsBest k docs dropped c
      → rank d.score ≤ rank c.min_score
      → k ≤ length c.heap
      → IsBest k (d ∷ docs) (d ∷ dropped) (record c { total_collected = c.total_collected + 1 })
  rejected-IsBest k docs dropped c d is le full = record {
    same_k = is.same_k;
    total = omega (arith, is.total);
    kept = omega (arith, is.kept);
    rising = is.rising;
    documents = λ p. ground (
      arith,
      is.documents p,
      length-keep-append p c.heap dropped,
      length-keep-append p c.heap (d ∷ dropped),
    );
    below = λ h. (le, is.below h);
    bounded = is.bounded;
    not_yet = λ h. absurd (omega arith);
  }

  pub room-IsBest :
      (k : ℕ) (docs dropped : List (ScoredDocument S D E)) (c : TopKCollector S D E)
      (d : ScoredDocument S D E)
      → IsBest k docs dropped c
      → rank zero ≤ rank d.score
      → length c.heap < k
      → IsBest k
          (d ∷ docs)
          dropped
          (record c { total_collected = c.total_collected + 1; heap = push zero greater d c.heap })
  room-IsBest k docs dropped c d is le room = record {
    same_k = is.same_k;
    total = omega (arith, is.total);
    kept = omega (arith, is.kept, length-push d c.heap);
    rising = push-IsRising d c.heap is.rising;
    documents = λ p. ground (
      arith,
      is.documents p,
      keep-push p d c.heap,
      length-keep-append p c.heap dropped,
      length-keep-append p (push zero greater d c.heap) dropped,
    );
    below = is.below;
    bounded =
        All-push (λ e. rank c.min_score ≤ rank e.score) d c.heap (omega (arith, is.not_yet room))
          is.bounded;
    not_yet = λ h. is.not_yet room;
  }

  pub full-IsBest :
      (k : ℕ) (docs dropped : List (ScoredDocument S D E)) (c : TopKCollector S D E)
      (d : ScoredDocument S D E)
      → IsBest k docs dropped c
      → rank c.min_score ≤ rank d.score
      → length c.heap ≡ k
      → (dropped' : List (ScoredDocument S D E)) × IsBest k (d ∷ docs) dropped' (
          popped zero greater
            (record c { total_collected = c.total_collected + 1 })
            (push zero greater d c.heap))
  full-IsBest k docs dropped c d is le full =
      go (push zero greater d c.heap) (length-push d c.heap) (push-IsRising d c.heap is.rising)
        (λ p. keep-push p d c.heap)
        (All-push (λ e. rank c.min_score ≤ rank e.score) d c.heap le is.bounded)
    where
      go :
          (heap : List (ScoredDocument S D E))
          → length heap ≡ length c.heap + 1
          → IsRising rank heap
          → ((p : ScoredDocument S D E → Bool)
              → length (keep p heap) ≡ length (keep p (d ∷ c.heap)))
          → All (λ e. rank c.min_score ≤ rank e.score) heap
          → (dropped' : List (ScoredDocument S D E)) × IsBest k
              (d ∷ docs)
              dropped'
              (popped zero greater (record c { total_collected = c.total_collected + 1 }) heap)
      go [] len up same above = absurd (omega arith)
      go (x ∷ []) len up same above = (
        x ∷ dropped,
        record {
          same_k = is.same_k;
          total = omega (arith, is.total);
          kept = omega arith;
          rising = tt;
          documents =
              λ p. ground (arith, same p, is.documents p, length-keep-append p c.heap dropped);
          below = λ h. absurd (omega arith);
          bounded = tt;
          not_yet = λ h. absurd (omega arith);
        },
      )
      go (x ∷ e ∷ heap) len up same above = (
        x ∷ dropped,
        record {
          same_k = is.same_k;
          total = omega (arith, is.total);
          kept = omega (arith, is.kept);
          rising = up.1;
          documents = λ p. ground (
            arith,
            same p,
            is.documents p,
            length-keep-append p c.heap dropped,
            length-keep-append p (e ∷ heap) (x ∷ dropped),
          );
          below = λ h. (
            up.0.0,
            All-weaken (λ y. rank y.score ≤ rank e.score) (λ y q. omega (arith, above.1.0)) dropped
                (is.below h),
          );
          bounded = (omega arith, up.1.0);
          not_yet = λ h. absurd (omega arith);
        },
      )
