-- ===== src/Index/Inverted/Arrays.antt =====
-- The arrays of ids that `intersect_terms` and `union_terms` of src/index/inverted.rs fold together.
use drusdenx.Prelude.{
  ℕ, ◌≡◌, refl, List, [], ◌∷◌, ok, ◌↔◌, ◌⊎◌, inl, inr, if◌then◌else◌, is_empty, All, In,
}
use drusdenx.Prelude.Ascending.{Ascending}
use drusdenx.Simd.{union_sorted}
use drusdenx.Simd.Intersect.{In-intersect_sorted}
use drusdenx.Simd.Union.{In-union_sorted, union_sorted-Ascending}
use drusdenx.Index.Inverted.{intersect_arrays, union_arrays}

module _ {F : Type 0} (zero one : F) (norm : ℕ → F) (interval : ℕ → ℕ) where
  -- The intersection of ascending arrays with an ascending result so far.
  pub intersect_arrays_lem :
      (result : List ℕ) (arrays : List (List ℕ))
      → Ascending result
      → All Ascending arrays
      → (r : List ℕ) × (intersect_arrays zero one norm interval result arrays ≡ ok r)
        × Ascending r
        × ((d : ℕ) → In d r ↔ (In d result × All (In d) arrays))
  unfolding intersect_arrays
  intersect_arrays_lem result [] h hs = (result, refl, h, λ d. (λ m. (m, tt), λ m. m.0))
  intersect_arrays_lem result (ids ∷ arrays) h hs =
      let (r, e, asc, mem) = In-intersect_sorted result ids h hs.0 in
      rw e (next r asc mem (λ r asc. intersect_arrays_lem r arrays asc hs.1))
    where
      next :
          (r : List ℕ)
          → Ascending r
          → ((d : ℕ) → In d r ↔ (In d result × In d ids))
          → ((r : List ℕ)
              → Ascending r
              → (r' : List ℕ) × (intersect_arrays zero one norm interval r arrays ≡ ok r')
                × Ascending r'
                × ((d : ℕ) → In d r' ↔ (In d r × All (In d) arrays)))
          → (r' : List ℕ) × ((if is_empty r
                then ok r
                else intersect_arrays zero one norm interval r arrays)
              ≡ ok r')
            × Ascending r'
            × ((d : ℕ) → In d r' ↔ (In d result × All (In d) (ids ∷ arrays)))
      next [] asc mem more = ([], refl, asc, λ d. (λ m. elim m [ ], λ m. (mem d).1 (m.0, m.1.0)))
      next (x ∷ r) asc mem more =
          let (r', e, asc', mem') = more (x ∷ r) asc in
          (
            r',
            e,
            asc',
            λ d. (
              λ m. let (here, rest) = (mem' d).0 m in let (a, b) = (mem d).0 here in (a, (b, rest)),
              λ m. (mem' d).1 ((mem d).1 (m.0, m.1.0), m.1.1),
            ),
          )

  pub union_arrays_lem :
      (result : List ℕ) (arrays : List (List ℕ))
      → Ascending result
      → All Ascending arrays
      → Ascending (union_arrays zero one norm interval result arrays)
        × ((d : ℕ)
            → In d (union_arrays zero one norm interval result arrays)
              ↔ (In d result ⊎ ((ids : List ℕ) × In ids arrays × In d ids)))
  unfolding union_arrays
  union_arrays_lem result [] h hs =
      (h, λ d. (inl, λ m. elim m [ inl k ↦ k | inr (ids, k, _) ↦ elim k [ ] ]))
  union_arrays_lem result (ids ∷ arrays) h hs =
      let (asc, mem) =
        union_arrays_lem (union_sorted result ids) arrays (union_sorted-Ascending result ids h hs.0)
          hs.1 in
      (asc, λ d. (λ m. later d (mem d) m, λ m. (mem d).1 (sooner d m)))
    where
      later :
          (d : ℕ)
          → In d (union_arrays zero one norm interval (union_sorted result ids) arrays)
            ↔ (In d (union_sorted result ids) ⊎ ((ids' : List ℕ) × In ids' arrays × In d ids'))
          → In d (union_arrays zero one norm interval (union_sorted result ids) arrays)
          → In d result ⊎ ((ids' : List ℕ) × In ids' (ids ∷ arrays) × In d ids')
      later d mem m = elim (mem.0 m) [
        | inl k ↦ elim ((In-union_sorted d result ids).0 k) [
          | inl a ↦ inl a
          | inr b ↦ inr (ids, inl refl, b)
        ]
        | inr (ids', k, b) ↦ inr (ids', inr k, b)
      ]

      sooner :
          (d : ℕ)
          → In d result ⊎ ((ids' : List ℕ) × In ids' (ids ∷ arrays) × In d ids')
          → In d (union_sorted result ids) ⊎ ((ids' : List ℕ) × In ids' arrays × In d ids')
      sooner d (inl a) = inl ((In-union_sorted d result ids).1 (inl a))
      sooner d (inr (ids', inl e, b)) = inl ((In-union_sorted d result ids).1 (inr (rw e at b)))
      sooner d (inr (ids', inr k, b)) = inr (ids', k, b)
