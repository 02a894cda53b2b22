-- ===== src/Simd/Union.antt =====
-- `union_sorted` of src/simd/operation.rs: which values it returns, and in which order.
use mathlib.Core.List.{append_assoc}
use drusdenx.Prelude.{
  ℕ, ◌<◌, ◌≡◌, ◌↔◌, ◌⊎◌, inl, inr, refl, List, [], ◌∷◌, ◌++◌, true, false, arith, ltb, All, In,
  lt_cases,
}
use drusdenx.Prelude.Ascending.{Ascending, All-map}
use drusdenx.Simd.{union_loop, union_sorted}

-- The merge without the accumulator.
merged : List ℕ → List ℕ → List ℕ
merged [] bs = bs
merged (a ∷ as') [] = a ∷ as'
merged (a ∷ as') (b ∷ bs) = elim (ltb a b) [
  | true ↦ a ∷ merged as' (b ∷ bs)
  | false ↦ elim (ltb b a) [ true ↦ b ∷ merged (a ∷ as') bs | false ↦ a ∷ merged as' bs ]
]

merged_lt :
    (a b : ℕ) (as' bs : List ℕ) → a < b → merged (a ∷ as') (b ∷ bs) ≡ a ∷ merged as' (b ∷ bs)
unfolding merged
merged_lt a b as' bs h = ground arith

merged_gt :
    (a b : ℕ) (as' bs : List ℕ) → b < a → merged (a ∷ as') (b ∷ bs) ≡ b ∷ merged (a ∷ as') bs
unfolding merged
merged_gt a b as' bs h = ground arith

merged_eq : (a b : ℕ) (as' bs : List ℕ) → a ≡ b → merged (a ∷ as') (b ∷ bs) ≡ a ∷ merged as' bs
unfolding merged
merged_eq a b as' bs h = ground arith

union_loop-merged : (as' bs result : List ℕ) → union_loop as' bs result ≡ result ++ merged as' bs
unfolding union_loop merged
union_loop-merged [] bs result = refl
union_loop-merged (a ∷ as') [] result = refl
union_loop-merged (a ∷ as') (b ∷ bs) result = ground (
  arith,
  union_loop-merged as' (b ∷ bs) (result ++ a ∷ []),
  union_loop-merged (a ∷ as') bs (result ++ b ∷ []),
  union_loop-merged as' bs (result ++ a ∷ []),
  append_assoc result (a ∷ []) (merged as' (b ∷ bs)),
  append_assoc result (b ∷ []) (merged (a ∷ as') bs),
  append_assoc result (a ∷ []) (merged as' bs),
)

union_sorted-merged : (a b : List ℕ) → union_sorted a b ≡ merged a b
unfolding union_sorted
union_sorted-merged a b = union_loop-merged a b []

In-merged : (v : ℕ) (as' bs : List ℕ) → In v (merged as' bs) → In v as' ⊎ In v bs
unfolding merged
In-merged v [] bs m = inr m
In-merged v (a ∷ as') [] m = inl m
In-merged v (a ∷ as') (b ∷ bs) m =
    ground (arith, In-merged v as' (b ∷ bs), In-merged v (a ∷ as') bs, In-merged v as' bs)

merged-In : (v : ℕ) (as' bs : List ℕ) → In v as' ⊎ In v bs → In v (merged as' bs)
unfolding merged
merged-In v [] bs m = elim m [ inl l ↦ elim l [ ] | inr r ↦ r ]
merged-In v (a ∷ as') [] m = elim m [ inl l ↦ l | inr r ↦ elim r [ ] ]
merged-In v (a ∷ as') (b ∷ bs) m = elim (lt_cases a b) [
  | inl lt ↦ rw (merged_lt a b as' bs lt) (grind (arith, merged-In v as' (b ∷ bs)))
  | inr (inl gt) ↦ rw (merged_gt a b as' bs gt) (grind (arith, merged-In v (a ∷ as') bs))
  | inr (inr eq) ↦ rw (merged_eq a b as' bs eq) (grind (arith, merged-In v as' bs))
]

-- A value is in the result of `union_sorted` exactly when it is in one of the arrays, sorted or not.
pub In-union_sorted : (v : ℕ) (a b : List ℕ) → In v (union_sorted a b) ↔ (In v a ⊎ In v b)
In-union_sorted v a b = rw (union_sorted-merged a b) (In-merged v a b, merged-In v a b)

above-merged :
    (x : ℕ) (as' bs : List ℕ)
    → All (λ y. x < y) as'
    → All (λ y. x < y) bs
    → All (λ y. x < y) (merged as' bs)
unfolding merged
above-merged x [] bs ha hb = hb
above-merged x (a ∷ as') [] ha hb = ha
above-merged x (a ∷ as') (b ∷ bs) ha hb = ground (
  arith,
  above-merged x as' (b ∷ bs) ha.1 hb,
  above-merged x (a ∷ as') bs ha hb.1,
  above-merged x as' bs ha.1 hb.1,
)

merged-Ascending : (as' bs : List ℕ) → Ascending as' → Ascending bs → Ascending (merged as' bs)
unfolding merged
merged-Ascending [] bs ha hb = hb
merged-Ascending (a ∷ as') [] ha hb = ha
merged-Ascending (a ∷ as') (b ∷ bs) ha hb = elim (lt_cases a b) [
  | inl lt ↦ rw (merged_lt a b as' bs lt) (
    above-merged a as' (b ∷ bs) ha.0 (lt, All-map bs (λ y p. omega arith) hb.0),
    merged-Ascending as' (b ∷ bs) ha.1 hb,
  )
  | inr (inl gt) ↦ rw (merged_gt a b as' bs gt) (
    above-merged b (a ∷ as') bs (gt, All-map as' (λ y p. omega arith) ha.0) hb.0,
    merged-Ascending (a ∷ as') bs ha hb.1,
  )
  | inr (inr eq) ↦
      rw (merged_eq a b as' bs eq)
        (above-merged a as' bs ha.0 (rw eq hb.0), merged-Ascending as' bs ha.1 hb.1)
]

-- The union of two strictly ascending arrays is strictly ascending, so no value is there twice.
pub union_sorted-Ascending :
    (a b : List ℕ) → Ascending a → Ascending b → Ascending (union_sorted a b)
union_sorted-Ascending a b ha hb = rw (union_sorted-merged a b) (merged-Ascending a b ha hb)
