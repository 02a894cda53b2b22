-- ===== src/Simd.antt =====
-- src/simd/operation.rs: union and intersection of sorted arrays. An index that only moves forward
-- is the suffix that it has not passed. The scaling and dot product of floats are not modelled.
pub mod Union
pub mod Intersect
mod Tests
use drusdenx.Prelude.{
  ℕ, zero, suc, ◌+◌, List, [], ◌∷◌, ◌++◌, Bool, true, false, ◌&&◌, ltb, leb, if◌then◌else◌, length,
  get_or, drop, Option, none, some,
}

-- The three `while` loops of `union_sorted`.
union_loop : List ℕ → List ℕ → List ℕ → List ℕ
union_loop [] bs result = result ++ bs
union_loop (a ∷ as') [] result = result ++ a ∷ as'
union_loop (a ∷ as') (b ∷ bs) result = elim (ltb a b) [
  | true ↦ union_loop as' (b ∷ bs) (result ++ a ∷ [])
  | false ↦ elim (ltb b a) [
    | true ↦ union_loop (a ∷ as') bs (result ++ b ∷ [])
    | false ↦ union_loop as' bs (result ++ a ∷ [])
  ]
]

pub union_sorted : List ℕ → List ℕ → List ℕ
unfolding union_loop
union_sorted a b = union_loop a b []

abbrev pub gallop_threshold : ℕ
gallop_threshold = 8

-- Both chunks have eight values, and the first one ends below the start of the second.
chunk_before : List ℕ → ℕ → List ℕ → Bool
chunk_before xs y ys =
    leb gallop_threshold (length xs) && leb gallop_threshold (length ys) && ltb (get_or xs 7 0) y

-- One round of the `while` of `intersect_sorted`: what is left of both arrays, and the result.
intersect_round : ℕ → List ℕ → ℕ → List ℕ → List ℕ → List ℕ × List ℕ × List ℕ
intersect_round a as' b bs result =
    if chunk_before (a ∷ as') b (b ∷ bs)
    then (drop gallop_threshold (a ∷ as'), b ∷ bs, result)
    else if chunk_before (b ∷ bs) a (a ∷ as')
    then (a ∷ as', drop gallop_threshold (b ∷ bs), result)
    else if ltb a b
    then (as', b ∷ bs, result)
    else if ltb b a
    then (a ∷ as', bs, result)
    else (as', bs, result ++ a ∷ [])

-- `none` is a run that has used up its fuel.
intersect_loop : ℕ → List ℕ → List ℕ → List ℕ → Option (List ℕ)
unfolding intersect_round chunk_before
intersect_loop fuel [] bs result = some result
intersect_loop fuel (a ∷ as') [] result = some result
intersect_loop zero (a ∷ as') (b ∷ bs) result = none
intersect_loop (suc fuel) (a ∷ as') (b ∷ bs) result =
    let (as'', bs', result') = intersect_round a as' b bs result in
    intersect_loop fuel as'' bs' result'

-- Each round shortens one of the arrays.
pub intersect_sorted : List ℕ → List ℕ → Option (List ℕ)
unfolding intersect_loop
intersect_sorted a b = intersect_loop (length a + length b) a b []
