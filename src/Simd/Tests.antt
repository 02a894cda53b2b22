-- ===== src/Simd/Tests.antt =====
-- Runs of src/simd/operation.rs, and its theorems at concrete inputs.
use drusdenx.Prelude.{ℕ, ◌≡◌, refl, List, [], ◌∷◌, arith, some}
use drusdenx.Simd.{union_sorted, intersect_sorted}
use drusdenx.Simd.Intersect.{meet, intersect_sorted-meet}

abbrev long : List ℕ
long = 1 ∷ 2 ∷ 3 ∷ 4 ∷ 5 ∷ 6 ∷ 7 ∷ 8 ∷ 20 ∷ 30 ∷ []

abbrev late : List ℕ
late = 9 ∷ 10 ∷ 11 ∷ 12 ∷ 13 ∷ 14 ∷ 15 ∷ 20 ∷ 31 ∷ []

intersect_gallops : intersect_sorted long late ≡ some (20 ∷ [])
unfolding intersect_sorted
intersect_gallops = refl

union_runs : union_sorted (1 ∷ 3 ∷ []) (2 ∷ 3 ∷ []) ≡ 1 ∷ 2 ∷ 3 ∷ []
unfolding union_sorted
union_runs = refl

intersect_sorted-meet_example : intersect_sorted long late ≡ some (meet long late)
intersect_sorted-meet_example = intersect_sorted-meet long late (omega arith) (omega arith)
