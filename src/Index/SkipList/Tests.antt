-- ===== src/Index/SkipList/Tests.antt =====
-- Runs of src/index/skiplist.rs, and its theorems at concrete inputs.
use drusdenx.Prelude.{ℕ, ◌≡◌, ◌↔◌, refl, List, [], ◌∷◌, arith, get_elem?, some}
use drusdenx.Index.Posting.{as_u32}
use drusdenx.Index.SkipList.{build, find, intersect}
use drusdenx.Index.SkipList.Find.{find_iff}
use drusdenx.Index.SkipList.Intersect.{intersect_misses}

abbrev docs : List ℕ
docs = 2 ∷ 3 ∷ 5 ∷ 8 ∷ 13 ∷ 21 ∷ []

find_runs : find (build 4 docs) 8 ≡ some 3
unfolding find build
find_runs = refl

intersect_runs : intersect (build 4 docs) (build 4 (2 ∷ 13 ∷ [])) ≡ some (2 ∷ 13 ∷ [])
unfolding intersect build
intersect_runs = refl

find_iff_example : (find (build 4 docs) 13 ≡ some 4) ↔ (get_elem? docs 4 ≡ some (as_u32 13))
find_iff_example = find_iff 4 13 4 docs (omega arith) (omega arith)

intersect_misses_example :
    intersect (build 4 (2 ∷ 3 ∷ 5 ∷ 8 ∷ 13 ∷ [])) (build 4 (5 ∷ [])) ≡ some []
intersect_misses_example =
    intersect_misses 2 3 5 8 13 (omega arith) (omega arith) (omega arith) (omega arith)
      (omega arith)
