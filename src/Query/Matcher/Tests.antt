-- ===== src/Query/Matcher/Tests.antt =====
-- Runs of src/query/matcher.rs, and its theorems at concrete inputs.
use drusdenx.Prelude.{ℕ, ◌≡◌, ◌↔◌, refl, Bool, true, false, [], ◌∷◌, In, none, ok, Result}
use drusdenx.Query.Ast.{Query, term_query, bool_query, match_all, nil, cons}
use drusdenx.Query.Matcher.{matches, check_adjacent_positions, check_proximity_positions}
use drusdenx.Query.Matcher.Boolean.{holds, matches-holds}
use drusdenx.Query.Matcher.Phrase.{Behind, check_adjacent_positions_iff}

abbrev truth : Query Bool → Bool
truth q = false

abbrev leaf : Query Bool → Result Bool
leaf q = ok false

abbrev excluding : Query Bool
excluding =
    bool_query (cons match_all nil) nil
      (cons (term_query (record { field = []; value = []; boost = none })) nil) nil none none

matches_runs : matches leaf excluding ≡ ok true
unfolding matches
matches_runs = refl

matches-holds_example : matches leaf excluding ≡ ok (holds truth excluding)
matches-holds_example = matches-holds truth leaf (λ q. refl) excluding

-- The first position in the window is taken, and the search does not come back to it: the positions
-- 0, 2, 4 have a slop of one each, and are not found.
proximity_misses : check_proximity_positions ((0 ∷ []) ∷ (1 ∷ 2 ∷ []) ∷ (4 ∷ []) ∷ []) 1 ≡ false
unfolding check_proximity_positions
proximity_misses = refl

check_adjacent_positions_iff_example :
    (check_adjacent_positions ((3 ∷ 7 ∷ []) ∷ (8 ∷ []) ∷ []) ≡ true)
    ↔ ((start : ℕ) × In {A = ℕ} start (3 ∷ 7 ∷ []) × Behind start ((8 ∷ []) ∷ []))
check_adjacent_positions_iff_example = check_adjacent_positions_iff (3 ∷ 7 ∷ []) ((8 ∷ []) ∷ [])
