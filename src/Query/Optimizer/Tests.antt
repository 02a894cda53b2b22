-- ===== src/Query/Optimizer/Tests.antt =====
-- The theorems on plans at concrete inputs.
use drusdenx.Prelude.{◌≡◌, refl, Bool, true, [], ◌∷◌, none, some}
use drusdenx.Query.Ast.{Query, term_query, bool_query, match_all, nil, cons}
use drusdenx.Query.Planner.{LogicalPlan, asc, scan, filter_plan, sort_plan}
use drusdenx.Query.Matcher.Boolean.{holds}
use drusdenx.Query.Optimizer.{optimize_query}
use drusdenx.Query.Optimizer.Rows.{Engine}
use drusdenx.Query.Optimizer.Rewrite.{holds-optimize_query}

-- Rows that are all equal, which any sort leaves as they are.
abbrev engine : Engine Bool
engine = record {
  Row = Bool;
  scanned = λ field. true ∷ true ∷ [];
  sought = λ field term. [];
  satisfies = λ q row. row;
  sort = λ field order rows. rows;
  nothing = [];
  unite = λ xs ys. xs;
  intersect = λ xs ys. xs;
  subtract = λ xs ys. xs;
  sort-keep = λ field order p rows. refl;
}

abbrev sorted_filter : LogicalPlan Bool
sorted_filter = sort_plan [] asc (filter_plan match_all (scan []))

abbrev word_query : Query Bool
word_query = term_query (record { field = []; value = 1 ∷ []; boost = some true })

-- Both words of a conjunction hold; the should clause is lost on the way through the plan.
abbrev both : Query Bool
both = bool_query (cons word_query nil) (cons word_query nil) nil nil none none

should_is_lost :
    optimize_query both
    ≡ bool_query
        (cons (term_query (record { field = []; value = 1 ∷ []; boost = none })) nil)
        nil
        nil
        nil
        none
        none
unfolding optimize_query
should_is_lost = refl

abbrev truth : Query Bool → Bool
truth q = true

holds-optimize_query_example : holds truth (optimize_query both) ≡ true
holds-optimize_query_example =
    holds-optimize_query truth (λ field value b. refl) both (unfold holds in refl)
