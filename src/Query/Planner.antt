-- ===== src/Query/Planner.antt =====
-- src/query/planner.rs: from a query to a logical plan.
use drusdenx.Prelude.{ℕ}
use drusdenx.Query.Ast.{
  Text, Query, Queries, term_query, phrase_query, bool_query, range_query, prefix_query,
  wildcard_query, fuzzy_query, match_all, nil, cons,
}
use drusdenx.Query.Parser.{content_text}

pub data SortOrder : Type 0 where
  asc desc : SortOrder

mutual
  pub data LogicalPlan (F : Type 0) : Type 0 where
    scan : Text → LogicalPlan F
    index_seek : Text → Text → LogicalPlan F
    filter_plan : Query F → LogicalPlan F → LogicalPlan F
    sort_plan : Text → SortOrder → LogicalPlan F → LogicalPlan F
    limit_plan : ℕ → LogicalPlan F → LogicalPlan F
    union_plan : Plans F → LogicalPlan F
    intersection_plan : Plans F → LogicalPlan F
    difference_plan : LogicalPlan F → LogicalPlan F → LogicalPlan F

  pub data Plans (F : Type 0) : Type 0 where
    no_plan : Plans F
    more : LogicalPlan F → Plans F → Plans F

module _ {F : Type 0} where
  -- The visitor methods, with `accept`. None returns an error, so the fall-back of
  -- `QueryPlanner::plan` is never used.
  unfoldable mutual
    pub plan : Query F → LogicalPlan F
    plan (term_query q) = index_seek q.field q.value
    plan (bool_query (cons q qs) should must_not filter n b) =
        intersection_plan (plan_all (cons q qs))
    plan (bool_query nil (cons q qs) must_not filter n b) = union_plan (plan_all (cons q qs))
    plan (bool_query nil nil must_not filter n b) = scan content_text
    plan (phrase_query q) = scan content_text
    plan (range_query q) = scan content_text
    plan (prefix_query q) = scan content_text
    plan (wildcard_query q) = scan content_text
    plan (fuzzy_query q) = scan content_text
    plan match_all = scan content_text

    pub plan_all : Queries F → Plans F
    plan_all nil = no_plan
    plan_all (cons q qs) = more (plan q) (plan_all qs)
