-- ===== src/Query/Optimizer.antt =====
-- src/query/optimizer.rs, and the part of src/search/executor.rs that plans a query, optimizes the
-- plan and turns it back into a query.
mod Rows
mod Rewrite
mod Tests
use drusdenx.Prelude.{
  ℕ, ◌+◌, min, Bool, true, false, ◌&&◌, Option, none, some, Result, ok, err, panic, invalid_state,
  ◌>>=◌, if◌then◌else◌,
}
use drusdenx.Query.Ast.{
  Text, Query, Queries, term_query, phrase_query, bool_query, range_query, prefix_query,
  wildcard_query, fuzzy_query, match_all, nil, cons,
}
use drusdenx.Query.Planner.{
  LogicalPlan, Plans, SortOrder, scan, index_seek, filter_plan, sort_plan, limit_plan, union_plan,
  intersection_plan, difference_plan, no_plan, more, plan,
}

module _ {F : Type 0} where
  -- `FilterPushdownRule::optimize`.
  pub filter_pushdown : LogicalPlan F → Option (LogicalPlan F)
  filter_pushdown (sort_plan field order (filter_plan predicate inner)) =
      some (filter_plan predicate (sort_plan field order inner))
  filter_pushdown _ = none

  -- `LimitMergeRule::optimize`.
  pub limit_merge : LogicalPlan F → Option (LogicalPlan F)
  limit_merge (limit_plan n (limit_plan inner_n inner)) = some (limit_plan (min n inner_n) inner)
  limit_merge _ = none

  pub apply_rule : (LogicalPlan F → Option (LogicalPlan F)) → LogicalPlan F → LogicalPlan F
  apply_rule rule p = elim (rule p) [ none ↦ p | some new_plan ↦ new_plan ]

  -- `QueryOptimizer::optimize`, with the two rules of `QueryOptimizer::new`.
  pub optimize : LogicalPlan F → LogicalPlan F
  unfolding apply_rule filter_pushdown limit_merge
  optimize p = apply_rule limit_merge (apply_rule filter_pushdown p)

  mutual
    pub plan_to_query : LogicalPlan F → Result (Query F)
    plan_to_query (scan field) = err invalid_state
    plan_to_query (index_seek field term) =
        ok (term_query (record { field = field; value = term; boost = none }))
    plan_to_query (filter_plan predicate input) = ok predicate
    plan_to_query (sort_plan field order input) = plan_to_query input
    plan_to_query (limit_plan n input) = plan_to_query input
    plan_to_query (union_plan inputs) =
        plans_to_queries inputs >>= λ clauses. ok (bool_query nil clauses nil nil (some 1) none)
    plan_to_query (intersection_plan inputs) =
        plans_to_queries inputs >>= λ clauses. ok (bool_query clauses nil nil nil none none)
    plan_to_query (difference_plan left right) = plan_to_query left >>= λ l.
        plan_to_query right >>= λ r. ok (bool_query (cons l nil) nil (cons r nil) nil none none)

    pub plans_to_queries : Plans F → Result (Queries F)
    plans_to_queries no_plan = ok nil
    plans_to_queries (more p ps) =
        plan_to_query p >>= λ q. plans_to_queries ps >>= λ qs. ok (cons q qs)

  abbrev pub no_queries : Queries F → Bool
  no_queries nil = true
  no_queries (cons q qs) = false

  mutual
    pub is_safe_to_optimize : Query F → Bool
    is_safe_to_optimize (term_query q) = true
    is_safe_to_optimize (bool_query must should must_not filter n b) =
        no_queries must_not && no_queries filter && all_safe must && all_safe should
    is_safe_to_optimize match_all = true
    is_safe_to_optimize (phrase_query q) = false
    is_safe_to_optimize (range_query q) = false
    is_safe_to_optimize (prefix_query q) = false
    is_safe_to_optimize (wildcard_query q) = false
    is_safe_to_optimize (fuzzy_query q) = false

    pub all_safe : Queries F → Bool
    all_safe nil = true
    all_safe (cons q qs) = is_safe_to_optimize q && all_safe qs

  -- An error of `plan_to_query` leaves the query as it is.
  pub optimize_query : Query F → Query F
  unfolding is_safe_to_optimize optimize plan_to_query plan
  optimize_query q =
      if is_safe_to_optimize q
      then elim (plan_to_query (optimize (plan q))) [
        | ok optimized ↦ optimized
        | err e ↦ q
        | panic ↦ q
      ]
      else q
