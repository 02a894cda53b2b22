-- ===== src/Query/Optimizer/Rows.antt =====
-- What the rules of src/query/optimizer.rs do to the rows of a plan.
use drusdenx.Prelude.{
  ℕ, zero, suc, min, ◌≡◌, ◌∙◌, ap, sym, refl, arith, List, [], ◌∷◌, Bool, keep, take,
}
use drusdenx.Query.Ast.{Text, Query}
use drusdenx.Query.Planner.{
  LogicalPlan, Plans, SortOrder, scan, index_seek, filter_plan, sort_plan, limit_plan, union_plan,
  intersection_plan, difference_plan, no_plan, more,
}
use drusdenx.Query.Optimizer.{filter_pushdown, limit_merge, apply_rule, optimize}

-- A source of rows, and the operators that the plans name. A stable sort by a key commutes with a
-- filter.
pub record Engine (F : Type 0) : Type 1 where
  pub Row : Type 0
  pub scanned : Text → List Row
  pub sought : Text → Text → List Row
  pub satisfies : Query F → Row → Bool
  pub sort : Text → SortOrder → List Row → List Row
  pub nothing : List Row
  pub unite : List Row → List Row → List Row
  pub intersect : List Row → List Row → List Row
  pub subtract : List Row → List Row → List Row
  pub sort-keep :
      (field : Text) (order : SortOrder) (p : Row → Bool) (rows : List Row)
      → sort field order (keep p rows) ≡ keep p (sort field order rows)

min_zero : (m : ℕ) → min 0 m ≡ 0
min_zero m = omega arith

min-suc : (n m : ℕ) → min (suc n) (suc m) ≡ suc (min n m)
min-suc n m = omega arith

take_none {ℓ} : {A : Type ℓ} (n : ℕ) → take {A = A} n [] ≡ []
take_none zero = refl
take_none (suc n) = refl

take-take {ℓ} : {A : Type ℓ} (n m : ℕ) (xs : List A) → take n (take m xs) ≡ take (min n m) xs
take-take zero m xs = ap (λ k. take k xs) (sym (min_zero m))
take-take (suc n) zero xs = let e : min (suc n) 0 ≡ 0 = omega arith in ap (λ k. take k xs) (sym e)
take-take (suc n) (suc m) [] = sym (take_none (min (suc n) (suc m)))
take-take (suc n) (suc m) (x ∷ xs) =
    ap (◌∷◌ x) (take-take n m xs) ∙ ap (λ k. take k (x ∷ xs)) (sym (min-suc n m))

module _ {F : Type 0} (e : Engine F) where
  unfoldable mutual
    pub rows : LogicalPlan F → List e.Row
    rows (scan field) = e.scanned field
    rows (index_seek field term) = e.sought field term
    rows (filter_plan predicate input) = keep (e.satisfies predicate) (rows input)
    rows (sort_plan field order input) = e.sort field order (rows input)
    rows (limit_plan n input) = take n (rows input)
    rows (union_plan inputs) = united inputs
    rows (intersection_plan inputs) = intersected inputs
    rows (difference_plan left right) = e.subtract (rows left) (rows right)

    united : Plans F → List e.Row
    united no_plan = e.nothing
    united (more p ps) = e.unite (rows p) (united ps)

    intersected : Plans F → List e.Row
    intersected no_plan = e.nothing
    intersected (more p ps) = e.intersect (rows p) (intersected ps)

  pushdown-rows : (p : LogicalPlan F) → rows (apply_rule filter_pushdown p) ≡ rows p
  unfolding apply_rule filter_pushdown rows
  pushdown-rows (sort_plan field order (filter_plan predicate inner)) =
      sym (e.sort-keep field order (e.satisfies predicate) (rows inner))
  pushdown-rows _ = refl

  merge-rows : (p : LogicalPlan F) → rows (apply_rule limit_merge p) ≡ rows p
  unfolding apply_rule limit_merge rows
  merge-rows (limit_plan n (limit_plan m inner)) = sym (take-take n m (rows inner))
  merge-rows _ = refl

  -- Moving a filter out of a sort and merging two limits, as the optimizer does at the root of a
  -- plan, leaves the rows of the plan as they are, where sorting commutes with filtering.
  pub rows-optimize : (p : LogicalPlan F) → rows (optimize p) ≡ rows p
  unfolding optimize
  rows-optimize p = merge-rows (apply_rule filter_pushdown p) ∙ pushdown-rows p
