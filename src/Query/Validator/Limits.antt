-- ===== src/Query/Validator/Limits.antt =====
-- What `QueryValidator::validate` accepts.
use drusdenx.Prelude.{
  ℕ, suc, ◌+◌, ◌<◌, ◌≤◌, ◌≡◌, ◌∙◌, ap, refl, max, arith, Bool, true, false, ◌&&◌, ltb, leb,
  if◌then◌else◌, inl, inr, Result, ok, err, Bool-cases, ltb→lt, not-ltb→le, invalid_input, ◌>>◌,
}
use drusdenx.Query.Ast.{
  Query, Queries, term_query, phrase_query, bool_query, range_query, prefix_query, wildcard_query,
  fuzzy_query, match_all, nil, cons, count,
}
use drusdenx.Query.Validator.{
  ValidationConfig, check_depth, validate_depth_recursive, validate_depths, visit, visit_all,
  validate,
}

module _ {F : Type 0} where
  -- How deep clauses stand in one another. The filter clauses do not count.
  unfoldable mutual
    pub nesting : Query F → ℕ
    nesting (bool_query must should must_not filter n b) =
        max (height must) (max (height should) (height must_not))
    nesting (term_query q) = 0
    nesting (phrase_query q) = 0
    nesting (range_query q) = 0
    nesting (prefix_query q) = 0
    nesting (wildcard_query q) = 0
    nesting (fuzzy_query q) = 0
    nesting match_all = 0

    pub height : Queries F → ℕ
    height nil = 0
    height (cons q qs) = max (suc (nesting q)) (height qs)

  -- The largest number of clauses of a Boolean query in the query, filter clauses left out.
  unfoldable mutual
    pub widest : Query F → ℕ
    widest (bool_query must should must_not filter n b) =
        max (count must + count should + count must_not)
          (max (breadth must) (max (breadth should) (breadth must_not)))
    widest (term_query q) = 0
    widest (phrase_query q) = 0
    widest (range_query q) = 0
    widest (prefix_query q) = 0
    widest (wildcard_query q) = 0
    widest (fuzzy_query q) = 0
    widest match_all = 0

    pub breadth : Queries F → ℕ
    breadth nil = 0
    breadth (cons q qs) = max (widest q) (breadth qs)

abbrev gate : Bool → Result (Unit {0})
gate true = ok tt
gate false = err invalid_input

gate-and : (a b : Bool) → (gate a >> gate b) ≡ gate (a && b)
gate-and true b = refl
gate-and false b = refl

gates-and : (a b c : Bool) → (gate a >> gate b >> gate c) ≡ gate (a && (b && c))
gates-and true b c = gate-and b c
gates-and false b c = refl

gate-if : (a : Bool) → gate a ≡ (if a then ok tt else err invalid_input)
gate-if true = refl
gate-if false = refl

leb-max : (d a b m : ℕ) → (leb (d + a) m && leb (d + b) m) ≡ leb (d + max a b) m
leb-max d a b m = ground arith

leb_zero : (m : ℕ) → ok tt ≡ gate (leb 0 m)
leb_zero m = ground arith

leb-max_0 : (a b m : ℕ) → (leb a m && leb b m) ≡ leb (max a b) m
leb-max_0 a b m = ground arith

ltb-gate : (a b : ℕ) → (if ltb b a then err invalid_input else ok tt) ≡ gate (leb a b)
ltb-gate a b = ground arith

leaf_gate :
    (config : ValidationConfig) (d : ℕ)
    → check_depth config d ≡ gate (leb (d + 0) config.max_query_depth)
unfolding check_depth
leaf_gate config d = ground arith

stop_gate : (d a m : ℕ) → m < d → err invalid_input ≡ gate (leb (d + a) m)
stop_gate d a m h = ground arith

leb-suc : (d a b m : ℕ) → (leb (suc d + a) m && leb (d + b) m) ≡ leb (d + max (suc a) b) m
leb-suc d a b m = ground arith

leb_le : (d m : ℕ) → d ≤ m → leb (d + 0) m ≡ true
leb_le d m h = ground arith

bool_gate :
    (config : ValidationConfig) (d a b c : ℕ) (x y z : Result (Unit {0}))
    → (d ≤ config.max_query_depth → x ≡ gate (leb (d + a) config.max_query_depth))
    → (d ≤ config.max_query_depth → y ≡ gate (leb (d + b) config.max_query_depth))
    → (d ≤ config.max_query_depth → z ≡ gate (leb (d + c) config.max_query_depth))
    → (check_depth config d >> x >> y >> z)
      ≡ gate (leb (d + max a (max b c)) config.max_query_depth)
unfolding check_depth
bool_gate config d a b c x y z hx hy hz = elim (Bool-cases (ltb config.max_query_depth d)) [
  | inl over ↦ rw over (stop_gate d (max a (max b c)) config.max_query_depth (ltb→lt _ _ over))
  | inr fits ↦
      let m = config.max_query_depth in
      let le = not-ltb→le _ _ fits in
      rw (fits, hx le, hy le, hz le)
        (gates-and (leb (d + a) m) (leb (d + b) m) (leb (d + c) m)
          ∙ ap (λ t. gate (leb (d + a) m && t)) (leb-max d b c m)
          ∙ ap gate (leb-max d a (max b c) m))
]

cons_gate :
    (d a b m : ℕ) (x y : Result (Unit {0}))
    → x ≡ gate (leb (suc d + a) m)
    → y ≡ gate (leb (d + b) m)
    → (x >> y) ≡ gate (leb (d + max (suc a) b) m)
cons_gate d a b m x y hx hy =
    rw (hx, hy) (gate-and (leb (suc d + a) m) (leb (d + b) m) ∙ ap gate (leb-suc d a b m))

leb-clauses :
    (n a b c m : ℕ) → n ≤ m → (leb a m && (leb b m && leb c m)) ≡ leb (max n (max a (max b c))) m
leb-clauses n a b c m h = ground arith

leb_over : (n a m : ℕ) → m < n → false ≡ leb (max n a) m
leb_over n a m h = ground arith

clauses_gate :
    (n a b c m : ℕ) (x y z : Result (Unit {0}))
    → x ≡ gate (leb a m)
    → y ≡ gate (leb b m)
    → z ≡ gate (leb c m)
    → (if ltb m n then err invalid_input else (x >> y >> z))
      ≡ gate (leb (max n (max a (max b c))) m)
clauses_gate n a b c m x y z hx hy hz = elim (Bool-cases (ltb m n)) [
  | inl over ↦ rw over (ap gate (leb_over n (max a (max b c)) m (ltb→lt _ _ over)))
  | inr fits ↦
      rw (fits, hx, hy, hz)
        (gates-and (leb a m) (leb b m) (leb c m)
          ∙ ap gate (leb-clauses n a b c m (not-ltb→le _ _ fits)))
]

each_gate :
    (a b m : ℕ) (x y : Result (Unit {0}))
    → x ≡ gate (leb a m)
    → y ≡ gate (leb b m)
    → (x >> y) ≡ gate (leb (max a b) m)
each_gate a b m x y hx hy = rw (hx, hy) (gate-and (leb a m) (leb b m) ∙ ap gate (leb-max_0 a b m))

module _ {F : Type 0} (config : ValidationConfig) where
  mutual
    unfolding validate_depth_recursive nesting

    depth_gate :
        (q : Query F) (d : ℕ)
        → validate_depth_recursive config q d ≡ gate (leb (d + nesting q) config.max_query_depth)
    depth_gate (bool_query must should must_not filter n b) d =
        bool_gate config d (height must) (height should) (height must_not) _ _ _
          (depths_gate must d) (depths_gate should d) (depths_gate must_not d)
    depth_gate (term_query q) d = leaf_gate config d
    depth_gate (phrase_query q) d = leaf_gate config d
    depth_gate (range_query q) d = leaf_gate config d
    depth_gate (prefix_query q) d = leaf_gate config d
    depth_gate (wildcard_query q) d = leaf_gate config d
    depth_gate (fuzzy_query q) d = leaf_gate config d
    depth_gate match_all d = leaf_gate config d

    depths_gate :
        (qs : Queries F) (d : ℕ)
        → d ≤ config.max_query_depth
        → validate_depths config qs (suc d) ≡ gate (leb (d + height qs) config.max_query_depth)
    depths_gate nil d h = rw (leb_le d config.max_query_depth h) refl
    depths_gate (cons q qs) d h =
        cons_gate d (nesting q) (height qs) config.max_query_depth _ _ (depth_gate q (suc d))
          (depths_gate qs d h)

  mutual
    unfolding visit widest

    visit-gate : (q : Query F) → visit config q ≡ gate (leb (widest q) config.max_bool_clauses)
    visit-gate (bool_query must should must_not filter n b) =
        clauses_gate (count must + count should + count must_not) (breadth must) (breadth should)
          (breadth must_not) config.max_bool_clauses _ _ _ (visit_all-gate must)
          (visit_all-gate should) (visit_all-gate must_not)
    visit-gate (term_query q) = leb_zero config.max_bool_clauses
    visit-gate (phrase_query q) = leb_zero config.max_bool_clauses
    visit-gate (range_query q) = leb_zero config.max_bool_clauses
    visit-gate (prefix_query q) = leb_zero config.max_bool_clauses
    visit-gate (wildcard_query q) = leb_zero config.max_bool_clauses
    visit-gate (fuzzy_query q) = leb_zero config.max_bool_clauses
    visit-gate match_all = leb_zero config.max_bool_clauses

    visit_all-gate :
        (qs : Queries F) → visit_all config qs ≡ gate (leb (breadth qs) config.max_bool_clauses)
    visit_all-gate nil = leb_zero config.max_bool_clauses
    visit_all-gate (cons q qs) =
        each_gate (widest q) (breadth qs) config.max_bool_clauses _ _ (visit-gate q)
          (visit_all-gate qs)

  -- Validation accepts a query exactly when its clauses are nested no deeper than the limit and no
  -- Boolean query in it has more clauses than the limit; every other query is an `InvalidInput`
  -- error. Depth and clauses are those of `nesting` and `widest`, which pass over filter clauses.
  pub validate-limits :
      (q : Query F)
      → validate config q ≡ (
          if leb (nesting q) config.max_query_depth && leb (widest q) config.max_bool_clauses
          then ok tt
          else err invalid_input)
  unfolding validate
  validate-limits q =
      let flush : 0 + nesting q ≡ nesting q = omega arith in
      ap (λ r. r >> visit config q)
        (depth_gate q 0 ∙ ap (λ n. gate (leb n config.max_query_depth)) flush)
      ∙ ap (λ r. gate (leb (nesting q) config.max_query_depth) >> r) (visit-gate q)
      ∙ gate-and (leb (nesting q) config.max_query_depth) (leb (widest q) config.max_bool_clauses)
      ∙ gate-if (leb (nesting q) config.max_query_depth && leb (widest q) config.max_bool_clauses)
