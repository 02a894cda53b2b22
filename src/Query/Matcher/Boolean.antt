-- ===== src/Query/Matcher/Boolean.antt =====
-- What the Boolean query of src/query/matcher.rs means, and what an error of a clause does.
use drusdenx.Prelude.{
  ◌≡◌, refl, Bool, true, false, not, ◌&&◌, ◌||◌, Result, ok, ◌>>=◌, if◌then◌else◌,
}
use drusdenx.Query.Ast.{
  Query, Queries, term_query, phrase_query, bool_query, range_query, prefix_query, wildcard_query,
  fuzzy_query, match_all, nil, cons,
}
use drusdenx.Query.Matcher.{matches, all_match, any_match, should_match}

module _ {F : Type 0} (truth : Query F → Bool) where
  -- The meaning of a query where `truth` says which of the other queries hold.
  unfoldable mutual
    pub holds : Query F → Bool
    holds (bool_query must should must_not filter n b) =
        all_hold must && (not (any_holds must_not) && (should_holds should && all_hold filter))
    holds match_all = true
    holds (term_query q) = truth (term_query q)
    holds (phrase_query q) = truth (phrase_query q)
    holds (range_query q) = truth (range_query q)
    holds (prefix_query q) = truth (prefix_query q)
    holds (wildcard_query q) = truth (wildcard_query q)
    holds (fuzzy_query q) = truth (fuzzy_query q)

    pub all_hold : Queries F → Bool
    all_hold nil = true
    all_hold (cons q qs) = holds q && all_hold qs

    pub any_holds : Queries F → Bool
    any_holds nil = false
    any_holds (cons q qs) = holds q || any_holds qs

    pub should_holds : Queries F → Bool
    should_holds nil = true
    should_holds (cons q qs) = holds q || any_holds qs

  bool_ok :
      (a b c d : Bool) (ra rb rc rd : Result Bool)
      → ra ≡ ok a
      → rb ≡ ok b
      → rc ≡ ok c
      → rd ≡ ok d
      → (ra >>= λ must_ok.
          if not must_ok
          then ok false
          else rb >>= λ excluded.
              if excluded
              then ok false
              else rc >>= λ should_ok. if not should_ok then ok false else rd)
        ≡ ok (a && (not b && (c && d)))
  bool_ok true true c d ra rb rc rd ha hb hc hd = rw (ha, hb) refl
  bool_ok true false true d ra rb rc rd ha hb hc hd = rw (ha, hb, hc, hd) refl
  bool_ok true false false d ra rb rc rd ha hb hc hd = rw (ha, hb, hc) refl
  bool_ok false b c d ra rb rc rd ha hb hc hd = rw ha refl

  and_ok :
      (a b : Bool) (ra rb : Result Bool)
      → ra ≡ ok a
      → rb ≡ ok b
      → (ra >>= λ m. if not m then ok false else rb) ≡ ok (a && b)
  and_ok true b ra rb ha hb = rw (ha, hb) refl
  and_ok false b ra rb ha hb = rw ha refl

  or_ok :
      (a b : Bool) (ra rb : Result Bool)
      → ra ≡ ok a
      → rb ≡ ok b
      → (ra >>= λ m. if m then ok true else rb) ≡ ok (a || b)
  or_ok true b ra rb ha hb = rw ha refl
  or_ok false b ra rb ha hb = rw (ha, hb) refl

  module _ (leaf : Query F → Result Bool) (answers : (q : Query F) → leaf q ≡ ok (truth q)) where
    mutual
      unfolding matches holds

      matches_ok : (q : Query F) → matches leaf q ≡ ok (holds q)
      matches_ok (bool_query must should must_not filter n b) =
          bool_ok (all_hold must) (any_holds must_not) (should_holds should) (all_hold filter) _ _ _
            _ (all_ok must) (any_ok must_not) (should_ok should) (all_ok filter)
      matches_ok match_all = refl
      matches_ok (term_query q) = answers (term_query q)
      matches_ok (phrase_query q) = answers (phrase_query q)
      matches_ok (range_query q) = answers (range_query q)
      matches_ok (prefix_query q) = answers (prefix_query q)
      matches_ok (wildcard_query q) = answers (wildcard_query q)
      matches_ok (fuzzy_query q) = answers (fuzzy_query q)

      all_ok : (qs : Queries F) → all_match leaf qs ≡ ok (all_hold qs)
      all_ok nil = refl
      all_ok (cons q qs) = and_ok (holds q) (all_hold qs) _ _ (matches_ok q) (all_ok qs)

      any_ok : (qs : Queries F) → any_match leaf qs ≡ ok (any_holds qs)
      any_ok nil = refl
      any_ok (cons q qs) = or_ok (holds q) (any_holds qs) _ _ (matches_ok q) (any_ok qs)

      should_ok : (qs : Queries F) → should_match leaf qs ≡ ok (should_holds qs)
      should_ok nil = refl
      should_ok (cons q qs) = or_ok (holds q) (any_holds qs) _ _ (matches_ok q) (any_ok qs)

    -- Where no clause fails with an error, matching a query gives its meaning: a Boolean query holds
    -- if each must and each filter clause holds, no must-not clause does, and a should clause does
    -- unless there is none.
    pub matches-holds : (q : Query F) → matches leaf q ≡ ok (holds q)
    matches-holds q = matches_ok q
