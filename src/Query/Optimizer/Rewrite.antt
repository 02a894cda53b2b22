-- ===== src/Query/Optimizer/Rewrite.antt =====
-- What the executor's way through a plan and back does to the meaning of a query.
use drusdenx.Prelude.{
  ◌≡◌, ◌∙◌, sym, refl, ap, Bool, true, false, not, ◌&&◌, ◌||◌, Option, none, some, Result, ok, err,
  panic, ◌>>=◌, Bool-cases, inl, inr,
}
use drusdenx.Query.Ast.{
  Text, Query, Queries, term_query, phrase_query, bool_query, range_query, prefix_query,
  wildcard_query, fuzzy_query, match_all, nil, cons,
}
use drusdenx.Query.Planner.{plan, plan_all}
use drusdenx.Query.Matcher.Boolean.{holds, all_hold, any_holds, should_holds}
use drusdenx.Query.Optimizer.{
  filter_pushdown, limit_merge, apply_rule, optimize, plan_to_query, plans_to_queries,
  is_safe_to_optimize, optimize_query,
}

bind_ok :
    {A B : Type 0} (m : Result A) (f : A → Result B) (b : B)
    → (m >>= f) ≡ ok b
    → (a : A) × (m ≡ ok a) × (f a ≡ ok b)
bind_ok (ok a) f b e = (a, refl, e)
bind_ok (err k) f b e = absurd (cc)
bind_ok panic f b e = absurd (cc)

ok_inj : {A : Type 0} {a b : A} → ok a ≡ ok b → a ≡ b
ok_inj e = cc

and_left : (a b : Bool) → a && b ≡ true → a ≡ true
and_left true b h = refl
and_left false b h = h

and_right : (a b : Bool) → a && b ≡ true → b ≡ true
and_right true b h = h
and_right false b h = absurd (cc)

and_true : (a : Bool) → a && true ≡ a
and_true true = refl
and_true false = refl

and_mono :
    (a b c d : Bool) → (a ≡ true → c ≡ true) → (b ≡ true → d ≡ true) → a && b ≡ true → c && d ≡ true
and_mono true b c d f g h = rw (f refl) (g h)
and_mono false b c d f g h = absurd (cc)

or_mono :
    (a b c d : Bool) → (a ≡ true → c ≡ true) → (b ≡ true → d ≡ true) → a || b ≡ true → c || d ≡ true
or_mono true b c d f g h = rw (f refl) refl
or_mono false b true d f g h = refl
or_mono false b false d f g h = g h

module _ {F : Type 0} where
  -- No rule applies at the root of a plan that the planner makes.
  optimize-plan : (q : Query F) → optimize (plan q) ≡ plan q
  unfolding optimize apply_rule filter_pushdown limit_merge plan
  optimize-plan (term_query q) = refl
  optimize-plan (phrase_query q) = refl
  optimize-plan (bool_query (cons q qs) should must_not filter n b) = refl
  optimize-plan (bool_query nil (cons q qs) must_not filter n b) = refl
  optimize-plan (bool_query nil nil must_not filter n b) = refl
  optimize-plan (range_query q) = refl
  optimize-plan (prefix_query q) = refl
  optimize-plan (wildcard_query q) = refl
  optimize-plan (fuzzy_query q) = refl
  optimize-plan match_all = refl

  module _ (truth : Query F → Bool)
      (no_boost : (field value : Text) (b : Option F)
        → truth (term_query (record { field = field; value = value; boost = b }))
          ≡ truth (term_query (record { field = field; value = value; boost = none }))) where
    -- The query holds wherever the other one does.
    abbrev Weaker : Query F → Query F → Type 0
    Weaker q r = holds truth q ≡ true → holds truth r ≡ true

    record AreWeaker (qs rs : Queries F) : Type 0 where
      for_all : all_hold truth qs ≡ true → all_hold truth rs ≡ true
      for_any : any_holds truth qs ≡ true → any_holds truth rs ≡ true

    subst_weaker : (qs rs rs' : Queries F) → rs ≡ rs' → AreWeaker qs rs → AreWeaker qs rs'
    subst_weaker qs rs rs' e w = rw (sym e) w

    some_should : (rs : Queries F) → any_holds truth rs ≡ true → should_holds truth rs ≡ true
    unfolding holds
    some_should nil h = refl
    some_should (cons r rs) h = h

    mutual
      unfolding plan plan_to_query holds

      weaker : (q r : Query F) → plan_to_query (plan q) ≡ ok r → Weaker q r
      weaker (term_query q) r e h = rw (sym (ok_inj e)) (sym (no_boost q.field q.value q.boost) ∙ h)
      weaker (bool_query (cons p ps) should must_not filter n b) r e h =
          let (rs, m, e') =
            bind_ok (plans_to_queries (plan_all (cons p ps)))
              (λ clauses. ok (bool_query clauses nil nil nil none none)) r e in
          ap (holds truth) (sym (ok_inj e'))
          ∙ and_true (all_hold truth rs)
          ∙ (weaker_all (cons p ps) rs m).for_all (and_left (all_hold truth (cons p ps)) _ h)
      weaker (bool_query nil (cons p ps) must_not filter n b) r e h =
          let (rs, m, e') =
            bind_ok (plans_to_queries (plan_all (cons p ps)))
              (λ clauses. ok (bool_query nil clauses nil nil (some 1) none)) r e in
          ap (holds truth) (sym (ok_inj e'))
          ∙ and_true (should_holds truth rs)
          ∙ some_should rs (
              (weaker_all (cons p ps) rs m).for_any (
                and_left (any_holds truth (cons p ps)) _
                  (and_right (not (any_holds truth must_not)) _ h)))
      weaker (bool_query nil nil must_not filter n b) r e h = absurd (cc)
      weaker (phrase_query q) r e h = absurd (cc)
      weaker (range_query q) r e h = absurd (cc)
      weaker (prefix_query q) r e h = absurd (cc)
      weaker (wildcard_query q) r e h = absurd (cc)
      weaker (fuzzy_query q) r e h = absurd (cc)
      weaker match_all r e h = absurd (cc)

      weaker_all : (qs rs : Queries F) → plans_to_queries (plan_all qs) ≡ ok rs → AreWeaker qs rs
      weaker_all nil rs e =
          subst_weaker nil nil rs (ok_inj e) (record { for_all = λ h. h; for_any = λ h. h })
      weaker_all (cons q qs) rs e =
          let (r, m, e') =
            bind_ok (plan_to_query (plan q))
              (λ p. plans_to_queries (plan_all qs) >>= λ ps. ok (cons p ps)) rs e in
          let (rest, m', e'') =
            bind_ok (plans_to_queries (plan_all qs)) (λ ps. ok (cons r ps)) rs e' in
          let w = weaker_all qs rest m' in
          subst_weaker (cons q qs) (cons r rest) rs (ok_inj e'') (record {
            for_all =
                and_mono (holds truth q) (all_hold truth qs) (holds truth r) (all_hold truth rest)
                  (weaker q r m) w.for_all;
            for_any =
                or_mono (holds truth q) (any_holds truth qs) (holds truth r) (any_holds truth rest)
                  (weaker q r m) w.for_any;
          })

    -- The query that the executor runs in place of another holds of every document of which the
    -- other one holds: optimization loses no match. `truth` says which of
    -- the queries that are not Boolean the document matches; for a term it must not depend on the boost.
    pub holds-optimize_query :
        (q : Query F) → holds truth q ≡ true → holds truth (optimize_query q) ≡ true
    unfolding optimize_query
    holds-optimize_query q h = elim (Bool-cases (is_safe_to_optimize q)) [
      | inr unsafe ↦ rw unsafe h
      | inl safe ↦
          rw (safe, optimize-plan q) (pick q h (plan_to_query (plan q)) (λ r e. weaker q r e h))
    ]
      where
        pick :
            (q : Query F)
            → holds truth q ≡ true
            → (result : Result (Query F)) → ((r : Query F) → result ≡ ok r → holds truth r ≡ true)
            → holds truth (elim result [ ok optimized ↦ optimized | err e ↦ q | panic ↦ q ]) ≡ true
        pick q h (ok r) f = f r refl
        pick q h (err k) f = h
        pick q h panic f = h
