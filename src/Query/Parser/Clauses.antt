-- ===== src/Query/Parser/Clauses.antt =====
-- What `parse_boolean_query` makes of its tokens.
use drusdenx.Prelude.{
  ℕ, ◌+◌, ◌≤◌, ◌≡◌, refl, ◌∙◌, List, [], ◌∷◌, arith, Bool, true, false, if◌then◌else◌, Bool-cases,
  inl, inr, leb, ◌&&◌, ok, err, invalid_input,
}
use drusdenx.Query.Ast.{
  Text, Query, Queries, to_query, BoolQuery, push, count, nil, cons, empty_bool, with_must,
  with_should, with_must_not,
}
use drusdenx.Query.Validator.{ValidationConfig, validate}
use drusdenx.Query.Validator.Limits.{nesting, height, widest, breadth, validate-limits}
use drusdenx.Query.Parser.{
  QueryParser, BooleanOperator, and_op, or_op, same_text, and_text, or_text, not_text, term_of,
  parse_boolean_query, push_term, boolean_loop,
}

-- The tokens that are no operators.
pub words : List Text → ℕ
words [] = 0
words (token ∷ tokens) =
    if same_text token and_text
    then words tokens
    else if same_text token or_text
    then words tokens
    else if same_text token not_text
    then words tokens
    else 1 + words tokens

module _ {F : Type 0} where
  abbrev pub clauses : BoolQuery F → ℕ
  clauses b = count b.must + count b.should + count b.must_not

  count-push : (qs : Queries F) (q : Query F) → count (push qs q) ≡ count qs + 1
  unfolding push
  count-push nil q = refl
  count-push (cons p qs) q = omega (arith, count-push qs q)

  clauses-push_term :
      (parser : QueryParser) (op : BooleanOperator) (pending_not : Bool) (token : Text)
      (b : BoolQuery F)
      → clauses (push_term parser op pending_not token b) ≡ clauses b + 1
  unfolding push_term with_must with_should with_must_not
  clauses-push_term parser op true token b =
      omega (arith, count-push b.must_not (term_of parser token))
  clauses-push_term parser and_op false token b =
      omega (arith, count-push b.must (term_of parser token))
  clauses-push_term parser or_op false token b =
      omega (arith, count-push b.should (term_of parser token))

  clauses-boolean_loop :
      (parser : QueryParser) (tokens : List Text) (op : BooleanOperator) (pending_not : Bool)
      (b : BoolQuery F)
      → clauses (boolean_loop parser tokens op pending_not b) ≡ clauses b + words tokens
  unfolding boolean_loop words
  clauses-boolean_loop parser [] op pending_not b = omega arith
  clauses-boolean_loop parser (token ∷ tokens) op pending_not b =
      elim (Bool-cases (same_text token and_text)) [
        | inl e ↦ rw e (clauses-boolean_loop parser tokens and_op pending_not b)
        | inr ne ↦ elim (Bool-cases (same_text token or_text)) [
          | inl e ↦ rw (ne, e) (clauses-boolean_loop parser tokens or_op pending_not b)
          | inr ne' ↦ elim (Bool-cases (same_text token not_text)) [
            | inl e ↦ rw (ne, ne', e) (clauses-boolean_loop parser tokens op true b)
            | inr ne'' ↦
                rw (ne, ne', ne'')
                  (omega (
                    arith,
                    clauses-push_term parser op pending_not token b,
                    clauses-boolean_loop parser tokens op false
                        (push_term parser op pending_not token b),
                  ))
          ]
        ]
      ]

  -- Every clause is a leaf of the tree of queries.
  record IsFlat (qs : Queries F) : Type 0 where
    low : height qs ≤ 1
    narrow : breadth qs ≡ 0

  IsFlat-push :
      (parser : QueryParser) (token : Text) (qs : Queries F)
      → IsFlat qs
      → IsFlat (push qs (term_of parser token))
  unfolding push term_of nesting widest
  IsFlat-push parser token nil h = record { low = omega arith; narrow = omega arith }
  IsFlat-push parser token (cons q qs) h =
      let g =
        IsFlat-push parser token qs
          (record { low = omega (arith, h.low); narrow = omega (arith, h.narrow) }) in
      record { low = omega (arith, h.low, g.low); narrow = omega (arith, h.narrow, g.narrow) }

  record AreFlat (b : BoolQuery F) : Type 0 where
    must : IsFlat b.must
    should : IsFlat b.should
    must_not : IsFlat b.must_not

  AreFlat-push_term :
      (parser : QueryParser) (op : BooleanOperator) (pending_not : Bool) (token : Text)
      (b : BoolQuery F)
      → AreFlat b
      → AreFlat (push_term parser op pending_not token b)
  unfolding push_term with_must with_should with_must_not
  AreFlat-push_term parser op true token b h = record {
    must = h.must;
    should = h.should;
    must_not = IsFlat-push parser token b.must_not h.must_not;
  }
  AreFlat-push_term parser and_op false token b h = record {
    must = IsFlat-push parser token b.must h.must;
    should = h.should;
    must_not = h.must_not;
  }
  AreFlat-push_term parser or_op false token b h = record {
    must = h.must;
    should = IsFlat-push parser token b.should h.should;
    must_not = h.must_not;
  }

  AreFlat-boolean_loop :
      (parser : QueryParser) (tokens : List Text) (op : BooleanOperator) (pending_not : Bool)
      (b : BoolQuery F)
      → AreFlat b
      → AreFlat (boolean_loop parser tokens op pending_not b)
  unfolding boolean_loop
  AreFlat-boolean_loop parser [] op pending_not b h = h
  AreFlat-boolean_loop parser (token ∷ tokens) op pending_not b h =
      elim (Bool-cases (same_text token and_text)) [
        | inl e ↦ rw e (AreFlat-boolean_loop parser tokens and_op pending_not b h)
        | inr ne ↦ elim (Bool-cases (same_text token or_text)) [
          | inl e ↦ rw (ne, e) (AreFlat-boolean_loop parser tokens or_op pending_not b h)
          | inr ne' ↦ elim (Bool-cases (same_text token not_text)) [
            | inl e ↦ rw (ne, ne', e) (AreFlat-boolean_loop parser tokens op true b h)
            | inr ne'' ↦
                rw (ne, ne', ne'')
                  (AreFlat-boolean_loop parser tokens op false
                    (push_term parser op pending_not token b)
                    (AreFlat-push_term parser op pending_not token b h))
          ]
        ]
      ]

  flat-bounds :
      (b : BoolQuery F) → AreFlat b → (nesting (to_query b) ≤ 1) × (widest (to_query b) ≡ clauses b)
  unfolding nesting widest
  flat-bounds b h = (
    omega (arith, h.must.low, h.should.low, h.must_not.low),
    omega (arith, h.must.narrow, h.should.narrow, h.must_not.narrow),
  )

  AreFlat-empty_bool : AreFlat empty_bool
  unfolding empty_bool nesting widest
  AreFlat-empty_bool = record {
    must = record { low = omega arith; narrow = refl };
    should = record { low = omega arith; narrow = refl };
    must_not = record { low = omega arith; narrow = refl };
  }

parsed-bounds :
    (F : Type 0) (parser : QueryParser) (tokens : List Text)
    → (nesting {F = F} (parse_boolean_query parser tokens) ≤ 1)
      × (widest {F = F} (parse_boolean_query parser tokens) ≡ words tokens)
unfolding parse_boolean_query
parsed-bounds F parser tokens =
    let op = parser.default_operator in
    let (low, wide) =
      flat-bounds (boolean_loop parser tokens op false empty_bool)
        (AreFlat-boolean_loop parser tokens op false empty_bool AreFlat-empty_bool) in
    let counted = clauses-boolean_loop parser tokens op false (empty_bool {F = F}) in
    (low, wide ∙ counted ∙ (unfold empty_bool in omega arith))

-- A query that is parsed from words joined by AND, OR and NOT passes the validation if it has no more
-- words, operators left out, than a Boolean query may have clauses, and a depth of one is allowed;
-- with more words it is an `InvalidInput` error.
pub validate-parse_boolean_query :
    (F : Type 0) (config : ValidationConfig) (parser : QueryParser) (tokens : List Text)
    → 1 ≤ config.max_query_depth
    → validate {F = F} config (parse_boolean_query parser tokens)
      ≡ (if leb (words tokens) config.max_bool_clauses then ok tt else err invalid_input)
validate-parse_boolean_query F config parser tokens deep =
    let (low, wide) = parsed-bounds F parser tokens in
    validate-limits config (parse_boolean_query parser tokens)
    ∙ if_cong config.max_bool_clauses (le_leb (omega arith)) wide
  where
    le_leb : {a b : ℕ} → a ≤ b → leb a b ≡ true
    le_leb h = ground arith

    if_cong :
        {a : Bool} {n w : ℕ} (m : ℕ)
        → a ≡ true
        → n ≡ w
        → (if a && leb n m then ok tt else err invalid_input)
          ≡ (if leb w m then ok (tt {0}) else err invalid_input)
    if_cong m ha hn = rw (ha, hn) refl
