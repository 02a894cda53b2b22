-- ===== src/Query/Parser/Tests.antt =====
-- Runs of `parse_boolean_query` of src/query/parser.rs, and its theorem at a concrete input.
use drusdenx.Prelude.{ℕ, ◌≡◌, refl, Bool, [], ◌∷◌, none}
use drusdenx.Query.Ast.{
  Query, term_query, bool_query, nil, cons, with_must, with_should, with_must_not, push, empty_bool,
}
use drusdenx.Query.Parser.{default_parser, parse_boolean_query, and_text, not_text, content_text}

abbrev word : ℕ → Query Bool
word n = term_query (record { field = content_text; value = n ∷ []; boost = none })

-- The first word of "a AND b" is a should clause, since the operator comes after it.
and_runs :
    parse_boolean_query default_parser ((97 ∷ []) ∷ and_text ∷ (98 ∷ []) ∷ [])
    ≡ bool_query (cons (word 98) nil) (cons (word 97) nil) nil nil none none
unfolding parse_boolean_query default_parser with_must with_should with_must_not push empty_bool
and_runs = refl

not_runs :
    parse_boolean_query default_parser ((97 ∷ []) ∷ not_text ∷ (98 ∷ []) ∷ [])
    ≡ bool_query nil (cons (word 97) nil) (cons (word 98) nil) nil none none
unfolding parse_boolean_query default_parser with_must with_should with_must_not push empty_bool
not_runs = refl
