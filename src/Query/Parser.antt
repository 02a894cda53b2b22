-- ===== src/Query/Parser.antt =====
-- `parse_boolean_query` of src/query/parser.rs, and the words that it gets from `split_whitespace`.
mod Clauses
mod Tests
use drusdenx.Prelude.{
  ℕ, ◌+◌, List, [], ◌∷◌, Bool, true, false, ◌&&◌, ◌==◌, if◌then◌else◌, Option, none,
}
use drusdenx.Query.Ast.{
  Text, Query, term_query, TermQuery, BoolQuery, empty_bool, with_must, with_should, with_must_not,
  to_query,
}

pub data BooleanOperator : Type 0 where
  and_op or_op : BooleanOperator

pub record QueryParser : Type 0 where
  pub default_field : Text
  pub default_operator : BooleanOperator
  pub allow_wildcards : Bool
  pub fuzzy_enabled : Bool

pub same_text : Text → Text → Bool
same_text [] [] = true
same_text [] (y ∷ ys) = false
same_text (x ∷ xs) [] = false
same_text (x ∷ xs) (y ∷ ys) = x == y && same_text xs ys

-- The code points of "AND", "OR", "NOT" and "content".
abbrev pub and_text : Text
and_text = 65 ∷ 78 ∷ 68 ∷ []

abbrev pub or_text : Text
or_text = 79 ∷ 82 ∷ []

abbrev pub not_text : Text
not_text = 78 ∷ 79 ∷ 84 ∷ []

abbrev pub content_text : Text
content_text = 99 ∷ 111 ∷ 110 ∷ 116 ∷ 101 ∷ 110 ∷ 116 ∷ []

-- `QueryParser::new`.
pub default_parser : QueryParser
default_parser = record {
  default_field = content_text;
  default_operator = or_op;
  allow_wildcards = true;
  fuzzy_enabled = true;
}

module _ {F : Type 0} (parser : QueryParser) where
  pub term_of : Text → Query F
  term_of token = term_query (record { field = parser.default_field; value = token; boost = none })

  -- The last arm of the `match`.
  pub push_term : BooleanOperator → Bool → Text → BoolQuery F → BoolQuery F
  unfolding term_of
  push_term op true token b = with_must_not b (term_of token)
  push_term and_op false token b = with_must b (term_of token)
  push_term or_op false token b = with_should b (term_of token)

  -- The loop over the tokens, with the current operator and `pending_not`.
  pub boolean_loop : List Text → BooleanOperator → Bool → BoolQuery F → BoolQuery F
  unfolding push_term same_text
  boolean_loop [] op pending_not b = b
  boolean_loop (token ∷ tokens) op pending_not b =
      if same_text token and_text
      then boolean_loop tokens and_op pending_not b
      else if same_text token or_text
      then boolean_loop tokens or_op pending_not b
      else if same_text token not_text
      then boolean_loop tokens op true b
      else boolean_loop tokens op false (push_term op pending_not token b)

  pub parse_boolean_query : List Text → Query F
  unfolding boolean_loop
  parse_boolean_query tokens =
      to_query (boolean_loop tokens parser.default_operator false empty_bool)
