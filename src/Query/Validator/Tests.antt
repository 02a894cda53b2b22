-- ===== src/Query/Validator/Tests.antt =====
-- Runs of `QueryValidator` of src/query/types.rs, and its theorem at a concrete input.
use drusdenx.Prelude.{◌≡◌, Bool, none, ok, err, invalid_input, if◌then◌else◌, leb, ◌&&◌, refl}
use drusdenx.Query.Ast.{Query, bool_query, match_all, nil, cons}
use drusdenx.Query.Validator.{validate, ValidationConfig}
use drusdenx.Query.Validator.Limits.{validate-limits, nesting, widest}

abbrev small_config : ValidationConfig
small_config = record {
  max_bool_clauses = 1;
  max_query_depth = 1;
  max_wildcard_terms = 10;
  allow_leading_wildcard = Bool.false;
}

abbrev narrow_query : Query Bool
narrow_query = bool_query (cons match_all nil) nil nil (cons match_all nil) none none

abbrev wide_query : Query Bool
wide_query = bool_query (cons match_all nil) (cons match_all nil) nil nil none none

narrow_runs : validate small_config narrow_query ≡ ok tt
unfolding validate
narrow_runs = refl

wide_runs : validate small_config wide_query ≡ err invalid_input
unfolding validate
wide_runs = refl

validate-limits_example :
    validate small_config wide_query
    ≡ (if leb (nesting wide_query) 1 && leb (widest wide_query) 1 then ok tt else err invalid_input)
validate-limits_example = validate-limits small_config wide_query
