-- ===== src/Query/Validator.antt =====
-- `QueryValidator` of src/query/types.rs: the depth pass, and the visitor that counts clauses. The
-- statistics that the validator holds are not read.
pub mod Limits
mod Tests
use drusdenx.Prelude.{
  ℕ, suc, ◌+◌, Bool, true, false, ltb, if◌then◌else◌, Result, ok, err, invalid_input, ◌>>◌,
}
use drusdenx.Query.Ast.{
  Query, Queries, term_query, phrase_query, bool_query, range_query, prefix_query, wildcard_query,
  fuzzy_query, match_all, nil, cons, count,
}

pub record ValidationConfig : Type 0 where
  pub max_bool_clauses : ℕ
  pub max_query_depth : ℕ
  pub max_wildcard_terms : ℕ
  pub allow_leading_wildcard : Bool

unfoldable pub default_config : ValidationConfig
default_config = record {
  max_bool_clauses = 1024;
  max_query_depth = 10;
  max_wildcard_terms = 1000;
  allow_leading_wildcard = false;
}

check_depth : ValidationConfig → ℕ → Result (Unit {0})
check_depth config depth = if ltb config.max_query_depth depth then err invalid_input else ok tt

module _ {F : Type 0} (config : ValidationConfig) where
  mutual
    unfolding check_depth

    pub validate_depth_recursive : Query F → ℕ → Result (Unit {0})
    validate_depth_recursive (bool_query must should must_not filter n b) depth =
        check_depth config depth
        >> validate_depths must (suc depth)
        >> validate_depths should (suc depth)
        >> validate_depths must_not (suc depth)
    validate_depth_recursive (term_query q) depth = check_depth config depth
    validate_depth_recursive (phrase_query q) depth = check_depth config depth
    validate_depth_recursive (range_query q) depth = check_depth config depth
    validate_depth_recursive (prefix_query q) depth = check_depth config depth
    validate_depth_recursive (wildcard_query q) depth = check_depth config depth
    validate_depth_recursive (fuzzy_query q) depth = check_depth config depth
    validate_depth_recursive match_all depth = check_depth config depth

    pub validate_depths : Queries F → ℕ → Result (Unit {0})
    validate_depths nil depth = ok tt
    validate_depths (cons q qs) depth = validate_depth_recursive q depth >> validate_depths qs depth

  -- The visitor methods, with `accept`.
  mutual
    pub visit : Query F → Result (Unit {0})
    visit (bool_query must should must_not filter n b) =
        if ltb config.max_bool_clauses (count must + count should + count must_not)
        then err invalid_input
        else visit_all must >> visit_all should >> visit_all must_not
    visit (term_query q) = ok tt
    visit (phrase_query q) = ok tt
    visit (range_query q) = ok tt
    visit (prefix_query q) = ok tt
    visit (wildcard_query q) = ok tt
    visit (fuzzy_query q) = ok tt
    visit match_all = ok tt

    pub visit_all : Queries F → Result (Unit {0})
    visit_all nil = ok tt
    visit_all (cons q qs) = visit q >> visit_all qs

  pub validate : Query F → Result (Unit {0})
  unfolding validate_depth_recursive visit
  validate q = validate_depth_recursive q 0 >> visit q
