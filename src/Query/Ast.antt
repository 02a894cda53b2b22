-- ===== src/Query/Ast.antt =====
-- src/query/ast.rs and src/core/types.rs: the values of fields and the abstract syntax of queries. A
-- text is the list of its code points. `F` is the type of the floating-point numbers; a date stands
-- for its time stamp.
use drusdenx.Prelude.{ℕ, ◌+◌, List, Bool, Option, none}

abbrev pub Text : Type 0
Text = List ℕ

pub data FieldValue (F : Type 0) : Type 0 where
  text_value : Text → FieldValue F
  number : F → FieldValue F
  date : ℕ → FieldValue F
  boolean : Bool → FieldValue F

pub record TermQuery (F : Type 0) : Type 0 where
  pub field : Text
  pub value : Text
  pub boost : Option F

pub record PhraseQuery (F : Type 0) : Type 0 where
  pub field : Text
  pub phrase : List Text
  pub slop : ℕ
  pub boost : Option F

pub record RangeQuery (F : Type 0) : Type 0 where
  pub field : Text
  pub gt : Option (FieldValue F)
  pub gte : Option (FieldValue F)
  pub lt : Option (FieldValue F)
  pub lte : Option (FieldValue F)
  pub boost : Option F

pub record PrefixQuery (F : Type 0) : Type 0 where
  pub field : Text
  pub prefix : Text
  pub boost : Option F

pub record WildcardQuery (F : Type 0) : Type 0 where
  pub field : Text
  pub pattern_text : Text
  pub boost : Option F

pub record FuzzyQuery (F : Type 0) : Type 0 where
  pub field : Text
  pub term : Text
  pub max_edits : Option ℕ
  pub prefix_length : Option ℕ
  pub boost : Option F

-- `bool` has the fields of `BoolQuery`, in their order: must, should, must_not, filter,
-- minimum_should_match and boost.
mutual
  pub data Query (F : Type 0) : Type 0 where
    term_query : TermQuery F → Query F
    phrase_query : PhraseQuery F → Query F
    bool_query : Queries F → Queries F → Queries F → Queries F → Option ℕ → Option F → Query F
    range_query : RangeQuery F → Query F
    prefix_query : PrefixQuery F → Query F
    wildcard_query : WildcardQuery F → Query F
    fuzzy_query : FuzzyQuery F → Query F
    match_all : Query F

  pub data Queries (F : Type 0) : Type 0 where
    nil : Queries F
    cons : Query F → Queries F → Queries F

pub record BoolQuery (F : Type 0) : Type 0 where
  pub must : Queries F
  pub should : Queries F
  pub must_not : Queries F
  pub filter : Queries F
  pub minimum_should_match : Option ℕ
  pub boost : Option F

module _ {F : Type 0} where
  -- `Vec::push`.
  unfoldable pub push : Queries F → Query F → Queries F
  push nil q = cons q nil
  push (cons p qs) q = cons p (push qs q)

  abbrev pub count : Queries F → ℕ
  count nil = 0
  count (cons q qs) = 1 + count qs

  unfoldable pub empty_bool : BoolQuery F
  empty_bool = record {
    must = nil;
    should = nil;
    must_not = nil;
    filter = nil;
    minimum_should_match = none;
    boost = none;
  }

  unfoldable pub with_must : BoolQuery F → Query F → BoolQuery F
  with_must b q = record b { must = push b.must q }

  unfoldable pub with_should : BoolQuery F → Query F → BoolQuery F
  with_should b q = record b { should = push b.should q }

  unfoldable pub with_must_not : BoolQuery F → Query F → BoolQuery F
  with_must_not b q = record b { must_not = push b.must_not q }

  unfoldable pub with_filter : BoolQuery F → Query F → BoolQuery F
  with_filter b q = record b { filter = push b.filter q }

  -- `Query::Bool`.
  abbrev pub to_query : BoolQuery F → Query F
  to_query b = bool_query b.must b.should b.must_not b.filter b.minimum_should_match b.boost
