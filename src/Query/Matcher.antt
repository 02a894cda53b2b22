-- ===== src/Query/Matcher.antt =====
-- src/query/matcher.rs: whether a document matches a query. The visitor methods that search the text
-- of a field are the argument `leaf`; the Boolean query and the position tests are written out.
pub mod Boolean
pub mod Phrase
mod Tests
use drusdenx.Prelude.{
  ℕ, ◌+◌, ◌<◌, ◌≤◌, List, [], ◌∷◌, Bool, true, false, not, ◌&&◌, ◌||◌, ◌==◌, leb, ltb,
  if◌then◌else◌, any, Option, none, some, Result, ok, err, panic, ◌>>=◌, ◌%◌, ◌^◌,
}
use drusdenx.Query.Ast.{
  FieldValue, number, Query, Queries, RangeQuery, term_query, phrase_query, bool_query, range_query,
  prefix_query, wildcard_query, fuzzy_query, match_all, nil, cons,
}

module _ {F : Type 0} (leaf : Query F → Result Bool) where
  mutual
    -- `visit_bool` and `visit_match_all`, with `accept`.
    pub matches : Query F → Result Bool
    matches (bool_query must should must_not filter n b) = all_match must >>= λ must_ok.
        if not must_ok
        then ok false
        else any_match must_not >>= λ excluded.
            if excluded
            then ok false
            else should_match should >>= λ should_ok.
                if not should_ok then ok false else all_match filter
    matches match_all = ok true
    matches (term_query q) = leaf (term_query q)
    matches (phrase_query q) = leaf (phrase_query q)
    matches (range_query q) = leaf (range_query q)
    matches (prefix_query q) = leaf (prefix_query q)
    matches (wildcard_query q) = leaf (wildcard_query q)
    matches (fuzzy_query q) = leaf (fuzzy_query q)

    -- A loop that ends at the first clause that does not match.
    pub all_match : Queries F → Result Bool
    all_match nil = ok true
    all_match (cons q qs) = matches q >>= λ m. if not m then ok false else all_match qs

    -- A loop that ends at the first clause that matches.
    pub any_match : Queries F → Result Bool
    any_match nil = ok false
    any_match (cons q qs) = matches q >>= λ m. if m then ok true else any_match qs

    pub should_match : Queries F → Result Bool
    should_match nil = ok true
    should_match (cons q qs) = matches q >>= λ m. if m then ok true else any_match qs

-- Positions have 32 bits.
pub wrap : ℕ → ℕ
wrap n = n % 2 ^ 32

-- `check_adjacent_positions`: the inner loop, and the loop over the starts.
pub adjacent_from : ℕ → List (List ℕ) → Bool
unfolding wrap
adjacent_from current [] = true
adjacent_from current (positions ∷ rest) =
    any (λ p. p == wrap (current + 1)) positions && adjacent_from (wrap (current + 1)) rest

pub check_adjacent_positions : List (List ℕ) → Bool
unfolding adjacent_from
check_adjacent_positions [] = false
check_adjacent_positions (starts ∷ rest) = any (λ start. adjacent_from start rest) starts

-- `check_proximity_positions`.
pub find_between : ℕ → ℕ → List ℕ → Option ℕ
find_between low high [] = none
find_between low high (p ∷ positions) =
    if leb low p && leb p high then some p else find_between low high positions

pub proximity_from : ℕ → ℕ → List (List ℕ) → Bool
unfolding find_between wrap
proximity_from slop current [] = true
proximity_from slop current (positions ∷ rest) =
    elim (find_between (wrap (current + 1)) (wrap (current + slop + 1)) positions) [
      | none ↦ false
      | some next ↦ proximity_from slop next rest
    ]

pub check_proximity_positions : List (List ℕ) → ℕ → Bool
unfolding proximity_from
check_proximity_positions [] slop = false
check_proximity_positions (starts ∷ rest) slop =
    any (λ start. proximity_from slop start rest) starts

-- `number_in_range`, on an order `below a b` for `a < b` and `at_most a b` for `a <= b`.
module _ {F : Type 0} (below at_most : F → F → Bool) where
  passes : Option (FieldValue F) → (F → Bool) → Bool
  passes (some (number limit)) rejects = not (rejects limit)
  passes _ rejects = true

  pub number_in_range : F → RangeQuery F → Bool
  unfolding passes
  number_in_range num q =
      passes q.gt (λ gt. at_most num gt)
      && passes q.gte (λ gte. below num gte)
      && passes q.lt (λ lt. at_most lt num)
      && passes q.lte (λ lte. below lte num)
