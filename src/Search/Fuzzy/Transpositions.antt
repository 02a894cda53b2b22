-- ===== src/Search/Fuzzy/Transpositions.antt =====
-- `edit_distance` and `matches` of src/search/fuzzy.rs, with the test for transpositions.
use drusdenx.Prelude.{
  ℕ, ◌+◌, ◌≤◌, min, ◌≡◌, refl, ap, ◌∙◌, List, [], ◌∷◌, Option, none, some, Bool, true, false, ◌&&◌,
  arith, length, ◌↔◌, leb→le, le→leb, if◌then◌else◌,
}
use drusdenx.Search.Fuzzy.{
  substitution_cost, first_row, next_row, fill_rows, levenshtein_distance, FuzzyAutomaton,
  is_transposed, transposing_row, transposing_rows, edit_distance_of, edit_distance, matches,
}
use drusdenx.Search.Fuzzy.Edits.{dist, dist-nil, Edits, price, dist-le-price, dist_attained}
use drusdenx.Search.Fuzzy.Rows.{levenshtein_distance-dist, levenshtein_distance_least}

min_again : (b : Bool) (m n : ℕ) → (if b then min (min m n) n else min m n) ≡ min m n
min_again true m n = omega arith
min_again false m n = refl

transposing_row-next_row :
    (on : Bool) (a' : Option ℕ) (a : ℕ) (above : List ℕ) (left : ℕ) (b' : Option ℕ) (bs : List ℕ)
    → transposing_row on a' a above left b' bs ≡ next_row a above left bs
unfolding transposing_row next_row
transposing_row-next_row on a' a [] left b' [] = refl
transposing_row-next_row on a' a [] left b' (b ∷ bs) = refl
transposing_row-next_row on a' a (d ∷ []) left b' [] = refl
transposing_row-next_row on a' a (d ∷ []) left b' (b ∷ bs) = refl
transposing_row-next_row on a' a (d ∷ up ∷ above) left b' [] = refl
transposing_row-next_row on a' a (d ∷ up ∷ above) left b' (b ∷ bs) = ap (◌∷◌ left) (
    transposing_row-next_row on a' a (up ∷ above) _ (some b) bs
    ∙ ap (λ c. next_row a (up ∷ above) c bs)
        (min_again (on && is_transposed a' a b' b) (min (up + 1) (left + 1))
          (d + substitution_cost a b)))

transposing_rows-fill_rows :
    (on : Bool) (i : ℕ) (a' : Option ℕ) (row a b : List ℕ)
    → transposing_rows on i a' row a b ≡ fill_rows i row a b
unfolding transposing_rows fill_rows
transposing_rows-fill_rows on i a' row [] b = refl
transposing_rows-fill_rows on i a' row (x ∷ a) b =
    rw (transposing_row-next_row on a' x row (i + 1) none b)
      (transposing_rows-fill_rows on (i + 1) (some x) (next_row x row (i + 1) b) a b)

dist-nil_left : (ys : List ℕ) → dist [] ys ≡ length ys
unfolding dist
dist-nil_left ys = refl

-- Over any two lists of numbers the two loops agree.
edit_distance_of-levenshtein_distance :
    (on : Bool) (a b : List ℕ) → edit_distance_of on a b ≡ levenshtein_distance a b
unfolding edit_distance_of
edit_distance_of-levenshtein_distance on [] b =
    rw (levenshtein_distance-dist [] b, dist-nil_left b) refl
edit_distance_of-levenshtein_distance on (x ∷ a) [] =
    rw (levenshtein_distance-dist (x ∷ a) [], dist-nil (x ∷ a)) refl
edit_distance_of-levenshtein_distance on (x ∷ a) (y ∷ b) =
    rw (transposing_rows-fill_rows on 0 none (first_row 0 (y ∷ b)) (x ∷ a) (y ∷ b))
      (unfold levenshtein_distance in refl)

-- The fallback distance of an automaton is the least price of a script of single edits, each of which
-- inserts, deletes or replaces one byte, from the bytes of its term to those of the candidate, whether
-- transpositions are allowed or not.
pub edit_distance_least :
    (f : FuzzyAutomaton) (other : List ℕ)
    → ((s : Edits f.term other) × (price s ≡ edit_distance f other))
      × ((s : Edits f.term other) → edit_distance f other ≤ price s)
unfolding edit_distance
edit_distance_least f other =
    rw (edit_distance_of-levenshtein_distance f.transpositions f.term other)
      (levenshtein_distance_least f.term other)

-- An automaton whose DFA is not built matches exactly the candidates that a script of single edits
-- makes of its term at a price within its limit.
pub matches_iff :
    (f : FuzzyAutomaton) (candidate : List ℕ)
    → f.dfa ≡ none
    → (matches f candidate ≡ true)
      ↔ ((s : Edits f.term candidate) × (price s ≤ f.max_edit_distance))
unfolding matches
matches_iff f candidate h =
    let same : edit_distance f candidate ≡ dist f.term candidate =
      (unfold edit_distance in
        edit_distance_of-levenshtein_distance f.transpositions f.term candidate)
      ∙ levenshtein_distance-dist f.term candidate in
    let (s, e) = dist_attained f.term candidate in
    rw (h, same)
      (
        λ t. (s, (let le = leb→le _ _ t in omega arith)),
        λ (u, le). le→leb _ _ (omega (arith, dist-le-price u)),
      )
