-- ===== src/Search/Fuzzy.antt =====
-- src/core/utils.rs and the fallback of src/search/fuzzy.rs: edit distances of texts. A text is the
-- list of its characters for `levenshtein_distance`, and the list of its bytes in UTF-8 for the
-- automaton: its term and candidates are such lists. A row of the matrix is built when its turn comes, from the one before it.
pub mod Edits
pub mod Rows
pub mod Transpositions
mod Tests
use drusdenx.Prelude.{
  ℕ, zero, suc, ◌+◌, min, List, [], ◌∷◌, Option, none, some, Bool, true, false, ◌&&◌, ◌==◌, leb,
  if◌then◌else◌, length,
}

pub substitution_cost : ℕ → ℕ → ℕ
substitution_cost x y = if x == y then 0 else 1

-- `matrix[0][j] = j`, from `j` on.
pub first_row : ℕ → List ℕ → List ℕ
first_row j [] = j ∷ []
first_row j (c ∷ s2) = j ∷ first_row (j + 1) s2

-- The inner loop, over the rest of `s2`: `above` is the row before, from the current column on, and
-- `left` the cell that was written last.
pub next_row : ℕ → List ℕ → ℕ → List ℕ → List ℕ
unfolding substitution_cost
next_row c1 (diagonal ∷ up ∷ above) left (c2 ∷ s2) =
    let cell = min (min (up + 1) (left + 1)) (diagonal + substitution_cost c1 c2) in
    left ∷ next_row c1 (up ∷ above) cell s2
next_row c1 above left s2 = left ∷ []

-- The outer loop, over the rest of `s1`: `i` is the number of its rounds so far.
pub fill_rows : ℕ → List ℕ → List ℕ → List ℕ → List ℕ
unfolding next_row
fill_rows i row [] s2 = row
fill_rows i row (c1 ∷ s1) s2 = fill_rows (i + 1) (next_row c1 row (i + 1) s2) s1 s2

pub last_or : ℕ → List ℕ → ℕ
last_or d [] = d
last_or d (x ∷ xs) = last_or x xs

pub levenshtein_distance : List ℕ → List ℕ → ℕ
unfolding fill_rows first_row last_or
levenshtein_distance s1 s2 = last_or 0 (fill_rows 0 (first_row 0 s2) s1 s2)

-- `levenshtein_automata`'s DFA, which answers with the distance of a candidate, or that it is larger
-- than the one that the DFA was built for.
pub record Dfa : Type 0 where
  pub distance : List ℕ → Option ℕ

pub record FuzzyAutomaton : Type 0 where
  pub term : List ℕ
  pub max_edit_distance : ℕ
  pub transpositions : Bool
  pub dfa : Option Dfa

pub new : List ℕ → ℕ → FuzzyAutomaton
new term max_edit_distance = record {
  term = term;
  max_edit_distance = max_edit_distance;
  transpositions = true;
  dfa = none;
}

-- `a[i - 1] == b[j - 2] && a[i - 2] == b[j - 1]`, where both indices are in range.
pub is_transposed : Option ℕ → ℕ → Option ℕ → ℕ → Bool
is_transposed (some a') a (some b') b = a == b' && a' == b
is_transposed _ a _ b = false

-- The inner loop of `edit_distance`: `a'` and `b'` are the bytes before `a` and `b`, if there are any.
pub transposing_row : Bool → Option ℕ → ℕ → List ℕ → ℕ → Option ℕ → List ℕ → List ℕ
unfolding substitution_cost is_transposed
transposing_row on a' a (diagonal ∷ up ∷ above) left b' (b ∷ bs) =
    let cost = substitution_cost a b in
    let cell = min (min (up + 1) (left + 1)) (diagonal + cost) in
    let cell' : ℕ = if on && is_transposed a' a b' b then min cell (diagonal + cost) else cell in
    left ∷ transposing_row on a' a (up ∷ above) cell' (some b) bs
transposing_row on a' a above left b' bs = left ∷ []

pub transposing_rows : Bool → ℕ → Option ℕ → List ℕ → List ℕ → List ℕ → List ℕ
unfolding transposing_row
transposing_rows on i a' row [] b = row
transposing_rows on i a' row (x ∷ a) b =
    transposing_rows on (i + 1) (some x) (transposing_row on a' x row (i + 1) none b) a b

-- `edit_distance`, with the early returns for empty texts.
pub edit_distance_of : Bool → List ℕ → List ℕ → ℕ
unfolding transposing_rows first_row last_or
edit_distance_of on [] b = length b
edit_distance_of on (x ∷ a) [] = length (x ∷ a)
edit_distance_of on (x ∷ a) (y ∷ b) =
    last_or 0 (transposing_rows on 0 none (first_row 0 (y ∷ b)) (x ∷ a) (y ∷ b))

pub edit_distance : FuzzyAutomaton → List ℕ → ℕ
unfolding edit_distance_of
edit_distance f other = edit_distance_of f.transpositions f.term other

pub matches : FuzzyAutomaton → List ℕ → Bool
unfolding edit_distance
matches f candidate = elim f.dfa [
  | some dfa ↦ elim (dfa.distance candidate) [ some d ↦ leb d f.max_edit_distance | none ↦ false ]
  | none ↦ leb (edit_distance f candidate) f.max_edit_distance
]
