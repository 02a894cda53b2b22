-- ===== src/Search/Fuzzy/Rows.antt =====
-- The rows of the matrix of `levenshtein_distance` (src/core/utils.rs) hold distances of prefixes.
use drusdenx.Prelude.{ℕ, ◌+◌, ◌≤◌, min, ◌≡◌, refl, ap, ◌∙◌, List, [], ◌∷◌, arith, length}
use drusdenx.Search.Fuzzy.{
  substitution_cost, first_row, next_row, fill_rows, last_or, levenshtein_distance,
}
use drusdenx.Search.Fuzzy.Edits.{
  dist, rev_onto, dist-rev, Edits, price, dist-le-price, dist_attained,
}

-- The distances of a first text, backwards, to the prefixes of a second one that go past `rb`.
pub row_tail : List ℕ → List ℕ → List ℕ → List ℕ
row_tail ra rb [] = []
row_tail ra rb (y ∷ ys) = dist ra (y ∷ rb) ∷ row_tail ra (y ∷ rb) ys

abbrev pub row : List ℕ → List ℕ → List ℕ → List ℕ
row ra rb rest = dist ra rb ∷ row_tail ra rb rest

pub first_row-row : (j : ℕ) (rb s2 : List ℕ) → j ≡ length rb → first_row j s2 ≡ row [] rb s2
unfolding first_row row_tail dist
first_row-row j rb [] e = ap (λ n. n ∷ []) e
first_row-row j rb (y ∷ s2) e = rw (first_row-row (j + 1) (y ∷ rb) s2 (omega arith), e) refl

next_row-row :
    (x left : ℕ) (ra rb s2 : List ℕ)
    → left ≡ dist (x ∷ ra) rb
    → next_row x (row ra rb s2) left s2 ≡ row (x ∷ ra) rb s2
unfolding next_row row_tail
next_row-row x left ra rb [] e = ap (λ n. n ∷ []) e
next_row-row x left ra rb (y ∷ s2) e =
    let cell = min (min (dist ra (y ∷ rb) + 1) (left + 1)) (dist ra rb + substitution_cost x y) in
    rw (next_row-row x cell ra (y ∷ rb) s2 (unfold dist in rw e refl), e) refl

fill_rows-row :
    (i : ℕ) (ra s1 s2 : List ℕ)
    → i ≡ length ra
    → fill_rows i (row ra [] s2) s1 s2 ≡ row (rev_onto s1 ra) [] s2
unfolding fill_rows
fill_rows-row i ra [] s2 e = refl
fill_rows-row i ra (x ∷ s1) s2 e =
    rw (next_row-row x (i + 1) ra [] s2 (unfold dist in omega arith))
      (fill_rows-row (i + 1) (x ∷ ra) s1 s2 (omega arith))

pub last_or-row : (d : ℕ) (ra rb s2 : List ℕ) → last_or d (row ra rb s2) ≡ dist ra (rev_onto s2 rb)
unfolding last_or row_tail
last_or-row d ra rb [] = refl
last_or-row d ra rb (y ∷ s2) = last_or-row (dist ra rb) ra (y ∷ rb) s2

pub levenshtein_distance-dist : (s1 s2 : List ℕ) → levenshtein_distance s1 s2 ≡ dist s1 s2
unfolding levenshtein_distance
levenshtein_distance-dist s1 s2 =
    rw (first_row-row 0 [] s2 refl, fill_rows-row 0 [] s1 s2 refl)
      (last_or-row 0 (rev_onto s1 []) [] s2 ∙ dist-rev s1 s2)

-- `levenshtein_distance` is the least price of a script of single edits, each of which removes,
-- inserts or replaces one character: some script has that price, and none has a smaller one.
pub levenshtein_distance_least :
    (s1 s2 : List ℕ)
    → ((s : Edits s1 s2) × (price s ≡ levenshtein_distance s1 s2))
      × ((s : Edits s1 s2) → levenshtein_distance s1 s2 ≤ price s)
levenshtein_distance_least s1 s2 =
    rw (levenshtein_distance-dist s1 s2) (dist_attained s1 s2, λ s. dist-le-price s)
