-- ===== src/Search/Fuzzy/Edits.antt =====
-- What an edit distance is: the least price of a script that turns one text into another.
use mathlib.Core.List.{append-nil}
use drusdenx.Prelude.{
  ℕ, suc, ◌+◌, ◌≤◌, min, ◌≡◌, refl, List, [], ◌∷◌, ◌++◌, arith, length, inl, inr, ◌⊎◌,
}
use drusdenx.Search.Fuzzy.{substitution_cost}

-- The recursive distance of the specification.
unfoldable pub dist : List ℕ → List ℕ → ℕ
dist [] ys = length ys
dist (x ∷ xs) [] = suc (length xs)
dist (x ∷ xs) (y ∷ ys) =
    min (min (dist xs (y ∷ ys) + 1) (dist (x ∷ xs) ys + 1)) (dist xs ys + substitution_cost x y)

-- Scripts of single edits from the first text to the second.
pub data Edits : List ℕ → List ℕ → Type 0 where
  done : Edits [] []
  remove : (x : ℕ) {xs ys : List ℕ} → Edits xs ys → Edits (x ∷ xs) ys
  insert : (y : ℕ) {xs ys : List ℕ} → Edits xs ys → Edits xs (y ∷ ys)
  replace : (x y : ℕ) {xs ys : List ℕ} → Edits xs ys → Edits (x ∷ xs) (y ∷ ys)

pub price : {xs ys : List ℕ} → Edits xs ys → ℕ
price done = 0
price (remove x s) = price s + 1
price (insert y s) = price s + 1
price (replace x y s) = price s + substitution_cost x y

pub dist-nil : (xs : List ℕ) → dist xs [] ≡ length xs
unfolding dist
dist-nil [] = refl
dist-nil (x ∷ xs) = refl

-- No script is cheaper than the distance.
pub dist-le-price : {xs ys : List ℕ} (s : Edits xs ys) → dist xs ys ≤ price s
unfolding dist price
dist-le-price done = omega arith
dist-le-price (remove x {xs} {ys = []} s) = omega (arith, dist-le-price s, dist-nil xs)
dist-le-price (remove x {xs} {ys = y ∷ ys} s) = omega (arith, dist-le-price s)
dist-le-price (insert y {xs = []} s) = omega (arith, dist-le-price s)
dist-le-price (insert y {xs = x ∷ xs} s) = omega (arith, dist-le-price s)
dist-le-price (replace x y s) = omega (arith, dist-le-price s)

abbrev Priced : List ℕ → List ℕ → ℕ → Type 0
Priced xs ys c = (s : Edits xs ys) × (price s ≡ c)

min_cases : (a b : ℕ) → (min a b ≡ a) ⊎ (min a b ≡ b)
min_cases a b = grind arith

Priced-min : (xs ys : List ℕ) (c d : ℕ) → Priced xs ys c → Priced xs ys d → Priced xs ys (min c d)
Priced-min xs ys c d s t = elim (min_cases c d) [ inl e ↦ rw e s | inr e ↦ rw e t ]

-- Some script costs what the distance says.
pub dist_attained : (xs ys : List ℕ) → (s : Edits xs ys) × (price s ≡ dist xs ys)
unfolding dist price
dist_attained [] [] = (done, refl)
dist_attained [] (y ∷ ys) = let (s, e) = dist_attained [] ys in (insert y s, omega arith)
dist_attained (x ∷ xs) [] =
    let (s, e) = dist_attained xs [] in (remove x s, omega (arith, dist-nil xs))
dist_attained (x ∷ xs) (y ∷ ys) =
    let (r, er) = dist_attained xs (y ∷ ys) in
    let (s, es) = dist_attained (x ∷ xs) ys in
    let (t, et) = dist_attained xs ys in
    Priced-min (x ∷ xs) (y ∷ ys) _ _
      (Priced-min (x ∷ xs) (y ∷ ys) _ _ (remove x r, omega arith) (insert y s, omega arith))
      (replace x y t, omega arith)

-- The list backwards, in front of another.
abbrev pub rev_onto : List ℕ → List ℕ → List ℕ
rev_onto [] acc = acc
rev_onto (x ∷ xs) acc = rev_onto xs (x ∷ acc)

rev_onto_twice :
    (xs acc rest : List ℕ) → rev_onto (rev_onto xs acc) rest ≡ rev_onto acc (xs ++ rest)
rev_onto_twice [] acc rest = refl
rev_onto_twice (x ∷ xs) acc rest = rev_onto_twice xs (x ∷ acc) rest

-- A script backwards, in front of another.
rev_edits :
    {xs ys xs' ys' : List ℕ} (s : Edits xs ys) (t : Edits xs' ys')
    → (u : Edits (rev_onto xs xs') (rev_onto ys ys')) × (price u ≡ price s + price t)
unfolding price
rev_edits done t = (t, omega arith)
rev_edits (remove x s) t = let (u, e) = rev_edits s (remove x t) in (u, omega arith)
rev_edits (insert y s) t = let (u, e) = rev_edits s (insert y t) in (u, omega arith)
rev_edits (replace x y s) t = let (u, e) = rev_edits s (replace x y t) in (u, omega arith)

dist-rev-le : (xs ys : List ℕ) → dist (rev_onto xs []) (rev_onto ys []) ≤ dist xs ys
unfolding price
dist-rev-le xs ys =
    let (s, e) = dist_attained xs ys in
    let (u, f) = rev_edits s done in omega (arith, dist-le-price u)

-- The distance is the same from the other end.
pub dist-rev : (xs ys : List ℕ) → dist (rev_onto xs []) (rev_onto ys []) ≡ dist xs ys
dist-rev xs ys =
    let back : dist (rev_onto (rev_onto xs []) []) (rev_onto (rev_onto ys []) [])
        ≤ dist (rev_onto xs []) (rev_onto ys []) =
      dist-rev-le (rev_onto xs []) (rev_onto ys []) in
    let back' =
      rw (rev_onto_twice xs [] [], rev_onto_twice ys [] [], append-nil xs, append-nil ys) at back in
    omega (arith, dist-rev-le xs ys)
