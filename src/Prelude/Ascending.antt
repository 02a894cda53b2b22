-- ===== src/Prelude/Ascending.antt =====
-- Strictly ascending lists of numbers, the Boolean membership test, and how skipping a prefix acts on
-- them.
use drusdenx.Prelude.Tests.{◌==◌}
use drusdenx.Prelude.Lists.{length, get_or, take, drop, any, keep, All, In}
use Prim.Native.Nat.{ℕ, zero, suc, ◌≤◌, ◌<◌}
use mathlib.Core.Path.{◌≡◌, refl}
use mathlib.Core.Logic.{◌↔◌, inl, inr}
use mathlib.Core.Bool.{Bool, true, false}
use mathlib.Core.List.{List, [], ◌∷◌}
use native.Mathlib.Omega.{arith}

abbrev pub Ascending : List ℕ → Type 0
Ascending [] = Unit
Ascending (x ∷ xs) = All (λ y. x < y) xs × Ascending xs

-- `slice::contains`.
abbrev pub contains : List ℕ → ℕ → Bool
contains xs v = any (λ y. y == v) xs

pub contains_iff : (xs : List ℕ) (v : ℕ) → (contains xs v ≡ true) ↔ In v xs
contains_iff xs v = (to xs, from xs)
  where
    to : (xs : List ℕ) → contains xs v ≡ true → In v xs
    to [] h = cc
    to (x ∷ xs) h = ground (arith, to xs)

    from : (xs : List ℕ) → In v xs → contains xs v ≡ true
    from [] m = elim m [ ]
    from (x ∷ xs) (inl e) = ground arith
    from (x ∷ xs) (inr m) = ground (arith, from xs m)

pub All-map {κ μ} :
    {P : ℕ → Type κ} {Q : ℕ → Type μ} (xs : List ℕ) → ((x : ℕ) → P x → Q x) → All P xs → All Q xs
All-map [] f h = tt
All-map (x ∷ xs) f h = (f x h.0, All-map xs f h.1)

-- Everything in an ascending list is at least its head.
pub above_head : (b v : ℕ) (bs : List ℕ) → Ascending (b ∷ bs) → v ≤ b → All (λ y. v ≤ y) (b ∷ bs)
above_head b v bs h le = (le, All-map bs (λ y p. omega arith) h.0)

pub contains_above : (v : ℕ) (xs : List ℕ) → All (λ y. v < y) xs → contains xs v ≡ false
contains_above v [] h = refl
contains_above v (x ∷ xs) h = ground (arith, contains_above v xs h.1)

-- Values below `v` do not matter for whether `v` is there.
pub contains-drop :
    (n v : ℕ) (xs : List ℕ) → All (λ y. y < v) (take n xs) → contains (drop n xs) v ≡ contains xs v
contains-drop zero v xs h = refl
contains-drop (suc n) v [] h = refl
contains-drop (suc n) v (x ∷ xs) h = ground (arith, contains-drop n v xs h.1)

pub keep-drop :
    (n : ℕ) (p : ℕ → Bool) (xs : List ℕ)
    → All (λ x. p x ≡ false) (take n xs)
    → keep p (drop n xs) ≡ keep p xs
keep-drop zero p xs h = refl
keep-drop (suc n) p [] h = refl
keep-drop (suc n) p (x ∷ xs) h = ground (arith, keep-drop n p xs h.1)

pub keep_ext : (p q : ℕ → Bool) (xs : List ℕ) → All (λ x. p x ≡ q x) xs → keep p xs ≡ keep q xs
keep_ext p q [] h = refl
keep_ext p q (x ∷ xs) h = ground (arith, keep_ext p q xs h.1)

-- In an ascending list what stands up to index `n` is at most the element there.
pub take_below :
    (n v : ℕ) (xs : List ℕ)
    → Ascending xs
    → n < length xs
    → get_or xs n 0 < v
    → All (λ y. y < v) (take (suc n) xs)
take_below n v [] a h lt = absurd (omega arith)
take_below zero v (x ∷ xs) a h lt = (lt, tt)
take_below (suc n) v (x ∷ xs) a h lt =
    let rest = take_below n v xs a.1 (omega arith) lt in
    (below_first xs n a.0 (omega arith) lt, rest)
  where
    below_first :
        (xs : List ℕ) (n : ℕ) → All (λ y. x < y) xs → n < length xs → get_or xs n 0 < v → x < v
    below_first [] n h hn hv = absurd (omega arith)
    below_first (y ∷ ys) zero h hn hv = omega arith
    below_first (y ∷ ys) (suc n) h hn hv = below_first ys n h.1 (omega arith) hv

pub All-drop {κ} : (P : ℕ → Type κ) (n : ℕ) (xs : List ℕ) → All P xs → All P (drop n xs)
All-drop P zero xs h = h
All-drop P (suc n) [] h = h
All-drop P (suc n) (x ∷ xs) h = All-drop P n xs h.1

pub Ascending-drop : (n : ℕ) (xs : List ℕ) → Ascending xs → Ascending (drop n xs)
Ascending-drop zero xs h = h
Ascending-drop (suc n) [] h = h
Ascending-drop (suc n) (x ∷ xs) h = Ascending-drop n xs h.1

pub All-keep {κ} : (P : ℕ → Type κ) (p : ℕ → Bool) (xs : List ℕ) → All P xs → All P (keep p xs)
All-keep P p [] h = tt
All-keep P p (x ∷ xs) h = ground (arith, All-keep P p xs h.1)

pub Ascending-keep : (p : ℕ → Bool) (xs : List ℕ) → Ascending xs → Ascending (keep p xs)
Ascending-keep p [] h = tt
Ascending-keep p (x ∷ xs) h =
    ground (arith, Ascending-keep p xs h.1, All-keep (λ y. x < y) p xs h.0)

pub In-keep_iff : (p : ℕ → Bool) (v : ℕ) (xs : List ℕ) → In v (keep p xs) ↔ (In v xs × (p v ≡ true))
In-keep_iff p v xs = (to xs, λ m. from xs m.0 m.1)
  where
    to : (xs : List ℕ) → In v (keep p xs) → In v xs × (p v ≡ true)
    to [] m = elim m [ ]
    to (x ∷ xs) m = grind (arith, to xs)

    from : (xs : List ℕ) → In v xs → p v ≡ true → In v (keep p xs)
    from [] m h = elim m [ ]
    from (x ∷ xs) m h = grind (arith, from xs)
