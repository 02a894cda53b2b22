-- ===== src/Query/Matcher/Phrase.antt =====
-- The position tests of phrase queries (src/query/matcher.rs).
use drusdenx.Prelude.{
  ℕ, zero, suc, ◌+◌, ◌≤◌, ◌≡◌, ◌↔◌, refl, sym, ◌∙◌, ap, inl, inr, List, [], ◌∷◌, arith, In,
  get_elem?, Bool, true, false, ◌&&◌, ◌==◌, leb, any, none, some, Bool-cases, Option-cases, ==_iff,
}
use drusdenx.Query.Matcher.{
  wrap, adjacent_from, check_adjacent_positions, find_between, proximity_from,
  check_proximity_positions,
}

any_of :
    {A : Type 0} (p : A → Bool) (xs : List A) → any p xs ≡ true → (x : A) × In x xs × (p x ≡ true)
any_of p [] h = absurd (cc)
any_of p (x ∷ xs) h = elim (Bool-cases (p x)) [
  | inl e ↦ (x, inl refl, e)
  | inr ne ↦ let (y, m, e) = any_of p xs (rw ne at h) in (y, inr m, e)
]

any-In : {A : Type 0} (p : A → Bool) (x : A) (xs : List A) → In x xs → p x ≡ true → any p xs ≡ true
any-In p x [] m e = elim m [ ]
any-In p x (y ∷ xs) (inl same) e = rw (ap p (sym same), e) refl
any-In p x (y ∷ xs) (inr m) e = elim (Bool-cases (p y)) [
  | inl e' ↦ rw e' refl
  | inr ne ↦ rw ne (any-In p x xs m e)
]

-- The i-th list has the position i + 1 places behind the start.
abbrev pub Behind : ℕ → List (List ℕ) → Type 0
Behind start lists =
    (i : ℕ) (positions : List ℕ)
    → get_elem? lists i ≡ some positions
    → In (wrap (start + i + 1)) positions

wrap-step : (c i : ℕ) → wrap (wrap (c + 1) + i + 1) ≡ wrap (c + suc i + 1)
unfolding wrap
wrap-step c i = omega arith

wrap_first : (c : ℕ) → wrap (c + 0 + 1) ≡ wrap (c + 1)
unfolding wrap
wrap_first c = omega arith

adjacent_from_iff :
    (c : ℕ) (lists : List (List ℕ)) → (adjacent_from c lists ≡ true) ↔ Behind c lists
unfolding adjacent_from
adjacent_from_iff c lists = (forth c lists, back c lists)
  where
    forth : (c : ℕ) (lists : List (List ℕ)) → adjacent_from c lists ≡ true → Behind c lists
    forth c [] h i ps e = absurd (cc)
    forth c (ps ∷ rest) h zero ps' e =
        let (p, m, same) = any_of (λ p. p == wrap (c + 1)) ps (ground arith) in
        let at_p : wrap (c + 0 + 1) ≡ p = wrap_first c ∙ sym ((==_iff p _).0 same) in
        let list : ps' ≡ ps = cc in rw (list, at_p) m
    forth c (ps ∷ rest) h (suc i) ps' e =
        rw (sym (wrap-step c i)) (forth (wrap (c + 1)) rest (ground arith) i ps' e)

    back : (c : ℕ) (lists : List (List ℕ)) → Behind c lists → adjacent_from c lists ≡ true
    back c [] h = refl
    back c (ps ∷ rest) h =
        rw
          (
            any-In (λ p. p == wrap (c + 1)) (wrap (c + 1)) ps
                (rw (sym (wrap_first c)) (h 0 ps refl)) ((==_iff _ _).1 refl),
            back (wrap (c + 1)) rest (λ i ps' e. rw (wrap-step c i) (h (suc i) ps' e)),
          )
          refl

-- The test for an exact phrase succeeds exactly when some position of the first term is a start from
-- which every later term stands at its own distance, positions counted with 32 bits.
pub check_adjacent_positions_iff :
    (starts : List ℕ) (lists : List (List ℕ))
    → (check_adjacent_positions (starts ∷ lists) ≡ true)
      ↔ ((start : ℕ) × In start starts × Behind start lists)
unfolding check_adjacent_positions
check_adjacent_positions_iff starts lists = (
  λ h.
      let (s, m, e) = any_of (λ start. adjacent_from start lists) starts h in
      (s, m, (adjacent_from_iff s lists).0 e),
  λ (s, m, b).
      any-In (λ start. adjacent_from start lists) s starts m ((adjacent_from_iff s lists).1 b),
)

-- Each list has a position in the window behind the one chosen before.
abbrev pub Near : ℕ → ℕ → List (List ℕ) → Type 0
Near slop c [] = Unit
Near slop c (positions ∷ rest) =
    (p : ℕ) × In p positions × (wrap (c + 1) ≤ p) × (p ≤ wrap (c + slop + 1)) × Near slop p rest

find_between-some :
    (low high p : ℕ) (positions : List ℕ)
    → find_between low high positions ≡ some p
    → In p positions × (low ≤ p) × (p ≤ high)
unfolding find_between
find_between-some low high p [] e = absurd (cc)
find_between-some low high p (q ∷ positions) e = elim (Bool-cases (leb low q && leb q high)) [
  | inl fits ↦
      let same : some q ≡ some p = rw fits at e in
      let q_p : q ≡ p = cc in (inl (sym q_p), ground arith, ground arith)
  | inr ne ↦ let (m, l, h) = find_between-some low high p positions (rw ne at e) in (inr m, l, h)
]

find_between-none :
    (low high p : ℕ) (positions : List ℕ)
    → find_between low high positions ≡ none
    → In p positions
    → low ≤ p
    → p ≤ high
    → ⊥
unfolding find_between
find_between-none low high p [] e m l h = elim m [ ]
find_between-none low high p (q ∷ positions) e (inl same) l h = ground arith
find_between-none low high p (q ∷ positions) e (inr m) l h =
    find_between-none low high p positions (ground arith) m l h

impossible : false ≡ true → ⊥
impossible e = cc

proximity_from-Near :
    (slop c : ℕ) (lists : List (List ℕ)) → proximity_from slop c lists ≡ true → Near slop c lists
unfolding proximity_from
proximity_from-Near slop c [] h = tt
proximity_from-Near slop c (ps ∷ rest) h =
    elim (Option-cases (find_between (wrap (c + 1)) (wrap (c + slop + 1)) ps)) [
      | inl n ↦ absurd (impossible (rw (n, proximity_from) at h))
      | inr (p, e) ↦
          let (m, low, high) = find_between-some _ _ p ps e in
          (p, m, low, high, proximity_from-Near slop p rest (rw (e, proximity_from) at h))
    ]

-- The test for a phrase with slop succeeds only if there are positions, one of each term, of which
-- each stands in the window of the slop behind the one before.
pub check_proximity_positions-Near :
    (starts : List ℕ) (lists : List (List ℕ)) (slop : ℕ)
    → check_proximity_positions (starts ∷ lists) slop ≡ true
    → (start : ℕ) × In start starts × Near slop start lists
unfolding check_proximity_positions
check_proximity_positions-Near starts lists slop h =
    let (s, m, e) = any_of (λ start. proximity_from slop start lists) starts h in
    (s, m, proximity_from-Near slop s lists e)

-- For a phrase of two terms the test with slop succeeds whenever some position of the second term
-- stands in the window of the slop behind some position of the first.
pub check_proximity_positions_pair :
    (starts ends : List ℕ) (slop start : ℕ)
    → In start starts
    → Near slop start (ends ∷ [])
    → check_proximity_positions (starts ∷ ends ∷ []) slop ≡ true
unfolding check_proximity_positions
check_proximity_positions_pair starts ends slop start m (p, at_p, low, high, _) =
    any-In (λ s. proximity_from slop s (ends ∷ [])) start starts m
      (elim (Option-cases (find_between (wrap (start + 1)) (wrap (start + slop + 1)) ends)) [
        | inl n ↦ absurd (find_between-none _ _ p ends n at_p low high)
        | inr (q, e) ↦ unfold proximity_from in rw (e, proximity_from) refl
      ])
