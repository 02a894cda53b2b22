-- ===== src/Index/Inverted/Maps.antt =====
-- The maps of src/index/inverted.rs: looking up a key, and what grouping tokens by term gives.
use mathlib.Core.List.{append_assoc, append-nil}
use drusdenx.Prelude.{
  ℕ, ◌≡◌, refl, sym, ap, ◌∙◌, List, [], ◌∷◌, ◌++◌, Option, none, some, Bool, true, false,
  if◌then◌else◌, arith, Bool-cases, inl, inr, ==_iff, ==_self,
}
use drusdenx.Index.Inverted.{Term, same_term, get, insert, push_position, Token, group}

pub same_term→≡ : (t u : Term) → same_term t u ≡ true → t ≡ u
same_term→≡ [] [] h = refl
same_term→≡ [] (y ∷ u) h = absurd (cc)
same_term→≡ (x ∷ t) [] h = absurd (cc)
same_term→≡ (x ∷ t) (y ∷ u) h = grind (arith, same_term→≡ t u, ==_iff x y)

pub same_term_self : (t : Term) → same_term t t ≡ true
same_term_self [] = refl
same_term_self (x ∷ t) = rw (==_self x) (same_term_self t)

pub same_term_comm : (t u : Term) → same_term t u ≡ same_term u t
same_term_comm t u = elim (Bool-cases (same_term t u)) [
  | inl h ↦ let e : t ≡ u = same_term→≡ t u h in rw e refl
  | inr h ↦ elim (Bool-cases (same_term u t)) [
    | inl h' ↦ let e : u ≡ t = same_term→≡ u t h' in rw e refl
    | inr h' ↦ h ∙ sym h'
  ]
]

-- Two keys that differ are not both the same as a third.
same_term_both : (t u w : Term) → same_term t u ≡ true → same_term t w ≡ true → same_term u w ≡ true
same_term_both t u w h h' = let e : t ≡ u = same_term→≡ t u h in rw e at h'

module _ {V : Type 0} where
  -- A lookup after `insert` finds the new value at its key, and what was there at any other.
  pub get-insert :
      (t u : Term) (v : V) (m : List (Term × V))
      → get t (insert u v m) ≡ (if same_term t u then some v else get t m)
  unfolding get insert
  get-insert t u v [] = refl
  get-insert t u v ((w, x) ∷ m) = elim (Bool-cases (same_term u w)) [
    | inl h ↦
        let k : same_term t w ≡ same_term t u = ap (same_term t) (sym (same_term→≡ u w h)) in
        rw (h, k) (if_twice (same_term t u) (some v) (some x) (get t m))
    | inr h ↦ rw (h, get-insert t u v m) (apart h)
  ]
    where
      if_twice :
          (b : Bool) (x y z : Option V)
          → (if b then x else z) ≡ (if b then x else if b then y else z)
      if_twice true x y z = refl
      if_twice false x y z = refl

      apart :
          same_term u w ≡ false
          → (if same_term t w then some x else if same_term t u then some v else get t m)
            ≡ (if same_term t u then some v else if same_term t w then some x else get t m)
      apart h = elim (Bool-cases (same_term t u)) [
        | inl a ↦ elim (Bool-cases (same_term t w)) [
          | inl b ↦ absurd (let k = same_term_both t u w a b in cc)
          | inr b ↦ rw (a, b) refl
        ]
        | inr a ↦ rw a refl
      ]

-- The positions at which a term stands in a document, in the order of its tokens.
unfoldable pub positions_of : Term → List Token → List ℕ
positions_of t [] = []
positions_of t (token ∷ tokens) =
    if same_term t token.text then token.position ∷ positions_of t tokens else positions_of t tokens

-- More positions for a term's entry, which no positions do not create.
abbrev pub extended : Option (List ℕ) → List ℕ → Option (List ℕ)
extended none [] = none
extended none (p ∷ ps) = some (p ∷ ps)
extended (some qs) ps = some (qs ++ ps)

extended-cons :
    (o : Option (List ℕ)) (p : ℕ) (ps : List ℕ)
    → extended (extended o (p ∷ [])) ps ≡ extended o (p ∷ ps)
extended-cons none p ps = refl
extended-cons (some qs) p ps = ap some (append_assoc qs (p ∷ []) ps)

get-push_position :
    (t u : Term) (p : ℕ) (m : List (Term × List ℕ))
    → get t (push_position u p m) ≡ (if same_term t u then extended (get t m) (p ∷ []) else get t m)
unfolding get push_position
get-push_position t u p [] = refl
get-push_position t u p ((w, ps) ∷ m) = elim (Bool-cases (same_term u w)) [
  | inl h ↦
      let k : same_term t w ≡ same_term t u = ap (same_term t) (sym (same_term→≡ u w h)) in
      rw (h, k) (same (same_term t u))
  | inr h ↦ rw (h, get-push_position t u p m) (apart h)
]
  where
    same :
        (b : Bool)
        → (if b then some (ps ++ p ∷ []) else get t m) ≡ (
            if b
            then extended (if b then some ps else get t m) (p ∷ [])
            else if b
            then some ps
            else get t m)
    same true = refl
    same false = refl

    apart :
        same_term u w ≡ false
        → (if same_term t w
            then some ps
            else if same_term t u
            then extended (get t m) (p ∷ [])
            else get t m)
          ≡ (if same_term t u
              then extended (if same_term t w then some ps else get t m) (p ∷ [])
              else if same_term t w
              then some ps
              else get t m)
    apart h = elim (Bool-cases (same_term t u)) [
      | inl a ↦ elim (Bool-cases (same_term t w)) [
        | inl b ↦ absurd (let k = same_term_both t u w a b in cc)
        | inr b ↦ rw (a, b) refl
      ]
      | inr a ↦ rw a refl
    ]

get-group_from :
    (t : Term) (tokens : List Token) (m : List (Term × List ℕ))
    → get t (group tokens m) ≡ extended (get t m) (positions_of t tokens)
unfolding group positions_of
get-group_from t [] m = extended-nil (get t m)
  where
    extended-nil : (o : Option (List ℕ)) → o ≡ extended o []
    extended-nil none = refl
    extended-nil (some qs) = ap some (sym (append-nil qs))
get-group_from t (token ∷ tokens) m =
    rw
      (
        get-group_from t tokens (push_position token.text token.position m),
        get-push_position t token.text token.position m,
      )
      (push (same_term t token.text) (get t m) token.position (positions_of t tokens))
  where
    push :
        (b : Bool) (o : Option (List ℕ)) (p : ℕ) (ps : List ℕ)
        → extended (if b then extended o (p ∷ []) else o) ps ≡ extended o (if b then p ∷ ps else ps)
    push true o p ps = extended-cons o p ps
    push false o p ps = refl

-- Grouping the tokens of a document gives every term that occurs the list of its positions, in the
-- order of the tokens, and no entry to any other term.
pub get-group :
    (t : Term) (tokens : List Token)
    → get t (group tokens []) ≡ extended none (positions_of t tokens)
get-group t tokens = unfold get in get-group_from t tokens []

-- A key stands once.
abbrev pub IsMap : {V : Type 0} → List (Term × V) → Type 0
IsMap [] = Unit
IsMap ((t, v) ∷ m) = (get t m ≡ none) × IsMap m

push_position-IsMap :
    (t : Term) (p : ℕ) (m : List (Term × List ℕ)) → IsMap m → IsMap (push_position t p m)
unfolding push_position
push_position-IsMap t p [] h = (unfold get in refl, tt)
push_position-IsMap t p ((u, ps) ∷ m) h = elim (Bool-cases (same_term t u)) [
  | inl e ↦ rw e h
  | inr e ↦
      rw e
        (rw (get-push_position u t p m, same_term_comm u t, e) h.0, push_position-IsMap t p m h.1)
]

pub group-IsMap :
    (tokens : List Token) (m : List (Term × List ℕ)) → IsMap m → IsMap (group tokens m)
unfolding group
group-IsMap [] m h = h
group-IsMap (token ∷ tokens) m h =
    group-IsMap tokens (push_position token.text token.position m)
      (push_position-IsMap token.text token.position m h)
