-- ===== src/Simd/Intersect.antt =====
-- `intersect_sorted` of src/simd/operation.rs against a plain filter.
use mathlib.Core.List.{append_assoc, append-nil}
use drusdenx.Prelude.{
  ℕ, zero, suc, ◌+◌, ◌<◌, ◌≤◌, ◌≡◌, ◌↔◌, inl, inr, refl, ap, ◌∙◌, sym, List, [], ◌∷◌, ◌++◌, true,
  arith, lt→ltb, le→not-ltb, In, lt_cases, Bool-cases, length, get_or, take, drop, keep, some,
  length-drop-le,
}
use drusdenx.Prelude.Ascending.{
  Ascending, All-map, contains, contains_iff, contains_above, contains-drop, keep-drop, keep_ext,
  take_below, Ascending-drop, Ascending-keep, In-keep_iff,
}
use drusdenx.Simd.{
  chunk_before, intersect_round, intersect_loop, intersect_sorted, gallop_threshold,
}

-- What an intersection should return: the values of `as'` that are in `bs`.
abbrev pub meet : List ℕ → List ℕ → List ℕ
meet as' bs = keep (contains bs) as'

-- Values of `as'` below everything in `bs` can be skipped, and the other way round.
meet-drop_left :
    (n b : ℕ) (as' bs : List ℕ)
    → Ascending as'
    → Ascending (b ∷ bs)
    → n < length as'
    → get_or as' n 0 < b
    → meet (drop (suc n) as') (b ∷ bs) ≡ meet as' (b ∷ bs)
meet-drop_left n b as' bs ha hb hn lt = keep-drop (suc n) (contains (b ∷ bs)) as' (
    All-map (take (suc n) as')
      (λ y p. contains_above y (b ∷ bs) (p, All-map bs (λ z q. omega arith) hb.0))
      (take_below n b as' ha hn lt))

meet-drop_right :
    (n a : ℕ) (as' bs : List ℕ)
    → Ascending (a ∷ as')
    → Ascending bs
    → n < length bs
    → get_or bs n 0 < a
    → meet (a ∷ as') (drop (suc n) bs) ≡ meet (a ∷ as') bs
meet-drop_right n a as' bs ha hb hn lt =
    keep_ext (contains (drop (suc n) bs)) (contains bs) (a ∷ as')
      (same a (omega arith), All-map as' (λ y p. same y (omega arith)) ha.0)
  where
    same : (v : ℕ) → a ≤ v → contains (drop (suc n) bs) v ≡ contains bs v
    same v h = contains-drop (suc n) v bs (take_below n v bs hb hn (omega arith))

meet_equal :
    (a b : ℕ) (as' bs : List ℕ)
    → Ascending (a ∷ as')
    → a ≡ b
    → meet (a ∷ as') (b ∷ bs) ≡ a ∷ meet as' bs
meet_equal a b as' bs ha e = ground (
  arith,
  keep_ext (contains (b ∷ bs)) (contains bs) as'
      (All-map as' (λ y p. sym (contains-drop (suc zero) y (b ∷ bs) (omega arith, tt))) ha.0),
)

-- What a round must keep: the result so far followed by the intersection of what is left.
abbrev IsRound : List ℕ → List ℕ → List ℕ → List ℕ × List ℕ × List ℕ → Type 0
IsRound as' bs result (as'', bs', result') =
    Ascending as''
    × Ascending bs'
    × (result' ++ meet as'' bs' ≡ result ++ meet as' bs)
    × (length as'' + length bs' < length as' + length bs)

IsRound-left :
    (a b : ℕ) (as' bs result : List ℕ)
    → Ascending (a ∷ as')
    → Ascending (b ∷ bs)
    → 7 < length (a ∷ as')
    → get_or (a ∷ as') 7 0 < b
    → IsRound (a ∷ as') (b ∷ bs) result (drop gallop_threshold (a ∷ as'), b ∷ bs, result)
IsRound-left a b as' bs result ha hb h lt = (
  Ascending-drop 8 (a ∷ as') ha,
  hb,
  ap (◌++◌ result) (meet-drop_left 7 b (a ∷ as') bs ha hb h lt),
  omega (arith, length-drop-le 7 as'),
)

IsRound-right :
    (a b : ℕ) (as' bs result : List ℕ)
    → Ascending (a ∷ as')
    → Ascending (b ∷ bs)
    → 7 < length (b ∷ bs)
    → get_or (b ∷ bs) 7 0 < a
    → IsRound (a ∷ as') (b ∷ bs) result (a ∷ as', drop gallop_threshold (b ∷ bs), result)
IsRound-right a b as' bs result ha hb h lt = (
  ha,
  Ascending-drop 8 (b ∷ bs) hb,
  ap (◌++◌ result) (meet-drop_right 7 a as' (b ∷ bs) ha hb h lt),
  omega (arith, length-drop-le 7 bs),
)

IsRound-equal :
    (a b : ℕ) (as' bs result : List ℕ)
    → Ascending (a ∷ as')
    → Ascending (b ∷ bs)
    → a ≡ b
    → IsRound (a ∷ as') (b ∷ bs) result (as', bs, result ++ a ∷ [])
IsRound-equal a b as' bs result ha hb e = (
  ha.1,
  hb.1,
  append_assoc result (a ∷ []) (meet as' bs) ∙ ap (◌++◌ result) (sym (meet_equal a b as' bs ha e)),
  omega arith,
)

IsRound-less :
    (a b : ℕ) (as' bs result : List ℕ)
    → Ascending (a ∷ as')
    → Ascending (b ∷ bs)
    → a < b
    → IsRound (a ∷ as') (b ∷ bs) result (as', b ∷ bs, result)
IsRound-less a b as' bs result ha hb lt = (
  ha.1,
  hb,
  ap (◌++◌ result) (meet-drop_left 0 b (a ∷ as') bs ha hb (omega arith) lt),
  omega arith,
)

IsRound-greater :
    (a b : ℕ) (as' bs result : List ℕ)
    → Ascending (a ∷ as')
    → Ascending (b ∷ bs)
    → b < a
    → IsRound (a ∷ as') (b ∷ bs) result (a ∷ as', bs, result)
IsRound-greater a b as' bs result ha hb lt = (
  ha,
  hb.1,
  ap (◌++◌ result) (meet-drop_right 0 a as' (b ∷ bs) ha hb (omega arith) lt),
  omega arith,
)

chunk_before_facts :
    (xs ys : List ℕ) (y : ℕ) → chunk_before xs y ys ≡ true → (7 < length xs) × (get_or xs 7 0 < y)
unfolding chunk_before
chunk_before_facts xs ys y h = ground arith

intersect_round-IsRound :
    (a b : ℕ) (as' bs result : List ℕ)
    → Ascending (a ∷ as')
    → Ascending (b ∷ bs)
    → IsRound (a ∷ as') (b ∷ bs) result (intersect_round a as' b bs result)
unfolding intersect_round
intersect_round-IsRound a b as' bs result ha hb =
    elim (Bool-cases (chunk_before (a ∷ as') b (b ∷ bs))) [
      | inl t ↦
          let (h, lt) = chunk_before_facts (a ∷ as') (b ∷ bs) b t in
          rw t (IsRound-left a b as' bs result ha hb h lt)
      | inr f ↦ elim (Bool-cases (chunk_before (b ∷ bs) a (a ∷ as'))) [
        | inl t ↦
            let (h, lt) = chunk_before_facts (b ∷ bs) (a ∷ as') a t in
            rw (f, t) (IsRound-right a b as' bs result ha hb h lt)
        | inr g ↦ elim (lt_cases a b) [
          | inl lt ↦ rw (f, g, lt→ltb a b lt) (IsRound-less a b as' bs result ha hb lt)
          | inr (inl gt) ↦
              rw (f, g, le→not-ltb a b (omega arith), lt→ltb b a gt)
                (IsRound-greater a b as' bs result ha hb gt)
          | inr (inr eq) ↦
              rw (f, g, le→not-ltb a b (omega arith), le→not-ltb b a (omega arith))
                (IsRound-equal a b as' bs result ha hb eq)
        ]
      ]
    ]

meet-nil : (as' : List ℕ) → meet as' [] ≡ []
meet-nil [] = refl
meet-nil (a ∷ as') = meet-nil as'

intersect_loop-meet :
    (fuel : ℕ) (as' bs result : List ℕ)
    → Ascending as'
    → Ascending bs
    → length as' + length bs ≤ fuel
    → intersect_loop fuel as' bs result ≡ some (result ++ meet as' bs)
unfolding intersect_loop
intersect_loop-meet fuel [] bs result ha hb h = rw append-nil
intersect_loop-meet fuel (a ∷ as') [] result ha hb h = rw (meet-nil as', append-nil)
intersect_loop-meet zero (a ∷ as') (b ∷ bs) result ha hb h = absurd (omega arith)
intersect_loop-meet (suc fuel) (a ∷ as') (b ∷ bs) result ha hb h =
    let next : List ℕ × List ℕ × List ℕ = intersect_round a as' b bs result in
    let (ha', hb', same, less) = intersect_round-IsRound a b as' bs result ha hb in
    intersect_loop-meet fuel next.0 next.1 next.2 ha' hb' (omega arith) ∙ ap some same

-- On strictly ascending arrays `intersect_sorted`, with its skipping of eight values at a time, ends
-- and returns exactly the values of the first array that are in the second, in their order.
pub intersect_sorted-meet :
    (a b : List ℕ) → Ascending a → Ascending b → intersect_sorted a b ≡ some (meet a b)
unfolding intersect_sorted
intersect_sorted-meet a b ha hb =
    intersect_loop-meet (length a + length b) a b [] ha hb (omega arith)

-- On strictly ascending arrays `intersect_sorted` ends, its result is strictly ascending, and a value
-- is in the result exactly when it is in both arrays.
pub In-intersect_sorted :
    (a b : List ℕ)
    → Ascending a
    → Ascending b
    → (r : List ℕ) × (intersect_sorted a b ≡ some r)
      × Ascending r
      × ((v : ℕ) → In v r ↔ (In v a × In v b))
In-intersect_sorted a b ha hb = (
  meet a b,
  intersect_sorted-meet a b ha hb,
  Ascending-keep (contains b) a ha,
  λ v.
      let (to, from) = In-keep_iff (contains b) v a in
      (λ m. ((to m).0, (contains_iff b v).0 (to m).1), λ m. from (m.0, (contains_iff b v).1 m.1)),
)
