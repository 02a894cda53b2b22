-- ===== src/Index/SkipList/Intersect.antt =====
-- `intersect` of src/index/skiplist.rs: what it returns is common to both lists, it ends, and it
-- can pass over common documents that stand between two skip entries.
use drusdenx.Prelude.{
  ℕ, zero, suc, ◌+◌, ◌-◌, ◌≤◌, ◌<◌, ◌≡◌, ◌≢◌, refl, List, [], ◌∷◌, ◌++◌, arith, true, false, ◌&&◌,
  ltb, length, get_elem?, get_or, drop, All, In, some, none, inl, inr, Bool-cases, ◌∙◌, sym, ==_iff,
  lt_cases, lt→ltb, le→not-ltb, lt→not-==, gt→not-==, lt→le, All-append, get_elem?-some_lt,
  All-get_elem?, Option-cases, length-drop,
}
use drusdenx.Compression.VByte.{IsU32}
use drusdenx.Index.SkipList.{
  SkipEntry, SkipList, build_loop, build, skip_entry, skip_linear, skip_to_ge, intersect_loop,
  intersect,
}
use drusdenx.Index.SkipList.Find.{IsEntry, build_loop-IsEntry}

In-get_or : (xs : List ℕ) (i : ℕ) → i < length xs → In (get_or xs i 0) xs
In-get_or [] i h = absurd (omega arith)
In-get_or (x ∷ xs) zero h = inl refl
In-get_or (x ∷ xs) (suc i) h = inr (In-get_or xs i (omega arith))

abbrev Common : SkipList → SkipList → List ℕ → Type 0
Common list1 list2 result = All (λ v. In v list1.doc_ids × In v list2.doc_ids) result

-- The three ways in which a round of the loop goes on, and its end.
module _ (list1 list2 : SkipList) (fuel i j : ℕ) (result : List ℕ) where
  round_end :
      (ltb i (length list1.doc_ids) && ltb j (length list2.doc_ids)) ≡ false
      → intersect_loop list1 list2 (suc fuel) i j result ≡ some result
  unfolding intersect_loop
  round_end h = rw h

  module _ (here : (ltb i (length list1.doc_ids) && ltb j (length list2.doc_ids)) ≡ true) where
    round_both :
        get_or list1.doc_ids i 0 ≡ get_or list2.doc_ids j 0
        → intersect_loop list1 list2 (suc fuel) i j result
          ≡ intersect_loop list1 list2 fuel
              (i + 1)
              (j + 1)
              (result ++ get_or list1.doc_ids i 0 ∷ [])
    unfolding intersect_loop
    round_both e = rw (here, (==_iff _ _).1 e)

    round_first :
        get_or list1.doc_ids i 0 < get_or list2.doc_ids j 0
        → intersect_loop list1 list2 (suc fuel) i j result
          ≡ intersect_loop list1 list2 fuel (skip_to_ge list1 (get_or list2.doc_ids j 0) i) j result
    unfolding intersect_loop
    round_first lt = rw (here, lt→not-== _ _ lt, lt→ltb _ _ lt)

    round_second :
        get_or list2.doc_ids j 0 < get_or list1.doc_ids i 0
        → intersect_loop list1 list2 (suc fuel) i j result
          ≡ intersect_loop list1 list2 fuel i (skip_to_ge list2 (get_or list1.doc_ids i 0) j) result
    unfolding intersect_loop
    round_second gt = rw (here, gt→not-== _ _ gt, le→not-ltb _ _ (lt→le gt))

in_range : (m n i j : ℕ) → (ltb i m && ltb j n) ≡ true → (i < m) × (j < n)
in_range m n i j h = ground arith

intersect_loop-Common :
    (list1 list2 : SkipList) (fuel i j : ℕ) (result : List ℕ) {r : List ℕ}
    → Common list1 list2 result
    → intersect_loop list1 list2 fuel i j result ≡ some r
    → Common list1 list2 r
intersect_loop-Common list1 list2 zero i j result c e = unfold intersect_loop in ground arith
intersect_loop-Common list1 list2 (suc fuel) i j result {r} c e =
    let doc1 : ℕ = get_or list1.doc_ids i 0 in
    let doc2 : ℕ = get_or list2.doc_ids j 0 in
    elim (Bool-cases (ltb i (length list1.doc_ids) && ltb j (length list2.doc_ids))) [
      | inr over ↦
          let same : result ≡ r = cc (round_end list1 list2 fuel i j result over) in rw (← same) c
      | inl here ↦
          let (hi, hj) = in_range (length list1.doc_ids) (length list2.doc_ids) i j here in
          elim (lt_cases doc1 doc2) [
            | inl lt ↦
                intersect_loop-Common list1 list2 fuel (skip_to_ge list1 doc2 i) j result c
                  (sym (round_first list1 list2 fuel i j result here lt) ∙ e)
            | inr (inl gt) ↦
                intersect_loop-Common list1 list2 fuel i (skip_to_ge list2 doc1 j) result c
                  (sym (round_second list1 list2 fuel i j result here gt) ∙ e)
            | inr (inr eq) ↦
                intersect_loop-Common list1 list2 fuel (i + 1) (j + 1) (result ++ doc1 ∷ [])
                  (All-append (λ v. In v list1.doc_ids × In v list2.doc_ids) result (doc1 ∷ []) c
                    ((In-get_or list1.doc_ids i hi, rw eq (In-get_or list2.doc_ids j hj)), tt))
                  (sym (round_both list1 list2 fuel i j result here eq) ∙ e)
          ]
    ]

-- Whatever the lists and their entries are, every document that `intersect` returns is in both.
pub intersect-Common :
    (list1 list2 : SkipList) (r : List ℕ)
    → intersect list1 list2 ≡ some r
    → All (λ v. In v list1.doc_ids × In v list2.doc_ids) r
unfolding intersect
intersect-Common list1 list2 r e = intersect_loop-Common list1 list2 _ 0 0 [] tt e

module _ (x0 x1 x2 x3 x4 : ℕ) (h0 : x0 < x1) (h1 : x1 < x2) (h2 : x2 < x3) (h3 : x3 < x4)
    (u : IsU32 x4) where
  abbrev spread : SkipList
  unfolding build
  spread = build 4 (x0 ∷ x1 ∷ x2 ∷ x3 ∷ x4 ∷ [])

  abbrev single : SkipList
  unfolding build
  single = build 4 (x2 ∷ [])

  over_first : skip_to_ge spread x2 0 ≡ 4
  unfolding skip_to_ge build
  over_first = ground arith

  over_second : skip_to_ge single x4 0 ≡ 1
  unfolding skip_to_ge build
  over_second = ground arith

  loop_misses : intersect_loop spread single 6 0 0 [] ≡ some []
  unfolding build
  loop_misses =
      round_first spread single 5 0 0 [] refl h02
      ∙ rw over_first (
          round_second spread single 4 4 0 [] refl h24
          ∙ rw over_second (round_end spread single 3 4 1 [] refl))
    where
      h02 : x0 < x2
      h02 = omega arith

      h24 : x2 < x4
      h24 = omega arith

-- A common document can be missed: in every strictly ascending list of five u32s, with the smallest
-- interval, four, intersecting with the list of its third document alone gives nothing.
pub intersect_misses :
    (x0 x1 x2 x3 x4 : ℕ)
    → x0 < x1
    → x1 < x2
    → x2 < x3
    → x3 < x4
    → IsU32 x4
    → intersect (build 4 (x0 ∷ x1 ∷ x2 ∷ x3 ∷ x4 ∷ [])) (build 4 (x2 ∷ [])) ≡ some []
unfolding intersect build
intersect_misses x0 x1 x2 x3 x4 h0 h1 h2 h3 u = loop_misses x0 x1 x2 x3 x4 h0 h1 h2 h3 u

get_elem?-get_or : (xs : List ℕ) (i : ℕ) {x : ℕ} → get_elem? xs i ≡ some x → get_or xs i 0 ≡ x
get_elem?-get_or [] i e = cc
get_elem?-get_or (x ∷ xs) zero e = cc
get_elem?-get_or (x ∷ xs) (suc i) e = get_elem?-get_or xs i e

skip_entry_passes :
    (docs : List ℕ) (entries : List SkipEntry) (target from position : ℕ)
    → All IsU32 docs
    → All (IsEntry docs) entries
    → get_or docs from 0 < target
    → skip_entry entries target from ≡ some position
    → (from < position) × (position < length docs)
unfolding skip_entry
skip_entry_passes docs [] target from position u h lt e = cc
skip_entry_passes docs (entry ∷ entries) target from position u h lt e =
    let small : IsU32 entry.doc_id = All-get_elem? IsU32 docs entry.position u h.0 in
    grind (
      arith,
      get_elem?-get_or docs entry.position h.0,
      get_elem?-some_lt docs entry.position entry.doc_id h.0,
      skip_entry_passes docs entries target from position u h.1 lt,
    )

skip_linear-ge : (target i : ℕ) (docs : List ℕ) → i ≤ skip_linear target i docs
unfolding skip_linear
skip_linear-ge target i [] = omega arith
skip_linear-ge target i (doc ∷ docs) = ground (arith, skip_linear-ge target (i + 1) docs)

skip_linear_passes :
    (target i : ℕ) (docs : List ℕ)
    → 0 < length docs
    → get_or docs 0 0 < target
    → i < skip_linear target i docs
unfolding skip_linear
skip_linear_passes target i [] h lt = absurd (omega arith)
skip_linear_passes target i (doc ∷ docs) h lt = ground (arith, skip_linear-ge target (i + 1) docs)

get_or-drop : (xs : List ℕ) (i : ℕ) → get_or (drop i xs) 0 0 ≡ get_or xs i 0
get_or-drop [] zero = refl
get_or-drop [] (suc i) = refl
get_or-drop (x ∷ xs) zero = refl
get_or-drop (x ∷ xs) (suc i) = get_or-drop xs i

-- A jump over smaller documents goes forward.
skip_to_ge_passes :
    (interval target from : ℕ) (docs : List ℕ)
    → All IsU32 docs
    → from < length docs
    → get_or docs from 0 < target
    → from < skip_to_ge (build interval docs) target from
unfolding skip_to_ge build
skip_to_ge_passes interval target from docs u h lt =
    let entries : List SkipEntry = build_loop (length docs) interval 0 0 docs in
    let valid : All (IsEntry docs) entries =
      build_loop-IsEntry (length docs) interval 0 0 docs docs refl in
    elim (Option-cases (skip_entry entries target from)) [
      | inl e ↦
          rw (e, skip_to_ge)
            (skip_linear_passes target from (drop from docs) (omega (arith, length-drop docs from))
              (rw get_or-drop lt))
      | inr (position, e) ↦
          rw (e, skip_to_ge) (skip_entry_passes docs entries target from position u valid lt e).0
    ]

module _ (n m : ℕ) (docs1 docs2 : List ℕ) (u1 : All IsU32 docs1) (u2 : All IsU32 docs2) where
  intersect_loop-ne-none :
      (fuel i j : ℕ) (result : List ℕ)
      → (length docs1 - i) + (length docs2 - j) ≤ fuel
      → intersect_loop (build n docs1) (build m docs2) fuel i j result ≢ none
  unfolding build
  intersect_loop-ne-none zero i j result h = unfold intersect_loop in λ e. ground arith
  intersect_loop-ne-none (suc fuel) i j result h =
      let list1 : SkipList = build n docs1 in
      let list2 : SkipList = build m docs2 in
      let doc1 : ℕ = get_or docs1 i 0 in
      let doc2 : ℕ = get_or docs2 j 0 in
      elim (Bool-cases (ltb i (length docs1) && ltb j (length docs2))) [
        | inr over ↦ rw (round_end list1 list2 fuel i j result over) (λ e. cc)
        | inl here ↦
            let (hi, hj) = in_range (length docs1) (length docs2) i j here in
            elim (lt_cases doc1 doc2) [
              | inl lt ↦
                  let pass = skip_to_ge_passes n doc2 i docs1 u1 hi lt in
                  rw (round_first list1 list2 fuel i j result here lt)
                    (intersect_loop-ne-none fuel (skip_to_ge list1 doc2 i) j result (omega arith))
              | inr (inl gt) ↦
                  let pass = skip_to_ge_passes m doc1 j docs2 u2 hj gt in
                  rw (round_second list1 list2 fuel i j result here gt)
                    (intersect_loop-ne-none fuel i (skip_to_ge list2 doc1 j) result (omega arith))
              | inr (inr eq) ↦
                  rw (round_both list1 list2 fuel i j result here eq) (
                    intersect_loop-ne-none fuel (i + 1) (j + 1) (result ++ doc1 ∷ []) (omega arith))
            ]
      ]

  -- On two skip lists built from u32s, with any intervals, `intersect` ends: the fuel, one round for
  -- each document, never runs out.
  pub intersect-ne-none : intersect (build n docs1) (build m docs2) ≢ none
  unfolding intersect build
  intersect-ne-none = intersect_loop-ne-none (length docs1 + length docs2) 0 0 [] (omega arith)
