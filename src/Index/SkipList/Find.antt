-- ===== src/Index/SkipList/Find.antt =====
-- `find` of src/index/skiplist.rs against the position of the target in the list.
use drusdenx.Prelude.{
  ℕ, zero, suc, ◌+◌, ◌-◌, ◌≤◌, ◌<◌, ◌≡◌, ◌↔◌, refl, List, [], ◌∷◌, arith, ltb, length, get_elem?,
  drop, take, All, some, ap, ◌∙◌, inl, inr, lt_cases, Bool-cases, All-get_elem?, get_elem?-some_lt,
}
use native.Mathlib.Numerals.{add-one}
use drusdenx.Compression.VByte.{IsU32}
use drusdenx.Prelude.Ascending.{Ascending}
use drusdenx.Index.Posting.{as_u32}
use drusdenx.Index.SkipList.{SkipEntry, build_loop, build, jump, scan, find}

-- An entry of a list built from `doc_ids`: its position is in the list, and holds its id.
abbrev pub IsEntry : List ℕ → SkipEntry → Type 0
IsEntry doc_ids entry = get_elem? doc_ids entry.position ≡ some entry.doc_id

drop_next :
    (i doc : ℕ) (all doc_ids : List ℕ) → drop i all ≡ doc ∷ doc_ids → drop (suc i) all ≡ doc_ids
drop_next zero doc [] doc_ids e = cc
drop_next zero doc (x ∷ all) doc_ids e = cc
drop_next (suc i) doc [] doc_ids e = cc
drop_next (suc i) doc (x ∷ all) doc_ids e = drop_next i doc all doc_ids e

drop_head :
    (i doc : ℕ) (all doc_ids : List ℕ) → drop i all ≡ doc ∷ doc_ids → get_elem? all i ≡ some doc
drop_head zero doc [] doc_ids e = cc
drop_head zero doc (x ∷ all) doc_ids e = cc
drop_head (suc i) doc [] doc_ids e = cc
drop_head (suc i) doc (x ∷ all) doc_ids e = drop_head i doc all doc_ids e

pub build_loop-IsEntry :
    (len interval i gap : ℕ) (all doc_ids : List ℕ)
    → drop i all ≡ doc_ids
    → All (IsEntry all) (build_loop len interval i gap doc_ids)
unfolding build_loop
build_loop-IsEntry len interval i gap all [] e = tt
build_loop-IsEntry len interval i zero all (doc ∷ doc_ids) e = (
  drop_head i doc all doc_ids e,
  rw add-one (
      build_loop-IsEntry len interval (suc i) (interval - 1) all doc_ids
        (drop_next i doc all doc_ids e)),
)
build_loop-IsEntry len interval i (suc gap) all (doc ∷ doc_ids) e =
    rw add-one
      (build_loop-IsEntry len interval (suc i) gap all doc_ids (drop_next i doc all doc_ids e))

-- In an ascending list everything before an element that is at most `t` is below `t`.
before_le :
    (n t x : ℕ) (xs : List ℕ)
    → Ascending xs
    → get_elem? xs n ≡ some x
    → x ≤ t
    → All (λ y. y < t) (take n xs)
before_le zero t x xs a e le = tt
before_le (suc n) t x [] a e le = cc
before_le (suc n) t x (z ∷ xs) a e le =
    let above : z < x = All-get_elem? (λ y. z < y) xs n a.0 e in
    (omega arith, before_le n t x xs a.1 e le)

jump-safe :
    (t pos : ℕ) (docs : List ℕ) (entries : List SkipEntry)
    → Ascending docs
    → All IsU32 docs
    → All (IsEntry docs) entries
    → All (λ y. y < t) (take pos docs)
    → All (λ y. y < t) (take (jump entries t pos) docs)
unfolding jump
jump-safe t pos docs [] a u h p = p
jump-safe t pos docs (entry ∷ entries) a u h p =
    let small : IsU32 entry.doc_id = All-get_elem? IsU32 docs entry.position u h.0 in
    elim (Bool-cases (ltb t (as_u32 entry.doc_id))) [
      | inl past ↦ rw past p
      | inr on ↦ rw on (
          jump-safe t entry.position docs entries a u h.1
            (before_le entry.position t entry.doc_id docs a h.0 (ground arith)))
    ]

scan-drop :
    (n t i : ℕ) (xs : List ℕ)
    → All (λ y. y < t) (take n xs)
    → n ≤ length xs
    → scan t (i + n) (drop n xs) ≡ scan t i xs
unfolding scan
scan-drop zero t i xs h le = ap (λ j. scan t j xs) (omega arith)
scan-drop (suc n) t i [] h le = absurd (omega arith)
scan-drop (suc n) t i (x ∷ xs) h le =
    let shift : i + suc n ≡ i + 1 + n = omega arith in
    rw shift (ground (arith, scan-drop n t (i + 1) xs h.1 (omega arith)))

scan-finds :
    (t i k : ℕ) (xs : List ℕ) → Ascending xs → get_elem? xs k ≡ some t → scan t i xs ≡ some (i + k)
unfolding scan
scan-finds t i k [] a e = cc
scan-finds t i zero (x ∷ xs) a e = ground arith
scan-finds t i (suc k) (x ∷ xs) a e =
    let above : x < t = All-get_elem? (λ y. x < y) xs k a.0 e in
    ground (arith, scan-finds t (i + 1) k xs a.1 e)

scan-found :
    (t i m : ℕ) (xs : List ℕ)
    → scan t i xs ≡ some m
    → (k : ℕ) × (m ≡ i + k) × (get_elem? xs k ≡ some t)
unfolding scan
scan-found t i m [] e = cc
scan-found t i m (x ∷ xs) e = elim (lt_cases x t) [
  | inl lt ↦
      let (k, at_k, there) = scan-found t (i + 1) m xs (ground arith) in (suc k, omega arith, there)
  | inr (inl gt) ↦ absurd (ground arith)
  | inr (inr eq) ↦ (zero, ground arith, rw eq)
]

jump-le :
    (t pos : ℕ) (docs : List ℕ) (entries : List SkipEntry)
    → All (IsEntry docs) entries
    → pos ≤ length docs
    → jump entries t pos ≤ length docs
unfolding jump
jump-le t pos docs [] h le = le
jump-le t pos docs (entry ∷ entries) h le = ground (
  arith,
  get_elem?-some_lt docs entry.position entry.doc_id h.0,
  jump-le t entry.position docs entries h.1,
)

find-scan :
    (interval target : ℕ) (docs : List ℕ)
    → Ascending docs
    → All IsU32 docs
    → find (build interval docs) target ≡ scan (as_u32 target) 0 docs
unfolding find build
find-scan interval target docs a u =
    let entries : List SkipEntry = build_loop (length docs) interval 0 0 docs in
    let valid : All (IsEntry docs) entries =
      build_loop-IsEntry (length docs) interval 0 0 docs docs refl in
    let pos : ℕ = jump entries (as_u32 target) 0 in
    ap (λ i. scan (as_u32 target) i (drop pos docs)) (omega arith)
    ∙ scan-drop pos (as_u32 target) 0 docs (jump-safe (as_u32 target) 0 docs entries a u valid tt)
        (jump-le (as_u32 target) 0 docs entries valid (omega arith))

-- On a skip list built from strictly ascending u32s, with any interval, `find` returns an index
-- exactly when the target, cut to 32 bits, stands at that index.
pub find_iff :
    (interval target k : ℕ) (docs : List ℕ)
    → Ascending docs
    → All IsU32 docs
    → (find (build interval docs) target ≡ some k) ↔ (get_elem? docs k ≡ some (as_u32 target))
find_iff interval target k docs a u = rw (find-scan interval target docs a u) (
  λ e.
      let (j, same, there) = scan-found (as_u32 target) 0 k docs e in
      let eq : k ≡ j = omega arith in rw eq there,
  λ e. scan-finds (as_u32 target) 0 k docs a e ∙ ap some (omega arith),
)
