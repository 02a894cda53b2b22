-- ===== src/Index/SkipList.antt =====
-- src/index/skiplist.rs: decoded document ids with skip entries at regular intervals.
-- The interval is computed from a floating-point square root, and is a parameter here.
pub mod Find
pub mod Intersect
mod Tests
use drusdenx.Prelude.{
  ℕ, zero, suc, ◌+◌, ◌-◌, List, [], ◌∷◌, ◌++◌, Bool, true, false, ltb, leb, ◌==◌, if◌then◌else◌,
  length, get_or, drop, Option, none, some, ◌&&◌,
}
use drusdenx.Index.Posting.{as_u32}

pub record SkipEntry : Type 0 where
  pub doc_id : ℕ
  pub position : ℕ
  pub skip_to : Option ℕ

pub record SkipList : Type 0 where
  pub entries : List SkipEntry
  pub doc_ids : List ℕ
  pub skip_interval : ℕ

-- The `for i in (0..len).step_by(interval)` of `build`: `gap` indices are to be skipped before the
-- next entry, and `doc_ids` is what is left of the list from index `i` on.
pub build_loop : ℕ → ℕ → ℕ → ℕ → List ℕ → List SkipEntry
build_loop len interval i gap [] = []
build_loop len interval i zero (doc ∷ doc_ids) =
    record {
      doc_id = doc;
      position = i;
      skip_to = if ltb (i + interval) len then some (i + interval) else none;
    }
    ∷ build_loop len interval (i + 1) (interval - 1) doc_ids
build_loop len interval i (suc gap) (doc ∷ doc_ids) = build_loop len interval (i + 1) gap doc_ids

-- `build`, once the posting list is decoded.
pub build : ℕ → List ℕ → SkipList
unfolding build_loop
build interval doc_ids = record {
  entries = build_loop (length doc_ids) interval 0 0 doc_ids;
  doc_ids = doc_ids;
  skip_interval = interval;
}

-- The first loop of `find`: the position of the last entry before one that is past the target.
jump : List SkipEntry → ℕ → ℕ → ℕ
jump [] target pos = pos
jump (entry ∷ entries) target pos =
    let further = jump entries target entry.position in
    if ltb target (as_u32 entry.doc_id) then pos else further

-- The linear scan of `find`; `i` is the index of the head of the list.
scan : ℕ → ℕ → List ℕ → Option ℕ
scan target i [] = none
scan target i (doc ∷ doc_ids) =
    let further = scan target (i + 1) doc_ids in
    if doc == target then some i else if ltb target doc then none else further

pub find : SkipList → ℕ → Option ℕ
unfolding jump scan
find list target =
    let pos = jump list.entries (as_u32 target) 0 in
    scan (as_u32 target) pos (drop pos list.doc_ids)

-- The two loops of `skip_to_ge`.
skip_entry : List SkipEntry → ℕ → ℕ → Option ℕ
skip_entry [] target from = none
skip_entry (entry ∷ entries) target from =
    let further = skip_entry entries target from in
    if ltb entry.position from
    then further
    else if leb target (as_u32 entry.doc_id)
    then some entry.position
    else further

skip_linear : ℕ → ℕ → List ℕ → ℕ
skip_linear target i [] = i
skip_linear target i (doc ∷ doc_ids) =
    let further = skip_linear target (i + 1) doc_ids in if leb target doc then i else further

pub skip_to_ge : SkipList → ℕ → ℕ → ℕ
unfolding skip_entry skip_linear
skip_to_ge list target from = elim (skip_entry list.entries target from) [
  | some position ↦ position
  | none ↦ skip_linear target from (drop from list.doc_ids)
]

-- The `while` of `intersect`. `none` is a run that has used up its fuel.
intersect_loop : SkipList → SkipList → ℕ → ℕ → ℕ → List ℕ → Option (List ℕ)
intersect_loop list1 list2 zero i j result =
    if ltb i (length list1.doc_ids) && ltb j (length list2.doc_ids) then none else some result
intersect_loop list1 list2 (suc fuel) i j result =
    let doc1 = get_or list1.doc_ids i 0 in
    let doc2 = get_or list2.doc_ids j 0 in
    let both = intersect_loop list1 list2 fuel (i + 1) (j + 1) (result ++ doc1 ∷ []) in
    let first = intersect_loop list1 list2 fuel (skip_to_ge list1 doc2 i) j result in
    let second = intersect_loop list1 list2 fuel i (skip_to_ge list2 doc1 j) result in
    if ltb i (length list1.doc_ids) && ltb j (length list2.doc_ids)
    then if doc1 == doc2 then both else if ltb doc1 doc2 then first else second
    else some result

pub intersect : SkipList → SkipList → Option (List ℕ)
unfolding intersect_loop skip_to_ge
intersect list1 list2 =
    intersect_loop list1 list2 (length list1.doc_ids + length list2.doc_ids) 0 0 []
