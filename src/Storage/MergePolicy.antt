-- ===== src/Storage/MergePolicy.antt =====
-- `TieredMergePolicy` of src/storage/merge_policy.rs. The sort of the standard library is stable, as
-- the insertion sort here is.
mod Limits
mod Tests
use drusdenx.Prelude.{
  ℕ, ◌+◌, ◌*◌, ◌/◌, List, [], ◌∷◌, Bool, true, ◌||◌, ltb, leb, if◌then◌else◌, keep, length,
}
use drusdenx.Storage.Segment.{Segment}

pub record TieredMergePolicy : Type 0 where
  pub max_segments_per_tier : ℕ
  pub max_segment_size_mb : ℕ
  pub min_segments_to_merge : ℕ
  pub max_segments_to_merge : ℕ

pub default_policy : TieredMergePolicy
default_policy = record {
  max_segments_per_tier = 10;
  max_segment_size_mb = 512;
  min_segments_to_merge = 2;
  max_segments_to_merge = 10;
}

abbrev pub size_of : Segment → ℕ
size_of s = s.metadata.size_bytes

pub should_merge : TieredMergePolicy → List Segment → Bool
should_merge policy segments =
    let small_segments = length (keep (λ s. ltb (size_of s) (10 * 1024 * 1024)) segments) in
    if ltb policy.max_segments_per_tier (length segments)
    then true
    else leb policy.min_segments_to_merge small_segments

insert_by_size : Segment → List Segment → List Segment
insert_by_size s [] = s ∷ []
insert_by_size s (t ∷ sorted) =
    let later = insert_by_size s sorted in
    if leb (size_of s) (size_of t) then s ∷ t ∷ sorted else t ∷ later

sort_by_size : List Segment → List Segment
unfolding insert_by_size
sort_by_size [] = []
sort_by_size (s ∷ segments) = insert_by_size s (sort_by_size segments)

-- The loop over the sorted segments, with the size and the number of those selected so far. The
-- result is what the rest of the loop selects.
select_loop : ℕ → ℕ → ℕ → ℕ → List Segment → List Segment
select_loop limit max_count current_size count [] = []
select_loop limit max_count current_size count (s ∷ segments) =
    let skipped = select_loop limit max_count current_size count segments in
    let rest = select_loop limit max_count (current_size + size_of s) (count + 1) segments in
    if ltb (limit / 2) (size_of s)
    then skipped
    else if ltb limit (current_size + size_of s)
    then []
    else if leb max_count (count + 1)
    then s ∷ []
    else s ∷ rest

-- What the loop selects, before its number is compared to the least one.
abbrev selected : TieredMergePolicy → List Segment → List Segment
selected policy segments =
    select_loop (policy.max_segment_size_mb * 1024 * 1024) policy.max_segments_to_merge 0 0
      (sort_by_size segments)

pub select_segments_to_merge : TieredMergePolicy → List Segment → List Segment
unfolding select_loop sort_by_size
select_segments_to_merge policy segments =
    if ltb (length (selected policy segments)) policy.min_segments_to_merge
    then []
    else selected policy segments
