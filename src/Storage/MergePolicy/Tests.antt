-- ===== src/Storage/MergePolicy/Tests.antt =====
-- Runs of src/storage/merge_policy.rs, and its theorem at a concrete input.
use drusdenx.Prelude.{ℕ, ◌*◌, ◌/◌, ◌≤◌, ◌≡◌, ◌⊎◌, refl, List, [], ◌∷◌, All, In, length, max, true}
use drusdenx.Storage.Segment.{Segment}
use drusdenx.Storage.MergePolicy.{default_policy, size_of, should_merge, select_segments_to_merge}
use drusdenx.Storage.MergePolicy.Limits.{total_size, select_segments_to_merge-limits}

abbrev sized : ℕ → Segment
sized n = record {
  id = n;
  doc_count = 1;
  metadata = record { size_bytes = n; min_doc_id = 0; max_doc_id = 0 };
}

abbrev given : List Segment
given = sized 30 ∷ sized 10 ∷ sized 300000000 ∷ []

should_merge_runs : should_merge default_policy given ≡ true
unfolding should_merge default_policy
should_merge_runs = refl

select_runs : select_segments_to_merge default_policy given ≡ sized 10 ∷ sized 30 ∷ []
unfolding select_segments_to_merge default_policy
select_runs = refl

select_segments_to_merge-limits_example :
    let limit = default_policy.max_segment_size_mb * 1024 * 1024 in
    let chosen = select_segments_to_merge default_policy given in
    All (λ s. In s given × (size_of s ≤ limit / 2)) chosen
    × (total_size chosen ≤ limit)
    × (length chosen ≤ max 1 default_policy.max_segments_to_merge)
    × ((chosen ≡ []) ⊎ (default_policy.min_segments_to_merge ≤ length chosen))
select_segments_to_merge-limits_example = select_segments_to_merge-limits default_policy given
