-- ===== src/Storage/MergePolicy/Limits.antt =====
-- What the tiered merge policy of src/storage/merge_policy.rs selects.
use drusdenx.Prelude.{
  ℕ, ◌+◌, ◌*◌, ◌/◌, ◌≤◌, ◌<◌, ◌≡◌, ◌⊎◌, inl, inr, refl, max, arith, List, [], ◌∷◌, Bool-cases, ltb,
  leb, length, All, In, All-weaken, not-ltb→le,
}
use drusdenx.Storage.Segment.{Segment}
use drusdenx.Storage.MergePolicy.{
  TieredMergePolicy, size_of, insert_by_size, sort_by_size, select_loop, selected,
  select_segments_to_merge,
}

pub total_size : List Segment → ℕ
total_size [] = 0
total_size (s ∷ segments) = size_of s + total_size segments

In-insert_by_size :
    (s u : Segment) (sorted : List Segment) → In u (insert_by_size s sorted) → (u ≡ s) ⊎ In u sorted
unfolding insert_by_size
In-insert_by_size s u [] m = m
In-insert_by_size s u (t ∷ sorted) m = elim (Bool-cases (leb (size_of s) (size_of t))) [
  | inl e ↦ rw e at m
  | inr ne ↦ elim (rw ne at m) [
    | inl same ↦ inr (inl same)
    | inr later ↦ elim (In-insert_by_size s u sorted later) [
      | inl same ↦ inl same
      | inr there ↦ inr (inr there)
    ]
  ]
]

In-sort_by_size :
    (u : Segment) (segments : List Segment) → In u (sort_by_size segments) → In u segments
unfolding sort_by_size
In-sort_by_size u [] m = m
In-sort_by_size u (s ∷ segments) m = elim (In-insert_by_size s u (sort_by_size segments) m) [
  | inl same ↦ inl same
  | inr there ↦ inr (In-sort_by_size u segments there)
]

record IsSelection (limit max_count size count : ℕ) (segments chosen : List Segment) : Type 0 where
  members : All (λ s. In s segments × (size_of s ≤ limit / 2)) chosen
  total : size ≤ limit → size + total_size chosen ≤ limit
  number : count < max 1 max_count → count + length chosen ≤ max 1 max_count

select_loop-IsSelection :
    (limit max_count size count : ℕ) (segments : List Segment)
    → IsSelection limit max_count size count segments
        (select_loop limit max_count size count segments)
unfolding select_loop total_size
select_loop-IsSelection limit max_count size count [] = record {
  members = tt;
  total = λ h. omega arith;
  number = λ h. omega arith;
}
select_loop-IsSelection limit max_count size count (s ∷ segments) =
    elim (Bool-cases (ltb (limit / 2) (size_of s))) [
      | inl large ↦
          let p = select_loop-IsSelection limit max_count size count segments in
          rw large (record {
            members = All-weaken _ (λ u h. (inr h.0, h.1)) _ p.members;
            total = p.total;
            number = p.number;
          })
      | inr small ↦ elim (Bool-cases (ltb limit (size + size_of s))) [
        | inl over ↦
            rw (small, over)
              (record { members = tt; total = λ h. omega arith; number = λ h. omega arith })
        | inr fits ↦ elim (Bool-cases (leb max_count (count + 1))) [
          | inl full ↦
              rw (small, fits, full)
                (record {
                  members = ((inl refl, not-ltb→le _ _ small), tt);
                  total = λ h. omega (arith, not-ltb→le _ _ fits);
                  number = λ h. omega arith;
                })
          | inr room ↦
              let p =
                select_loop-IsSelection limit max_count (size + size_of s) (count + 1) segments in
              let space : count + 1 < max_count = ground arith in
              rw (small, fits, room)
                (record {
                  members = (
                    (inl refl, not-ltb→le _ _ small),
                    All-weaken _ (λ u h. (inr h.0, h.1)) _ p.members,
                  );
                  total = λ h. omega (arith, p.total (not-ltb→le _ _ fits));
                  number = λ h. omega (arith, p.number (omega arith));
                })
        ]
      ]
    ]

-- The segments that the policy selects for a merge are some that it was given, each of at most half
-- the size limit; together they are within the limit. They are not more than the largest number, or
-- than one if that is zero; and there are none, or at least the least number.
pub select_segments_to_merge-limits :
    (policy : TieredMergePolicy) (segments : List Segment)
    → let limit = policy.max_segment_size_mb * 1024 * 1024 in
      let chosen = select_segments_to_merge policy segments in
      All (λ s. In s segments × (size_of s ≤ limit / 2)) chosen
      × (total_size chosen ≤ limit)
      × (length chosen ≤ max 1 policy.max_segments_to_merge)
      × ((chosen ≡ []) ⊎ (policy.min_segments_to_merge ≤ length chosen))
unfolding select_segments_to_merge total_size
select_segments_to_merge-limits policy segments =
    elim (Bool-cases (ltb (length (selected policy segments)) policy.min_segments_to_merge)) [
      | inl few ↦ rw few (tt, omega arith, omega arith, inl refl)
      | inr enough ↦
          let p =
            select_loop-IsSelection (policy.max_segment_size_mb * 1024 * 1024)
              policy.max_segments_to_merge 0 0 (sort_by_size segments) in
          rw enough (
            All-weaken _ (λ u h. (In-sort_by_size u segments h.0, h.1)) _ p.members,
            omega (arith, p.total (omega arith)),
            omega (arith, p.number (omega arith)),
            inr (not-ltb→le _ _ enough),
          )
    ]
