-- ===== src/Mvcc/Tests.antt =====
-- Runs of src/mvcc/controller.rs, and its theorems at concrete inputs.
use drusdenx.Prelude.{ℕ, zero, suc, ◌+◌, ◌≡◌, inl, inr, refl, [], ◌∷◌, arith, In, Bool, true, false}
use drusdenx.Storage.Segment.{Segment}
use drusdenx.Mvcc.{
  Snapshot, Controller, new, gc, gc_old_versions_leased, allocate, make_snapshot, publish,
  default_snapshot, current_snapshot,
}
use drusdenx.Mvcc.Collect.{gc-keeps_pinned}
use drusdenx.Mvcc.Publish.{IsValid, current_snapshot-allocate}
use drusdenx.Mvcc.Threads.{
  World, Reach, start, next, allocates, publishes, current_snapshot-quiescent,
}

abbrev pinned_first : ℕ → ℕ
pinned_first zero = 1
pinned_first (suc v) = 0

abbrev empty_snapshot : ℕ → Snapshot Bool
empty_snapshot v = record { version = v; segments = []; doc_count = 0; deleted_docs = false }

-- Four versions in a controller that holds two: version 0 is pinned, version 3 is the latest.
abbrev crowded : Controller Bool
crowded = record {
  versions = empty_snapshot 0 ∷ empty_snapshot 1 ∷ empty_snapshot 2 ∷ empty_snapshot 3 ∷ [];
  current_version = 4;
  max_versions = 2;
}

gc_runs : (gc pinned_first crowded).versions ≡ empty_snapshot 0 ∷ empty_snapshot 3 ∷ []
unfolding gc gc_old_versions_leased
gc_runs = refl

gc-keeps_pinned_example : In (empty_snapshot 0) (gc pinned_first crowded).versions
gc-keeps_pinned_example =
    gc-keeps_pinned pinned_first crowded (empty_snapshot 0) (inl refl) (inr (omega arith))

crowded-IsValid : IsValid crowded
crowded-IsValid = record { ordered = omega arith; below = omega arith }

abbrev segment : Segment
segment = record {
  id = 1;
  doc_count = 2;
  metadata = record { size_bytes = 10; min_doc_id = 1; max_doc_id = 2 };
}

current_snapshot-allocate_example :
    current_snapshot false (allocate crowded) ≡ default_snapshot false
current_snapshot-allocate_example = current_snapshot-allocate false crowded crowded-IsValid

abbrev first_world : World Bool
first_world = record { controller = new; pending = [] }

abbrev second_world : World Bool
second_world = record {
  controller = allocate new;
  pending = make_snapshot 0 (segment ∷ []) true ∷ [];
}

abbrev third_world : World Bool
third_world = record {
  controller = publish pinned_first (make_snapshot 0 (segment ∷ []) true) (allocate new);
  pending = [];
}

third_world-Reach : Reach third_world
unfolding new
third_world-Reach =
    next {w = second_world}
      (next {w = first_world} start (allocates first_world (segment ∷ []) true))
      (publishes pinned_first (allocate new) [] [] (make_snapshot 0 (segment ∷ []) true))

current_snapshot-quiescent_example :
    In (current_snapshot false third_world.controller) third_world.controller.versions
    × ((current_snapshot false third_world.controller).version + 1
        ≡ third_world.controller.current_version)
current_snapshot-quiescent_example =
    current_snapshot-quiescent false third_world third_world-Reach refl
      (unfold allocate publish new in omega arith)
