-- ===== src/Mvcc/Threads.antt =====
-- Threads that create snapshots and collect garbage in any order (src/mvcc/controller.rs). The two
-- halves of `create_snapshot_with_deletes` are steps of their own.
use drusdenx.Prelude.{
  ℕ, ◌+◌, ◌-◌, ◌<◌, ◌≡◌, ◌⊎◌, inl, inr, refl, List, [], ◌∷◌, ◌++◌, arith, All, In, All-remove,
  All-weaken, In-remove, In-append_right, sym, ◌∙◌, All-In,
}
use native.Mathlib.Decide.{ℕ_discrete}
use drusdenx.Storage.Segment.{Segment}
use drusdenx.Mvcc.{
  Snapshot, Controller, new, gc, allocate, make_snapshot, publish, current_snapshot,
}
use drusdenx.Mvcc.Collect.{gc-keeps_pinned}
use drusdenx.Mvcc.Publish.{
  IsValid, allocate-IsValid, gc-IsValid, publish-IsValid, current_snapshot-In, stored, publish-gc,
  In-insert_version, insert-keeps,
}

-- The controller, and the snapshots that have a version number and are not yet published.
pub record World (B : Type 0) : Type 0 where
  pub controller : Controller B
  pub pending : List (Snapshot B)

-- `publishes` may take the pending snapshots in any order.
pub data Step {B : Type 0} : World B → World B → Type 0 where
  allocates :
      (w : World B) (segments : List Segment) (deleted : B)
      → Step w (record {
        controller = allocate w.controller;
        pending = make_snapshot w.controller.current_version segments deleted ∷ w.pending;
      })
  publishes :
      (held : ℕ → ℕ) (c : Controller B) (front back : List (Snapshot B)) (s : Snapshot B)
      → Step
          (record { controller = c; pending = front ++ s ∷ back })
          (record { controller = publish held s c; pending = front ++ back })
  collects :
      (held : ℕ → ℕ) (w : World B)
      → Step w (record { controller = gc held w.controller; pending = w.pending })

pub data Reach {B : Type 0} : World B → Type 0 where
  start : Reach (record { controller = new; pending = [] })
  next : {w u : World B} → Reach w → Step w u → Reach u

-- Some snapshot of the list has the version.
abbrev pub Has : {B : Type 0} → ℕ → List (Snapshot B) → Type 0
Has {B} v list = (s : Snapshot B) × In s list × (s.version ≡ v)

-- The newest version number belongs to a snapshot that is stored or about to be.
record IsSound {B : Type 0} (w : World B) : Type 0 where
  valid : IsValid w.controller
  fresh : All (λ s. s.version < w.controller.current_version) w.pending
  newest :
      (w.controller.current_version ≡ 0)
      ⊎ (Has (w.controller.current_version - 1) w.pending
          ⊎ Has (w.controller.current_version - 1) w.controller.versions)

module _ {B : Type 0} where
  In-middle : (s : Snapshot B) (front back : List (Snapshot B)) → In s (front ++ s ∷ back)
  In-middle s front back = In-append_right s front (s ∷ back) (inl refl)

  gc-newest :
      (held : ℕ → ℕ) (c : Controller B)
      → Has (c.current_version - 1) c.versions
      → Has (c.current_version - 1) (gc held c).versions
  gc-newest held c (t, m, e) = (t, gc-keeps_pinned held c t m (inl e), e)

  publish-newest :
      (held : ℕ → ℕ) (c : Controller B) (front back : List (Snapshot B)) (s : Snapshot B)
      → (c.current_version ≡ 0)
        ⊎ (Has (c.current_version - 1) (front ++ s ∷ back) ⊎ Has (c.current_version - 1) c.versions)
      → (c.current_version ≡ 0)
        ⊎ (Has (c.current_version - 1) (front ++ back)
            ⊎ Has (c.current_version - 1) (publish held s c).versions)
  publish-newest held c front back s (inl e) = inl e
  publish-newest held c front back s (inr h) = elim (ℕ_discrete s.version (c.current_version - 1)) [
    | yes e ↦ inr (
        inr (
          rw (publish-gc held s c)
            (gc-newest held (stored s c) (s, In-insert_version s c.versions, e))))
    | no ne ↦ elim h [
      | inl (t, m, e) ↦ inr (inl (t, In-remove t s front back (λ same. ne (rw (← same) e)) m, e))
      | inr (t, m, e) ↦ inr (
          inr (
            rw (publish-gc held s c) (
              gc-newest held (stored s c)
                (t, insert-keeps s t c.versions (λ same. ne (sym same ∙ e)) m, e))))
    ]
  ]

  Step-IsSound : {w u : World B} → Step w u → IsSound w → IsSound u
  Step-IsSound (allocates w segments deleted) v = record {
    valid = allocate-IsValid w.controller v.valid;
    fresh =
        unfold allocate make_snapshot in
        (omega arith, All-weaken _ (λ s h. omega arith) w.pending v.fresh);
    newest =
        unfold allocate make_snapshot in
        inr (
          inl (make_snapshot w.controller.current_version segments deleted, inl refl, omega arith));
  }
  Step-IsSound (publishes held c front back s) v =
      let below : s.version < c.current_version =
        All-In (λ t. t.version < c.current_version) s (front ++ s ∷ back) v.fresh
          (In-middle s front back) in
      record {
        valid = publish-IsValid held s c below v.valid;
        fresh =
            unfold publish in All-remove (λ t. t.version < c.current_version) front back s v.fresh;
        newest = unfold publish in publish-newest held c front back s v.newest;
      }
  Step-IsSound (collects held w) v = record {
    valid = gc-IsValid held w.controller v.valid;
    fresh = unfold gc in v.fresh;
    newest =
        unfold gc in
        elim v.newest [
          | inl e ↦ inl e
          | inr (inl p) ↦ inr (inl p)
          | inr (inr m) ↦ inr (inr (gc-newest held w.controller m))
        ];
  }

  Reach-IsSound : {w : World B} → Reach w → IsSound w
  unfolding new
  Reach-IsSound start = record {
    valid = record { ordered = tt; below = tt };
    fresh = tt;
    newest = inl refl;
  }
  Reach-IsSound (next r step) = Step-IsSound step (Reach-IsSound r)

  -- However threads interleave, once a version number has been given out and no snapshot is waiting
  -- to be published, the current snapshot is a stored one and has the newest version number.
  pub current_snapshot-quiescent :
      (empty : B) (w : World B)
      → Reach w
      → w.pending ≡ []
      → 0 < w.controller.current_version
      → In (current_snapshot empty w.controller) w.controller.versions
        × ((current_snapshot empty w.controller).version + 1 ≡ w.controller.current_version)
  current_snapshot-quiescent empty w r none_pending some_version =
      let v = Reach-IsSound r in
      elim v.newest [
        | inl e ↦ absurd (omega arith)
        | inr (inl (s, m, e)) ↦ absurd (rw none_pending at m)
        | inr (inr (s, m, e)) ↦
            rw (current_snapshot-In empty s w.controller v.valid m e) (m, omega arith)
      ]
