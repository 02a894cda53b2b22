-- ===== src/Mvcc/Publish.antt =====
-- Creating and reading snapshots (src/mvcc/controller.rs), alone and with other threads in between.
use drusdenx.Prelude.{
  ℕ, ◌+◌, ◌-◌, ◌<◌, ◌≡◌, ◌≢◌, inl, inr, refl, ap, sym, ◌∙◌, List, [], ◌∷◌, arith, All, In, none,
  some, All-In, All-weaken, lt_cases, lt→ltb, ==_self, ==_iff, eq_not-ltb, All-of_In, gt→not-==,
  le→not-ltb, lt→le,
}
use drusdenx.Storage.Segment.{Segment}
use drusdenx.Mvcc.{
  Snapshot, Controller, new, insert_version, get_version, gc, gc_old_versions_leased, allocate,
  make_snapshot, publish, create_snapshot, create_snapshot_with_deletes, default_snapshot,
  current_snapshot,
}
use drusdenx.Mvcc.Collect.{Ordered, gc-In, gc-Ordered, gc-keeps_pinned}

module _ {B : Type 0} where
  pub record IsValid (c : Controller B) : Type 0 where
    pub ordered : Ordered c.versions
    pub below : All (λ s. s.version < c.current_version) c.versions

  insert-All {κ} :
      (P : Snapshot B → Type κ) (s : Snapshot B) (versions : List (Snapshot B))
      → P s
      → All P versions
      → All P (insert_version s versions)
  unfolding insert_version
  insert-All P s [] p h = (p, tt)
  insert-All P s (t ∷ versions) p h = ground (arith, insert-All P s versions p h.1)

  insert-Ordered :
      (s : Snapshot B) (versions : List (Snapshot B))
      → Ordered versions
      → Ordered (insert_version s versions)
  unfolding insert_version
  insert-Ordered s [] h = (tt, tt)
  insert-Ordered s (t ∷ versions) h = elim (lt_cases s.version t.version) [
    | inl lt ↦
        rw (lt→ltb _ _ lt)
          ((lt, All-weaken (λ u. s.version < u.version) (λ u p. omega arith) versions h.0), h)
    | inr (inl gt) ↦
        rw (le→not-ltb _ _ (lt→le gt), gt→not-== _ _ gt)
          (insert-All (λ u. t.version < u.version) s versions gt h.0, insert-Ordered s versions h.1)
    | inr (inr eq) ↦ rw (eq_not-ltb _ _ eq, (==_iff _ _).1 eq) (rw eq h.0, h.1)
  ]

  pub In-insert_version :
      (s : Snapshot B) (versions : List (Snapshot B)) → In s (insert_version s versions)
  unfolding insert_version
  In-insert_version s [] = inl refl
  In-insert_version s (t ∷ versions) = grind (arith, In-insert_version s versions)

  -- Other versions stay where they are.
  pub insert-keeps :
      (s t : Snapshot B) (versions : List (Snapshot B))
      → t.version ≢ s.version
      → In t versions
      → In t (insert_version s versions)
  unfolding insert_version
  insert-keeps s t [] ne m = elim m [ ]
  insert-keeps s t (u ∷ versions) ne m = grind (arith, insert-keeps s t versions ne)

  get_version-In :
      (s : Snapshot B) (versions : List (Snapshot B))
      → Ordered versions
      → In s versions
      → get_version s.version versions ≡ some s
  unfolding get_version
  get_version-In s [] h m = elim m [ ]
  get_version-In s (t ∷ versions) h (inl e) =
      rw (ap (λ (u : Snapshot B). u.version) e, ==_self t.version, e)
  get_version-In s (t ∷ versions) h (inr m) =
      let above : t.version < s.version = All-In (λ u. t.version < u.version) s versions h.0 m in
      rw (gt→not-== _ _ above) (get_version-In s versions h.1 m)

  get_version_above :
      (v : ℕ) (versions : List (Snapshot B))
      → All (λ s. s.version < v) versions
      → get_version v versions ≡ none
  unfolding get_version
  get_version_above v [] h = refl
  get_version_above v (t ∷ versions) h = rw (gt→not-== _ _ h.0) (get_version_above v versions h.1)

  All-gc {κ} :
      (P : Snapshot B → Type κ) (held : ℕ → ℕ) (c : Controller B)
      → All P c.versions
      → All P (gc held c).versions
  All-gc P held c h = All-of_In P _ (λ s m. All-In P s c.versions h (gc-In held c s m))

  pub gc-IsValid : (held : ℕ → ℕ) (c : Controller B) → IsValid c → IsValid (gc held c)
  gc-IsValid held c v = record {
    ordered = gc-Ordered held c v.ordered;
    below = unfold gc in All-gc (λ s. s.version < c.current_version) held c v.below;
  }

  pub allocate-IsValid : (c : Controller B) → IsValid c → IsValid (allocate c)
  unfolding allocate
  allocate-IsValid c v = record {
    ordered = v.ordered;
    below = All-weaken _ (λ s h. omega arith) c.versions v.below;
  }

  -- The map with the snapshot in it, before its collection.
  abbrev pub stored : Snapshot B → Controller B → Controller B
  stored s c = record c { versions = insert_version s c.versions }

  stored-IsValid :
      (s : Snapshot B) (c : Controller B)
      → s.version < c.current_version
      → IsValid c
      → IsValid (stored s c)
  stored-IsValid s c h v = record {
    ordered = insert-Ordered s c.versions v.ordered;
    below = insert-All (λ t. t.version < c.current_version) s c.versions h v.below;
  }

  pub publish-gc :
      (held : ℕ → ℕ) (s : Snapshot B) (c : Controller B) → publish held s c ≡ gc held (stored s c)
  unfolding publish gc gc_old_versions_leased
  publish-gc held s c = refl

  pub publish-IsValid :
      (held : ℕ → ℕ) (s : Snapshot B) (c : Controller B)
      → s.version < c.current_version
      → IsValid c
      → IsValid (publish held s c)
  publish-IsValid held s c h v =
      rw (publish-gc held s c) (gc-IsValid held (stored s c) (stored-IsValid s c h v))

  pub current_snapshot-In :
      (empty : B) (s : Snapshot B) (c : Controller B)
      → IsValid c
      → In s c.versions
      → s.version ≡ c.current_version - 1
      → current_snapshot empty c ≡ s
  unfolding current_snapshot
  current_snapshot-In empty s c v m e =
      let found : get_version (c.current_version - 1) c.versions ≡ some s =
        ap (λ w. get_version w c.versions) (sym e) ∙ get_version-In s c.versions v.ordered m in
      rw (found, current_snapshot)

  current_snapshot-publish :
      (held : ℕ → ℕ) (empty : B) (s : Snapshot B) (c : Controller B)
      → IsValid c
      → s.version + 1 ≡ c.current_version
      → current_snapshot empty (publish held s c) ≡ s
  current_snapshot-publish held empty s c v e =
      let latest : s.version ≡ c.current_version - 1 = omega arith in
      rw (publish-gc held s c) (
        unfold gc in
        current_snapshot-In empty s (gc held (stored s c))
          (gc-IsValid held (stored s c) (stored-IsValid s c (omega arith) v))
          (gc-keeps_pinned held (stored s c) s (In-insert_version s c.versions) (inl latest))
          latest)

  -- With no other thread in between, a snapshot that is created is the current one, and the
  -- collection of garbage that creation ends with does not take it away.
  pub current_snapshot-create :
      (held : ℕ → ℕ) (empty deleted : B) (segments : List Segment) (c : Controller B)
      → IsValid c
      → let (c', s) = create_snapshot_with_deletes held c segments deleted in
        IsValid c'
        × (current_snapshot empty c' ≡ s)
        × (s.segments ≡ segments)
        × (s.deleted_docs ≡ deleted)
  unfolding create_snapshot_with_deletes
  current_snapshot-create held empty deleted segments c v =
      let s : Snapshot B = make_snapshot c.current_version segments deleted in
      (
        unfold allocate make_snapshot in
            publish-IsValid held s (allocate c) (omega arith) (allocate-IsValid c v),
        unfold allocate make_snapshot in
            current_snapshot-publish held empty s (allocate c) (allocate-IsValid c v) refl,
        unfold make_snapshot in refl,
        unfold make_snapshot in refl,
      )

  -- A new controller is valid and shows no segment.
  pub new-IsValid : IsValid (new {B = B})
  unfolding new
  new-IsValid = record { ordered = tt; below = tt }

  pub current_snapshot-new : (empty : B) → (current_snapshot empty new).segments ≡ []
  unfolding current_snapshot new get_version default_snapshot
  current_snapshot-new empty = refl

  pub create_snapshot_with_no_deletes :
      (held : ℕ → ℕ) (empty : B) (c : Controller B) (segments : List Segment)
      → create_snapshot held empty c segments ≡ create_snapshot_with_deletes held c segments empty
  unfolding create_snapshot
  create_snapshot_with_no_deletes held empty c segments = refl

  -- Between the allocation of a version number and the publication of its snapshot a reader gets the
  -- default snapshot, without a segment and without a deletion, whatever was committed before.
  pub current_snapshot-allocate :
      (empty : B) (c : Controller B)
      → IsValid c
      → current_snapshot empty (allocate c) ≡ default_snapshot empty
  unfolding current_snapshot allocate
  current_snapshot-allocate empty c v =
      let e : c.current_version + 1 - 1 ≡ c.current_version = omega arith in
      let absent : get_version (c.current_version + 1 - 1) c.versions ≡ none =
        ap (λ w. get_version w c.versions) e
        ∙ get_version_above c.current_version c.versions v.below in
      rw (absent, current_snapshot)
