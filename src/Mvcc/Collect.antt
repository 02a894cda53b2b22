-- ===== src/Mvcc/Collect.antt =====
-- What the garbage collection of src/mvcc/controller.rs removes and what it leaves.
use drusdenx.Prelude.{
  ℕ, zero, suc, ◌-◌, ◌≤◌, ◌<◌, ◌≡◌, ◌⊎◌, inl, inr, refl, List, [], ◌∷◌, arith, true, false, ltb,
  length, length-append, ◌++◌, ap, All, In, In-remove, In-insert, All-remove, All-weaken, none,
  some, Bool-cases, Option-cases,
}
use drusdenx.Mvcc.{Snapshot, Controller, stays, evict, gc_loop, gc_old_versions_leased, gc}

-- Ordered by version, as the keys of a map are.
abbrev pub Ordered : {B : Type 0} → List (Snapshot B) → Type 0
Ordered [] = Unit
Ordered (s ∷ versions) = All (λ t. s.version < t.version) versions × Ordered versions

module _ {B : Type 0} (held : ℕ → ℕ) (latest : ℕ) where
  abbrev Stays : Snapshot B → Type 0
  Stays s = stays held latest s ≡ true

  -- A pass takes out one version that may go, and leaves the rest in place.
  evict_splits :
      (versions rest : List (Snapshot B))
      → evict held latest versions ≡ some rest
      → (front : List (Snapshot B)) × (s : Snapshot B) × (back : List (Snapshot B)) × (versions
          ≡ front ++ s ∷ back)
        × (rest ≡ front ++ back)
        × (stays held latest s ≡ false)
  unfolding evict
  evict_splits [] rest e = cc
  evict_splits (s ∷ versions) rest e = elim (Bool-cases (stays held latest s)) [
    | inr go ↦ ([], s, versions, refl, ground arith, go)
    | inl stay ↦ elim (Option-cases (evict held latest versions)) [
      | inl n ↦ absurd (ground arith)
      | inr (more, m) ↦
          let (front, t, back, at_t, left, go) = evict_splits versions more m in
          (s ∷ front, t, back, ap (◌∷◌ s) at_t, ground arith, go)
    ]
  ]

  evict-none :
      (versions : List (Snapshot B)) → evict held latest versions ≡ none → All Stays versions
  unfolding evict
  evict-none [] e = tt
  evict-none (s ∷ versions) e = elim (Bool-cases (stays held latest s)) [
    | inr go ↦ absurd (ground arith)
    | inl stay ↦ elim (Option-cases (evict held latest versions)) [
      | inl n ↦ (stay, evict-none versions n)
      | inr (more, m) ↦ absurd (ground arith)
    ]
  ]

  module _ (max_versions : ℕ) where
    -- What every pass keeps, the whole collection keeps.
    gc_loop_induction {κ} :
        (P : List (Snapshot B) → Type κ)
        → ((front back : List (Snapshot B)) (s : Snapshot B)
            → stays held latest s ≡ false
            → P (front ++ s ∷ back)
            → P (front ++ back))
        → (fuel : ℕ) (versions : List (Snapshot B)) → P versions
        → P (gc_loop fuel held latest max_versions versions)
    unfolding gc_loop
    gc_loop_induction P step zero versions h = h
    gc_loop_induction P step (suc fuel) versions h =
        elim (Bool-cases (ltb max_versions (length versions))) [
          | inr small ↦ rw small h
          | inl big ↦ elim (Option-cases (evict held latest versions)) [
            | inl n ↦ rw (big, n, gc_loop) h
            | inr (rest, m) ↦
                let (front, s, back, at_s, left, go) = evict_splits versions rest m in
                rw (big, m, gc_loop)
                  (gc_loop_induction P step fuel rest
                    (rw left (step front back s go (rw at_s at h))))
          ]
        ]

    gc_loop_done :
        (fuel : ℕ) (versions : List (Snapshot B))
        → length versions ≤ fuel
        → let left = gc_loop fuel held latest max_versions versions in
          (length left ≤ max_versions) ⊎ All Stays left
    unfolding gc_loop
    gc_loop_done zero versions h = inl (omega arith)
    gc_loop_done (suc fuel) versions h = elim (Bool-cases (ltb max_versions (length versions))) [
      | inr small ↦ rw small (inl (ground arith))
      | inl big ↦ elim (Option-cases (evict held latest versions)) [
        | inl n ↦ rw (big, n, gc_loop) (inr (evict-none versions n))
        | inr (rest, m) ↦
            let (front, s, back, at_s, left, go) = evict_splits versions rest m in
            rw (big, m, gc_loop)
              (gc_loop_done fuel rest (
                omega (
                  arith,
                  ap length at_s,
                  ap length left,
                  length-append front (s ∷ back),
                  length-append front back,
                )))
      ]
    ]

Ordered-remove :
    {B : Type 0} (front back : List (Snapshot B)) (s : Snapshot B)
    → Ordered (front ++ s ∷ back)
    → Ordered (front ++ back)
Ordered-remove [] back s h = h.1
Ordered-remove (t ∷ front) back s h =
    (All-remove (λ u. t.version < u.version) front back s h.0, Ordered-remove front back s h.1)

module _ {B : Type 0} (held : ℕ → ℕ) (c : Controller B) where
  -- A version that is the latest, or of which a snapshot is alive elsewhere, is not collected.
  pub gc-keeps_pinned :
      (s : Snapshot B)
      → In s c.versions
      → (s.version ≡ c.current_version - 1) ⊎ (0 < held s.version)
      → In s (gc held c).versions
  unfolding gc gc_old_versions_leased
  gc-keeps_pinned s there why =
      let stay : stays held (c.current_version - 1) s ≡ true = unfold stays in ground arith in
      gc_loop_induction held (c.current_version - 1) c.max_versions (In s)
        (λ front back t go m. In-remove s t front back (λ same. ground arith) m) (length c.versions)
        c.versions there

  -- The collection invents nothing, and keeps the order.
  pub gc-In : (s : Snapshot B) → In s (gc held c).versions → In s c.versions
  unfolding gc gc_old_versions_leased
  gc-In s =
      gc_loop_induction held (c.current_version - 1) c.max_versions
        (λ left. In s left → In s c.versions)
        (λ front back t go h m. h (In-insert s t front back m)) (length c.versions) c.versions
        (λ m. m)

  pub gc-Ordered : Ordered c.versions → Ordered (gc held c).versions
  unfolding gc gc_old_versions_leased
  gc-Ordered =
      gc_loop_induction held (c.current_version - 1) c.max_versions Ordered
        (λ front back t go h. Ordered-remove front back t h) (length c.versions) c.versions

  -- The collection ends with at most `max_versions` versions, or with none that could still go:
  -- each one left is the latest or is held from outside.
  pub gc_bounded :
      (length (gc held c).versions ≤ c.max_versions)
      ⊎ All (λ s. (s.version ≡ c.current_version - 1) ⊎ (0 < held s.version)) (gc held c).versions
  unfolding gc gc_old_versions_leased
  gc_bounded =
      elim (gc_loop_done held (c.current_version - 1) c.max_versions (length c.versions) c.versions
        (omega arith)) [
          | inl small ↦ inl small
          | inr all_stay ↦ inr (All-weaken _ (λ s h. reason s h) _ all_stay)
        ]
    where
      reason :
          (s : Snapshot B)
          → stays held (c.current_version - 1) s ≡ true
          → (s.version ≡ c.current_version - 1) ⊎ (0 < held s.version)
      reason s h = unfold stays in grind arith
