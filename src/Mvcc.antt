-- ===== src/Mvcc.antt =====
-- src/mvcc/controller.rs: versions of the index and their garbage collection. The map of versions is
-- kept in the order of its keys. A lease's count of strong references, beyond the one of the stored
-- snapshot, is the number `held v` of snapshots of version v that are alive elsewhere; it belongs to
-- the threads around the controller, and is an argument. The lease map has the keys of the versions
-- map, and is left out, as are time stamps and `active_txns`, which nothing reads.
pub mod Collect
pub mod Publish
pub mod Threads
mod Tests
use drusdenx.Prelude.{
  ℕ, zero, suc, ◌+◌, ◌-◌, List, [], ◌∷◌, ◌++◌, map, Option, none, some, Bool, true, false, ◌||◌,
  ltb, leb, ◌==◌, if◌then◌else◌, length,
}
use mathlib.Core.Option
use drusdenx.Storage.Segment.{Segment}

-- `B` is the type of deleted-document bitmaps.
pub record Snapshot (B : Type 0) : Type 0 where
  pub version : ℕ
  pub segments : List Segment
  pub doc_count : ℕ
  pub deleted_docs : B

pub record Controller (B : Type 0) : Type 0 where
  pub versions : List (Snapshot B)
  pub current_version : ℕ
  pub max_versions : ℕ

sum_docs : List Segment → ℕ
sum_docs [] = 0
sum_docs (s ∷ segments) = s.doc_count + sum_docs segments

module _ {B : Type 0} where
  pub new : Controller B
  new = record { versions = []; current_version = 0; max_versions = 100 }

  -- `BTreeMap::insert`.
  pub insert_version : Snapshot B → List (Snapshot B) → List (Snapshot B)
  insert_version s [] = s ∷ []
  insert_version s (t ∷ versions) =
      if ltb s.version t.version
      then s ∷ t ∷ versions
      else if s.version == t.version
      then s ∷ versions
      else t ∷ insert_version s versions

  -- `BTreeMap::get`.
  pub get_version : ℕ → List (Snapshot B) → Option (Snapshot B)
  get_version v [] = none
  get_version v (t ∷ versions) = if v == t.version then some t else get_version v versions

  -- A version stays if it is the latest, or if it is pinned from outside.
  pub stays : (ℕ → ℕ) → ℕ → Snapshot B → Bool
  stays held latest s = s.version == latest || ltb 1 (held s.version + 1)

  -- One pass over the keys: the first version that may go, taken out.
  evict : (ℕ → ℕ) → ℕ → List (Snapshot B) → Option (List (Snapshot B))
  unfolding stays
  evict held latest [] = none
  evict held latest (s ∷ versions) =
      if stays held latest s
      then Option.map (λ rest. s ∷ rest) (evict held latest versions)
      else some versions

  -- The `while` of `gc_old_versions_leased`. Each round takes one version out.
  gc_loop : ℕ → (ℕ → ℕ) → ℕ → ℕ → List (Snapshot B) → List (Snapshot B)
  gc_loop zero held latest max_versions versions = versions
  gc_loop (suc fuel) held latest max_versions versions =
      if ltb max_versions (length versions)
      then elim (evict held latest versions) [
        | none ↦ versions
        | some rest ↦ gc_loop fuel held latest max_versions rest
      ]
      else versions

  pub gc_old_versions_leased : (ℕ → ℕ) → Controller B → List (Snapshot B) → List (Snapshot B)
  unfolding gc_loop evict
  gc_old_versions_leased held c versions =
      gc_loop (length versions) held (c.current_version - 1) c.max_versions versions

  pub gc : (ℕ → ℕ) → Controller B → Controller B
  gc held c = record c { versions = gc_old_versions_leased held c c.versions }

  -- `create_snapshot_with_deletes` takes its version number first, and stores the snapshot under the
  -- lock of the map later; other threads can run in between.
  pub allocate : Controller B → Controller B
  allocate c = record c { current_version = c.current_version + 1 }

  pub make_snapshot : ℕ → List Segment → B → Snapshot B
  unfolding sum_docs
  make_snapshot version segments deleted = record {
    version = version;
    segments = segments;
    doc_count = sum_docs segments;
    deleted_docs = deleted;
  }

  pub publish : (ℕ → ℕ) → Snapshot B → Controller B → Controller B
  publish held s c = record c {
    versions = gc_old_versions_leased held c (insert_version s c.versions);
  }

  pub create_snapshot_with_deletes :
      (ℕ → ℕ) → Controller B → List Segment → B → Controller B × Snapshot B
  unfolding allocate make_snapshot publish
  create_snapshot_with_deletes held c segments deleted =
      let s = make_snapshot c.current_version segments deleted in (publish held s (allocate c), s)

  -- `create_snapshot` gives no deletions along: `empty` is the empty bitmap.
  pub create_snapshot : (ℕ → ℕ) → B → Controller B → List Segment → Controller B × Snapshot B
  unfolding create_snapshot_with_deletes
  create_snapshot held empty c segments = create_snapshot_with_deletes held c segments empty

  -- `Snapshot::default`, over the empty bitmap.
  pub default_snapshot : B → Snapshot B
  default_snapshot empty = record {
    version = 0;
    segments = [];
    doc_count = 0;
    deleted_docs = empty;
  }

  pub current_snapshot : B → Controller B → Snapshot B
  unfolding get_version default_snapshot
  current_snapshot empty c = elim (get_version (c.current_version - 1) c.versions) [
    | some s ↦ s
    | none ↦ default_snapshot empty
  ]
