-- ===== src/Reader/Pool.antt =====
-- src/reader/reader_pool.rs: the pool of readers with its two caches. A map is a list: that of readers in
-- ascending order of its keys, which are versions. `R` is the type of readers of segment files, and
-- `open_segment` opens one, or fails. The current snapshot is an argument. The index, which all readers
-- share, the vector of readers, which nothing fills, and the search of a reader are left out.
pub mod Caches
pub mod Reads
mod Tests
use drusdenx.Prelude.{
  ℕ, ◌+◌, ◌-◌, ◌/◌, List, [], ◌∷◌, ◌++◌, map, Option, none, some, Bool, not, ◌&&◌, ◌==◌, ltb,
  if◌then◌else◌, length, keep, take,
}
use drusdenx.Mvcc.{Snapshot}
use drusdenx.Storage.Segment.{Segment}

pub record IndexReader (B R : Type 0) : Type 0 where
  pub snapshot : Snapshot B
  pub segments : List R

pub record ReaderPool (B R : Type 0) : Type 0 where
  pub max_readers : ℕ
  pub reader_cache : List (ℕ × IndexReader B R)
  pub segment_reader_cache : List ((ℕ × ℕ) × R)
  pub segment_open_failures : ℕ

module _ {R : Type 0} where
  pub cached_segment : ℕ → ℕ → List ((ℕ × ℕ) × R) → Option R
  cached_segment v i [] = none
  cached_segment v i (((w, j), segment) ∷ cache) =
      if v == w && i == j then some segment else cached_segment v i cache

  abbrev pub pushed : List R → Option R → List R
  pushed readers none = readers
  pushed readers (some segment) = readers ++ segment ∷ []

module _ {B R : Type 0} where
  pub new : ℕ → ReaderPool B R
  new max_readers = record {
    max_readers = max_readers;
    reader_cache = [];
    segment_reader_cache = [];
    segment_open_failures = 0;
  }

  pub cached_reader : ℕ → List (ℕ × IndexReader B R) → Option (IndexReader B R)
  cached_reader v [] = none
  cached_reader v ((w, reader) ∷ cache) = if v == w then some reader else cached_reader v cache

  pub insert_reader : ℕ → IndexReader B R → List (ℕ × IndexReader B R) → List (ℕ × IndexReader B R)
  insert_reader v reader [] = (v, reader) ∷ []
  insert_reader v reader ((w, other) ∷ cache) =
      if ltb v w
      then (v, reader) ∷ (w, other) ∷ cache
      else if v == w
      then (v, reader) ∷ cache
      else (w, other) ∷ insert_reader v reader cache

  -- A segment's reader, from the cache or newly opened, and the pool after it. The key of a segment that
  -- is not cached is new to the cache.
  abbrev pub cached_or_opened :
      ℕ → ℕ → Option R → Option R → ReaderPool B R → Option R × ReaderPool B R
  cached_or_opened v i (some segment) opened pool = (some segment, pool)
  cached_or_opened v i none (some segment) pool = (
    some segment,
    record pool { segment_reader_cache = ((v, i), segment) ∷ pool.segment_reader_cache },
  )
  cached_or_opened v i none none pool =
      (none, record pool { segment_open_failures = pool.segment_open_failures + 1 })

module _ {B R : Type 0} (open_segment : ℕ → Option R) where
  pub segment_loop : ℕ → ℕ → List Segment → List R → ReaderPool B R → List R × ReaderPool B R
  unfolding cached_segment
  segment_loop v i [] readers pool = (readers, pool)
  segment_loop v i (segment ∷ segments) readers pool =
      let (reader, pool') =
        cached_or_opened v i (cached_segment v i pool.segment_reader_cache)
          (open_segment segment.id) pool in
      segment_loop v (i + 1) segments (pushed readers reader) pool'

  pub create_reader_for_snapshot : Snapshot B → ReaderPool B R → IndexReader B R × ReaderPool B R
  unfolding segment_loop
  create_reader_for_snapshot snapshot pool =
      let (segments, pool') = segment_loop snapshot.version 0 snapshot.segments [] pool in
      (record { snapshot = snapshot; segments = segments }, pool')

module _ {B R : Type 0} where
  pub cleanup_segment_readers : ℕ → ReaderPool B R → ReaderPool B R
  cleanup_segment_readers v pool = record pool {
    segment_reader_cache = keep (λ e. not (e.0.0 == v)) pool.segment_reader_cache;
  }

  -- The loop over the versions that are removed.
  pub remove_each : List ℕ → ReaderPool B R → ReaderPool B R
  unfolding cleanup_segment_readers
  remove_each [] pool = pool
  remove_each (v ∷ versions) pool = remove_each versions (
      cleanup_segment_readers v
        (record pool { reader_cache = keep (λ e. not (e.0 == v)) pool.reader_cache }))

  pub cleanup_old_readers : ReaderPool B R → ReaderPool B R
  unfolding remove_each
  cleanup_old_readers pool =
      let versions = map (λ e. e.0) pool.reader_cache in
      let keep_count = pool.max_readers / 2 in
      if ltb keep_count (length versions)
      then remove_each (take (length versions - keep_count) versions) pool
      else pool

  -- What `get_reader` does with a new reader.
  pub cache_reader : IndexReader B R → ReaderPool B R → ReaderPool B R
  unfolding insert_reader cleanup_old_readers
  cache_reader reader pool =
      let cached = record pool {
        reader_cache = insert_reader reader.snapshot.version reader pool.reader_cache;
      } in
      if ltb cached.max_readers (length cached.reader_cache)
      then cleanup_old_readers cached
      else cached

module _ {B R : Type 0} (open_segment : ℕ → Option R) where
  abbrev pub cached_or_created :
      Option (IndexReader B R) → Snapshot B → ReaderPool B R → IndexReader B R × ReaderPool B R
  cached_or_created (some reader) snapshot pool = (reader, pool)
  cached_or_created none snapshot pool =
      let (reader, pool') = create_reader_for_snapshot open_segment snapshot pool in
      (reader, cache_reader reader pool')

  -- `get_reader`, where `snapshot` is the current one.
  pub get_reader : Snapshot B → ReaderPool B R → IndexReader B R × ReaderPool B R
  unfolding cached_reader cache_reader create_reader_for_snapshot
  get_reader snapshot pool =
      cached_or_created (cached_reader snapshot.version pool.reader_cache) snapshot pool
