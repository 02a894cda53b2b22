-- ===== src/Reader/Pool/Reads.antt =====
-- `get_reader` of src/reader/reader_pool.rs.
use drusdenx.Prelude.{
  ℕ, ◌+◌, ◌≤◌, ◌≡◌, refl, sym, ◌∙◌, List, [], ◌∷◌, Option, none, some, ◌==◌, ltb, arith, length,
  All, All-weaken, ◌⊎◌, In, inl, inr, Bool-cases, not-ltb→le, ==_iff,
}
use drusdenx.Prelude.Ascending.{Ascending}
use drusdenx.Mvcc.{Snapshot}
use drusdenx.Storage.Segment.{Segment}
use drusdenx.Reader.Pool.{
  IndexReader, ReaderPool, cached_reader, insert_reader, cached_segment, cached_or_opened, pushed,
  segment_loop, create_reader_for_snapshot, cache_reader, cached_or_created, get_reader,
}
use drusdenx.Reader.Pool.Caches.{
  versions, AreCaches, versions-insert_reader, All-insert_reader, cleanup_old_readers_lem,
}

module _ {B R : Type 0} where
  cached_or_opened-All :
      (P : (ℕ × ℕ) × R → Type 0) (v i : ℕ) (cached opened : Option R) (pool : ReaderPool B R)
      → ((r : R) → P ((v, i), r))
      → All P pool.segment_reader_cache
      → All P (cached_or_opened v i cached opened pool).1.segment_reader_cache
        × ((cached_or_opened v i cached opened pool).1.reader_cache ≡ pool.reader_cache)
        × ((cached_or_opened v i cached opened pool).1.max_readers ≡ pool.max_readers)
  cached_or_opened-All P v i (some r) opened pool f h = (h, refl, refl)
  cached_or_opened-All P v i none (some r) pool f h = ((f r, h), refl, refl)
  cached_or_opened-All P v i none none pool f h = (h, refl, refl)

module _ {B R : Type 0} (open_segment : ℕ → Option R) where
  segment_loop-All :
      (P : (ℕ × ℕ) × R → Type 0) (v i : ℕ) (segments : List Segment) (readers : List R)
      (pool : ReaderPool B R)
      → ((j : ℕ) (r : R) → P ((v, j), r))
      → All P pool.segment_reader_cache
      → All P (segment_loop open_segment v i segments readers pool).1.segment_reader_cache
        × ((segment_loop open_segment v i segments readers pool).1.reader_cache ≡ pool.reader_cache)
        × ((segment_loop open_segment v i segments readers pool).1.max_readers ≡ pool.max_readers)
  unfolding segment_loop
  segment_loop-All P v i [] readers pool f h = (h, refl, refl)
  segment_loop-All P v i (segment ∷ segments) readers pool f h =
      let cached = cached_segment v i pool.segment_reader_cache in
      let opened = open_segment segment.id in
      let (h', e, same) = cached_or_opened-All P v i cached opened pool (f i) h in
      let next = cached_or_opened v i cached opened pool in
      let (h'', e', same') =
        segment_loop-All P v (i + 1) segments (pushed readers next.0) next.1 f h' in
      (h'', e' ∙ e, same' ∙ same)

  -- A cached reader is one of its version.
  cached_reader-version :
      (v : ℕ) (cache : List (ℕ × IndexReader B R)) (reader : IndexReader B R)
      → All (λ e. e.1.snapshot.version ≡ e.0) cache
      → cached_reader v cache ≡ some reader
      → reader.snapshot.version ≡ v
  unfolding cached_reader
  cached_reader-version v [] reader h e = absurd (cc)
  cached_reader-version v ((w, other) ∷ cache) reader h e = elim (Bool-cases (v == w)) [
    | inl k ↦
        let found : some other ≡ some reader = rw k at e in
        let same : other ≡ reader = cc in rw (sym same) (h.0 ∙ sym ((==_iff v w).0 k))
    | inr k ↦
        let rest : cached_reader v cache ≡ some reader = rw k at e in
        cached_reader-version v cache reader h.1 rest
  ]

  -- Caching a new reader, where segments may be cached for its version too.
  cache_reader_lem :
      (reader : IndexReader B R) (pool : ReaderPool B R)
      → Ascending (versions pool.reader_cache)
      → All (λ e. e.1.snapshot.version ≡ e.0) pool.reader_cache
      → All
          (λ e. In e.0.0 (versions pool.reader_cache) ⊎ (e.0.0 ≡ reader.snapshot.version))
          pool.segment_reader_cache
      → AreCaches (cache_reader reader pool)
        × (length (cache_reader reader pool).reader_cache ≤ pool.max_readers)
        × ((cache_reader reader pool).max_readers ≡ pool.max_readers)
  unfolding cache_reader
  cache_reader_lem reader pool in_order of_version no_leak =
      let v = reader.snapshot.version in
      let (asc, here, still, above) = versions-insert_reader v reader pool.reader_cache in_order in
      let cached = record pool { reader_cache = insert_reader v reader pool.reader_cache } in
      let are : AreCaches cached = record {
        in_order = asc;
        of_version =
            All-insert_reader (λ e. e.1.snapshot.version ≡ e.0) v reader pool.reader_cache refl
              of_version;
        no_leak =
            All-weaken (λ e. In e.0.0 (versions (insert_reader v reader pool.reader_cache)))
              (λ e m. elim m [ inl k ↦ still e.0.0 k | inr k ↦ rw k here ])
              pool.segment_reader_cache no_leak;
      } in
      elim (Bool-cases (ltb pool.max_readers (length (insert_reader v reader pool.reader_cache)))) [
        | inl h ↦
            let (are', bound, same) = cleanup_old_readers_lem cached are in
            rw h (are', omega arith, same)
        | inr h ↦ rw h (are, not-ltb→le pool.max_readers (length cached.reader_cache) h, refl)
      ]

  -- For a pool that caches at most its maximum of readers, in the order of their versions, each for the
  -- version of its snapshot, and readers of segments only for these versions: `get_reader` returns a
  -- reader of the current snapshot's version, and leaves a pool of the same kind and maximum.
  pub get_reader-AreCaches :
      (snapshot : Snapshot B) (pool : ReaderPool B R)
      → AreCaches pool
      → length pool.reader_cache ≤ pool.max_readers
      → let after = get_reader open_segment snapshot pool in
        (after.0.snapshot.version ≡ snapshot.version)
        × AreCaches after.1
        × (length after.1.reader_cache ≤ after.1.max_readers)
        × (after.1.max_readers ≡ pool.max_readers)
  unfolding get_reader cache_reader create_reader_for_snapshot
  get_reader-AreCaches snapshot pool are bound =
      go (cached_reader snapshot.version pool.reader_cache) refl
    where
      go :
          (o : Option (IndexReader B R))
          → cached_reader snapshot.version pool.reader_cache ≡ o
          → let after = cached_or_created open_segment o snapshot pool in
            (after.0.snapshot.version ≡ snapshot.version)
            × AreCaches after.1
            × (length after.1.reader_cache ≤ after.1.max_readers)
            × (after.1.max_readers ≡ pool.max_readers)
      go (some reader) e = (
        cached_reader-version snapshot.version pool.reader_cache reader are.of_version e,
        are,
        bound,
        refl,
      )
      go none e =
          let (segments, e', same) =
            segment_loop-All
              (λ x. In x.0.0 (versions pool.reader_cache) ⊎ (x.0.0 ≡ snapshot.version))
              snapshot.version 0 snapshot.segments [] pool (λ j r. inr refl)
              (All-weaken (λ x. In x.0.0 (versions pool.reader_cache) ⊎ (x.0.0 ≡ snapshot.version))
                (λ x m. inl m) pool.segment_reader_cache are.no_leak) in
          let made = create_reader_for_snapshot open_segment snapshot pool in
          let (are', bound', same') =
            cache_reader_lem made.0 made.1 (rw e' are.in_order) (rw e' are.of_version)
              (rw e' segments) in
          (refl, are', omega arith, same' ∙ same)
