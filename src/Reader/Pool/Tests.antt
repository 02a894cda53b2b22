-- ===== src/Reader/Pool/Tests.antt =====
-- A pool that keeps two readers, when a third is asked for.
use drusdenx.Prelude.{ℕ, ◌≤◌, ◌≡◌, refl, [], ◌∷◌, some, map, arith, length, inl, inr}
use drusdenx.Mvcc.{Snapshot}
use drusdenx.Reader.Pool.{IndexReader, ReaderPool, get_reader}
use drusdenx.Reader.Pool.Caches.{AreCaches}
use drusdenx.Reader.Pool.Reads.{get_reader-AreCaches}

abbrev snapshot_at : ℕ → Snapshot Unit
snapshot_at v = record { version = v; segments = []; doc_count = 0; deleted_docs = tt }

abbrev reader_at : ℕ → ℕ × IndexReader Unit ℕ
reader_at v = (v, record { snapshot = snapshot_at v; segments = [] })

abbrev full_pool : ReaderPool Unit ℕ
full_pool = record {
  max_readers = 2;
  reader_cache = reader_at 3 ∷ reader_at 5 ∷ [];
  segment_reader_cache = ((3, 0), 30) ∷ ((5, 0), 50) ∷ [];
  segment_open_failures = 0;
}

full_pool-AreCaches : AreCaches full_pool
full_pool-AreCaches = record {
  in_order = ((omega arith, tt), (tt, tt));
  of_version = (refl, (refl, tt));
  no_leak = (inl refl, (inr (inl refl), tt));
}

third_reader :
    let after = get_reader (λ id. some id) (snapshot_at 8) full_pool in
    (map (λ e. e.0) after.1.reader_cache ≡ 8 ∷ []) × (after.1.segment_reader_cache ≡ [])
unfolding get_reader
third_reader = (refl, refl)

get_reader-AreCaches_example :
    let after = get_reader (λ id. some id) (snapshot_at 8) full_pool in
    (after.0.snapshot.version ≡ 8)
    × AreCaches after.1
    × (length after.1.reader_cache ≤ after.1.max_readers)
    × (after.1.max_readers ≡ 2)
get_reader-AreCaches_example =
    get_reader-AreCaches (λ id. some id) (snapshot_at 8) full_pool full_pool-AreCaches (omega arith)
