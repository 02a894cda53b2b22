-- ===== src/Reader/Pool/Caches.antt =====
-- The caches of the pool in src/reader/reader_pool.rs: the order of the cached readers, and what a
-- removal of old versions leaves.
use drusdenx.Prelude.{
  ℕ, zero, suc, ◌+◌, ◌-◌, ◌/◌, ◌≤◌, ◌<◌, ◌≡◌, refl, sym, ap, ◌∙◌, List, [], ◌∷◌, map, false, not,
  ◌==◌, ltb, arith, length, length-map, length-drop, keep, take, drop, All, In, inl, inr,
  Bool-cases, lt_cases, lt→ltb, le→not-ltb, lt→le, gt→not-==, eq_not-ltb, not-ltb→le, ==_iff,
  ==_self,
}
use drusdenx.Prelude.Ascending.{Ascending, All-map}
use drusdenx.Reader.Pool.{
  IndexReader, ReaderPool, insert_reader, cleanup_segment_readers, remove_each, cleanup_old_readers,
}

module _ {R : Type 0} where
  keep-no_leak :
      (v : ℕ) (vs : List ℕ) (segments : List ((ℕ × ℕ) × R))
      → All (λ e. In e.0.0 (v ∷ vs)) segments
      → All (λ e. In e.0.0 vs) (keep (λ e. not (e.0.0 == v)) segments)
  keep-no_leak v vs [] h = tt
  keep-no_leak v vs (((w, i), segment) ∷ segments) h = elim (Bool-cases (w == v)) [
    | inl e ↦ rw e (keep-no_leak v vs segments h.1)
    | inr e ↦ rw e (other e h.0, keep-no_leak v vs segments h.1)
  ]
    where
      other : (w == v) ≡ false → In w (v ∷ vs) → In w vs
      other e (inl same) = let k = (==_iff w v).1 same in absurd (cc)
      other e (inr m) = m

module _ {B R : Type 0} where
  abbrev pub versions : List (ℕ × IndexReader B R) → List ℕ
  versions = map (λ e. e.0)

  -- The cached readers are in order, each for the version of its snapshot, and a segment's reader is
  -- cached only for a version that has a reader.
  pub record AreCaches (pool : ReaderPool B R) : Type 0 where
    pub in_order : Ascending (versions pool.reader_cache)
    pub of_version : All (λ e. e.1.snapshot.version ≡ e.0) pool.reader_cache
    pub no_leak : All (λ e. In e.0.0 (versions pool.reader_cache)) pool.segment_reader_cache

  pub versions-insert_reader :
      (v : ℕ) (reader : IndexReader B R) (cache : List (ℕ × IndexReader B R))
      → Ascending (versions cache)
      → Ascending (versions (insert_reader v reader cache))
        × In v (versions (insert_reader v reader cache))
        × ((w : ℕ) → In w (versions cache) → In w (versions (insert_reader v reader cache)))
        × ((w : ℕ)
            → w < v
            → All (λ u. w < u) (versions cache)
            → All (λ u. w < u) (versions (insert_reader v reader cache)))
  unfolding insert_reader
  versions-insert_reader v reader [] h = ((tt, tt), inl refl, λ w m. inr m, λ w lt hs. (lt, tt))
  versions-insert_reader v reader ((u, other) ∷ cache) h = elim (lt_cases v u) [
    | inl k ↦ rw (lt→ltb v u k) (
      ((k, All-map (versions cache) (λ w q. omega arith) h.0), h),
      inl refl,
      λ w m. inr m,
      λ w lt hs. (lt, hs),
    )
    | inr (inl k) ↦
        let (asc, here, still, above) = versions-insert_reader v reader cache h.1 in
        rw (le→not-ltb v u (lt→le k), gt→not-== v u k)
          (
            (above u k h.0, asc),
            inr here,
            λ w m. elim m [ inl e ↦ inl e | inr n ↦ inr (still w n) ],
            λ w lt hs. (hs.0, above w lt hs.1),
          )
    | inr (inr e) ↦
        rw (eq_not-ltb v u e, (==_iff v u).1 e)
          (
            (All-map (versions cache) (λ w q. omega arith) h.0, h.1),
            inl refl,
            λ w m. elim m [ inl e' ↦ inl (e' ∙ sym e) | inr n ↦ inr n ],
            λ w lt hs. (lt, hs.1),
          )
  ]

  pub All-insert_reader :
      (P : ℕ × IndexReader B R → Type 0) (v : ℕ) (reader : IndexReader B R)
      (cache : List (ℕ × IndexReader B R))
      → P (v, reader)
      → All P cache
      → All P (insert_reader v reader cache)
  unfolding insert_reader
  All-insert_reader P v reader [] h hs = (h, tt)
  All-insert_reader P v reader ((u, other) ∷ cache) h hs = elim (Bool-cases (ltb v u)) [
    | inl a ↦ rw a (h, hs)
    | inr a ↦ elim (Bool-cases (v == u)) [
      | inl b ↦ rw (a, b) (h, hs.1)
      | inr b ↦ rw (a, b) (hs.0, All-insert_reader P v reader cache h hs.1)
    ]
  ]

  length-insert_reader :
      (v : ℕ) (reader : IndexReader B R) (cache : List (ℕ × IndexReader B R))
      → length (insert_reader v reader cache) ≤ length cache + 1
  unfolding insert_reader
  length-insert_reader v reader [] = omega arith
  length-insert_reader v reader ((u, other) ∷ cache) =
      ground (arith, length-insert_reader v reader cache)

  -- One round of the loop that removes versions.
  removed : ℕ → ReaderPool B R → ReaderPool B R
  unfolding cleanup_segment_readers
  removed v pool =
      cleanup_segment_readers v
        (record pool { reader_cache = keep (λ e. not (e.0 == v)) pool.reader_cache })

  keep-above :
      (v : ℕ) (cache : List (ℕ × IndexReader B R))
      → All (λ w. v < w) (versions cache)
      → keep (λ e. not (e.0 == v)) cache ≡ cache
  keep-above v [] h = refl
  keep-above v ((w, reader) ∷ cache) h =
      rw (gt→not-== w v h.0) (ap (λ c. (w, reader) ∷ c) (keep-above v cache h.1))

  removed-first :
      (v : ℕ) (reader : IndexReader B R) (cache : List (ℕ × IndexReader B R))
      (pool : ReaderPool B R)
      → pool.reader_cache ≡ (v, reader) ∷ cache
      → AreCaches pool
      → AreCaches (removed v pool)
        × ((removed v pool).reader_cache ≡ cache)
        × ((removed v pool).max_readers ≡ pool.max_readers)
  unfolding removed cleanup_segment_readers
  removed-first v reader cache pool e are =
      let h : Ascending (versions ((v, reader) ∷ cache)) = rw e at are.in_order in
      let of_version : All (λ x. x.1.snapshot.version ≡ x.0) ((v, reader) ∷ cache) =
        rw e at are.of_version in
      let no_leak : All (λ x. In x.0.0 (v ∷ versions cache)) pool.segment_reader_cache =
        rw e at are.no_leak in
      let left : keep (λ x. not (x.0 == v)) pool.reader_cache ≡ cache =
        rw (e, ==_self v) (keep-above v cache h.0) in
      (
        record {
          in_order = rw left h.1;
          of_version = rw left of_version.1;
          no_leak = rw left (keep-no_leak v (versions cache) pool.segment_reader_cache no_leak);
        },
        left,
        refl,
      )

  remove_each-take :
      (n : ℕ) (cache : List (ℕ × IndexReader B R)) (pool : ReaderPool B R)
      → pool.reader_cache ≡ cache
      → AreCaches pool
      → AreCaches (remove_each (take n (versions cache)) pool)
        × ((remove_each (take n (versions cache)) pool).reader_cache ≡ drop n cache)
        × ((remove_each (take n (versions cache)) pool).max_readers ≡ pool.max_readers)
  unfolding remove_each removed
  remove_each-take zero cache pool e are = (are, e, refl)
  remove_each-take (suc n) [] pool e are = (are, e, refl)
  remove_each-take (suc n) ((v, reader) ∷ cache) pool e are =
      let (are', e', same) = removed-first v reader cache pool e are in
      let (are'', e'', same') = remove_each-take n cache (removed v pool) e' are' in
      (are'', e'', same' ∙ same)

  pub cleanup_old_readers_lem :
      (pool : ReaderPool B R)
      → AreCaches pool
      → AreCaches (cleanup_old_readers pool)
        × (length (cleanup_old_readers pool).reader_cache ≤ pool.max_readers / 2)
        × ((cleanup_old_readers pool).max_readers ≡ pool.max_readers)
  unfolding cleanup_old_readers
  cleanup_old_readers_lem pool are =
      let vs = versions pool.reader_cache in
      let half = pool.max_readers / 2 in
      let count = length-map pool.reader_cache (λ e. e.0) in
      elim (Bool-cases (ltb half (length vs))) [
        | inl h ↦
            let (are', e, same) =
              remove_each-take (length vs - half) pool.reader_cache pool refl are in
            rw h (
              are',
              rw e (omega (arith, count, length-drop pool.reader_cache (length vs - half))),
              same,
            )
        | inr h ↦ rw h (are, omega (arith, count, not-ltb→le half (length vs) h), refl)
      ]
