-- ===== src/Writer/Laws.antt =====
-- What the phases of a write session (src/writer/session.rs) hand on, and what its commit publishes.
use drusdenx.Prelude.{
  ℕ, ◌%◌, ◌^◌, ◌≡◌, refl, ◌∙◌, sym, ap, List, [], ◌∷◌, ◌++◌, map, Option, none, some, Bool, true,
  false, ◌||◌, ◌==◌, any, length,
}
use drusdenx.Storage.Segment.{Segment, Document}
use drusdenx.Storage.Bitmap.{Bitmap}
use drusdenx.Mvcc.{Snapshot, Controller, create_snapshot_with_deletes, current_snapshot}
use drusdenx.Mvcc.Publish.{IsValid, current_snapshot-create}
use drusdenx.Storage.Wal.{add_document_op}
use drusdenx.Writer.{
  Log, WriteSession, FlushedSession, append, add_document, add_documents, insert_all, commit, sync,
}

module _ {A : Type 0} where
  append_assoc : (xs ys zs : List A) → (xs ++ ys) ++ zs ≡ xs ++ (ys ++ zs)
  append_assoc [] ys zs = refl
  append_assoc (x ∷ xs) ys zs = ap (◌∷◌ x) (append_assoc xs ys zs)

  append_nil : (xs : List A) → xs ++ [] ≡ xs
  append_nil [] = refl
  append_nil (x ∷ xs) = ap (◌∷◌ x) (append_nil xs)

module _ {Fields : Type 0} where
  -- Adding documents logs them and hands them to the segment, both in their order, returns their ids,
  -- and leaves the pending deletes as they are.
  pub add_documents_lem :
      (docs : List (Document Fields)) (s : WriteSession Fields)
      → let (ids, s') = add_documents docs s in
        (ids ≡ map (λ d. d.id) docs)
        × (s'.wal.entries ≡ s.wal.entries ++ map (λ d. add_document_op d) docs)
        × (s'.segment_sink ≡ s.segment_sink ++ docs)
        × (s'.pending_deletes ≡ s.pending_deletes)
  unfolding add_documents add_document append
  add_documents_lem [] s =
      (refl, sym (append_nil s.wal.entries), sym (append_nil s.segment_sink), refl)
  add_documents_lem (doc ∷ docs) s =
      let (ids, log, sink, pending) = add_documents_lem docs (add_document doc s).1 in
      (
        ap (◌∷◌ doc.id) ids,
        log
            ∙ append_assoc s.wal.entries (add_document_op doc ∷ [])
                (map (λ d. add_document_op d) docs),
        sink ∙ append_assoc s.segment_sink (doc ∷ []) docs,
        pending,
      )

module _ (bitmap : Bitmap) where
  or_swap : (a b c : Bool) → a || (b || c) ≡ (b || a) || c
  or_swap true true c = refl
  or_swap true false c = refl
  or_swap false true c = refl
  or_swap false false c = refl

  contains-insert_all :
      (deleted : bitmap.Bits) (ids : List ℕ) (y : ℕ)
      → bitmap.contains (insert_all bitmap deleted ids) y
        ≡ any (λ id. id % 2 ^ 32 == y) ids || bitmap.contains deleted y
  unfolding insert_all
  contains-insert_all deleted [] y = refl
  contains-insert_all deleted (id ∷ ids) y =
      contains-insert_all (bitmap.insert deleted (id % 2 ^ 32)) ids y
      ∙ ap (λ c. any (λ id. id % 2 ^ 32 == y) ids || c)
          (bitmap.contains-insert deleted (id % 2 ^ 32) y)
      ∙ or_swap (any (λ id. id % 2 ^ 32 == y) ids) (id % 2 ^ 32 == y) (bitmap.contains deleted y)

  -- The controller is valid, and its current snapshot has the segments, the deletions and the version.
  abbrev pub Publishes : Controller bitmap.Bits → List Segment → bitmap.Bits → ℕ → Type 0
  Publishes c segments deleted version =
      IsValid c
      × ((current_snapshot bitmap.new c).segments ≡ segments)
      × ((current_snapshot bitmap.new c).deleted_docs ≡ deleted)
      × ((current_snapshot bitmap.new c).version ≡ version)

  create-Publishes :
      (held : ℕ → ℕ) (c : Controller bitmap.Bits) (segments : List Segment) (deleted : bitmap.Bits)
      → IsValid c
      → let (c', s) = create_snapshot_with_deletes held c segments deleted in
        Publishes c' segments deleted s.version
  create-Publishes held c segments deleted v =
      let (v', current, segs, dels) =
        current_snapshot-create held bitmap.new deleted segments c v in
      (
        v',
        ap (λ (s : Snapshot bitmap.Bits). s.segments) current ∙ segs,
        ap (λ (s : Snapshot bitmap.Bits). s.deleted_docs) current ∙ dels,
        ap (λ (s : Snapshot bitmap.Bits). s.version) current,
      )

  abbrev pub added : Option Segment → List Segment
  added none = []
  added (some seg) = seg ∷ []

  commit-Publishes :
      {Fields : Type 0} (held : ℕ → ℕ) (wal : Log Fields) (seg : Option Segment) (pending : List ℕ)
      (c : Controller bitmap.Bits)
      → IsValid c
      → let s : FlushedSession Fields = record {
        wal = wal;
        finished_segment = seg;
        pending_deletes = pending;
      } in
        let (r, (log, c')) = commit bitmap held s c in
        Publishes c'
          ((current_snapshot bitmap.new c).segments ++ added seg)
          (insert_all bitmap (current_snapshot bitmap.new c).deleted_docs pending)
          r.snapshot_version
        × (log.synced ≡ length log.entries)
  unfolding commit sync
  commit-Publishes held wal (some seg) pending c v = (create-Publishes held c _ _ v, refl)
  commit-Publishes held wal none [] c v =
      ((v, sym (append_nil _), unfold insert_all in refl, refl), refl)
  commit-Publishes held wal none (id ∷ ids) c v = (
    rw (append_nil ((current_snapshot bitmap.new c).segments))
        (create-Publishes held c (current_snapshot bitmap.new c).segments _ v),
    refl,
  )

  -- A commit on a valid controller, with no other thread in between, leaves the controller valid. The
  -- current snapshot then has the segments that were there, and the flushed one behind them if there
  -- is one; a document id is marked as deleted in it exactly when it was before or when a pending
  -- delete is equal to it, cut to 32 bits. The receipt names the version of that snapshot, and the
  -- whole log is synced.
  pub commit-current :
      {Fields : Type 0} (held : ℕ → ℕ) (s : FlushedSession Fields) (c : Controller bitmap.Bits)
      → IsValid c
      → let (r, (log, c')) = commit bitmap held s c in
        IsValid c'
        × ((current_snapshot bitmap.new c').segments
            ≡ (current_snapshot bitmap.new c).segments ++ added s.finished_segment)
        × ((y : ℕ)
            → bitmap.contains (current_snapshot bitmap.new c').deleted_docs y
              ≡ any (λ id. id % 2 ^ 32 == y) s.pending_deletes
                || bitmap.contains (current_snapshot bitmap.new c).deleted_docs y)
        × ((current_snapshot bitmap.new c').version ≡ r.snapshot_version)
        × (log.synced ≡ length log.entries)
  commit-current held s c v =
      let ((v', segs, dels, version), synced) =
        commit-Publishes held s.wal s.finished_segment s.pending_deletes c v in
      (
        v',
        segs,
        λ y.
            ap (λ bits. bitmap.contains bits y) dels
            ∙ contains-insert_all (current_snapshot bitmap.new c).deleted_docs s.pending_deletes y,
        version,
        synced,
      )
