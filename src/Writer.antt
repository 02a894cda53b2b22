-- ===== src/Writer.antt =====
-- src/writer/session.rs: a write session in its three phases, each a type of its own. A call takes the
-- phase that it consumes and gives the next one. The log is the list of its operations, with how many
-- of them `sync` has made durable; the sink holds the documents written to it, and `finish` is an
-- argument that makes a segment of them. Both are trait objects in the source: that `append` and
-- `write_document` succeed is the case that is modelled.
mod Laws
mod Tests
pub mod Index
pub mod Batch
use drusdenx.Prelude.{
  ℕ, zero, suc, ◌+◌, ◌*◌, ◌==◌, ◌%◌, ◌^◌, List, [], ◌∷◌, ◌++◌, map, Option, none, some, Bool, true,
  false, is_empty, length, ltb, if◌then◌else◌,
}
use drusdenx.Storage.Segment.{Segment, Document}
use drusdenx.Storage.Bitmap.{Bitmap}
use drusdenx.Storage.Wal.{Operation, add_document_op, delete_document_op, commit_op}
use drusdenx.Mvcc.{Snapshot, Controller, create_snapshot_with_deletes, current_snapshot}

-- `position` counts the bytes of the file, and `entry_size` is the length of each entry, which bincode
-- gives.
pub record Log (Fields : Type 0) : Type 0 where
  pub entries : List (Operation Fields)
  pub synced : ℕ
  pub position : ℕ
  pub entry_size : ℕ → ℕ

pub record WriteSession (Fields : Type 0) : Type 0 where
  pub wal : Log Fields
  pub segment_sink : List (Document Fields)
  pub pending_deletes : List ℕ

pub record FlushedSession (Fields : Type 0) : Type 0 where
  pub wal : Log Fields
  pub finished_segment : Option Segment
  pub pending_deletes : List ℕ

pub record CommittedSession : Type 0 where
  pub snapshot_version : ℕ
  pub docs_committed : ℕ

module _ {Fields : Type 0} where
  -- `append` in the batch mode, in which logs are opened: it syncs at multiples of 1 MiB.
  pub append : Operation Fields → Log Fields → Log Fields
  append op log =
      let position = log.position + (4 + log.entry_size (length log.entries)) in
      record log {
        entries = log.entries ++ op ∷ [];
        position = position;
        synced = if position % (1024 * 1024) == 0 then length log.entries + 1 else log.synced;
      }

  pub sync : Log Fields → Log Fields
  sync log = record log { synced = length log.entries }

  pub open_session : Log Fields → WriteSession Fields
  open_session wal = record { wal = wal; segment_sink = []; pending_deletes = [] }

  pub add_document : Document Fields → WriteSession Fields → ℕ × WriteSession Fields
  unfolding append
  add_document doc s = (
    doc.id,
    record s {
      wal = append (add_document_op doc) s.wal;
      segment_sink = s.segment_sink ++ doc ∷ [];
    },
  )

  pub delete_document : ℕ → WriteSession Fields → WriteSession Fields
  unfolding append
  delete_document id s = record s {
    wal = append (delete_document_op id) s.wal;
    pending_deletes = s.pending_deletes ++ id ∷ [];
  }

  pub add_documents : List (Document Fields) → WriteSession Fields → List ℕ × WriteSession Fields
  unfolding add_document
  add_documents [] s = ([], s)
  add_documents (doc ∷ docs) s =
      let (id, s') = add_document doc s in let (ids, s'') = add_documents docs s' in (id ∷ ids, s'')

  pub flush : (List (Document Fields) → Segment) → WriteSession Fields → FlushedSession Fields
  flush finish s = record {
    wal = s.wal;
    finished_segment = if ltb 0 (length s.segment_sink) then some (finish s.segment_sink) else none;
    pending_deletes = s.pending_deletes;
  }

module _ (bitmap : Bitmap) where
  -- The loop over the pending deletes.
  pub insert_all : bitmap.Bits → List ℕ → bitmap.Bits
  insert_all deleted [] = deleted
  insert_all deleted (id ∷ ids) = insert_all (bitmap.insert deleted (id % 2 ^ 32)) ids

  pub commit :
      {Fields : Type 0} (held : ℕ → ℕ)
      → FlushedSession Fields
      → Controller bitmap.Bits
      → CommittedSession × (Log Fields × Controller bitmap.Bits)
  unfolding append sync insert_all
  commit held s mvcc =
      let wal = sync (append commit_op s.wal) in
      let current : Snapshot bitmap.Bits = current_snapshot bitmap.new mvcc in
      let deleted_docs : bitmap.Bits = insert_all current.deleted_docs s.pending_deletes in
      elim s.finished_segment [
        | some seg ↦
            let (mvcc', snapshot) =
              create_snapshot_with_deletes held mvcc (current.segments ++ seg ∷ []) deleted_docs in
            (
              record { snapshot_version = snapshot.version; docs_committed = seg.doc_count },
              (wal, mvcc'),
            )
        | none ↦
            if is_empty s.pending_deletes
            then (record { snapshot_version = current.version; docs_committed = 0 }, (wal, mvcc))
            else let (mvcc', snapshot) =
                create_snapshot_with_deletes held mvcc current.segments deleted_docs in
              (record { snapshot_version = snapshot.version; docs_committed = 0 }, (wal, mvcc'))
      ]
