-- ===== src/Storage/Wal.antt =====
-- src/storage/wal.rs: the write-ahead log, as the bytes of its file. Entries go through the bincode
-- crate, an interface here. Time stamps are left out, and of the errors of the operating system those
-- that are modelled are the reading past the end of a file, and the reading of a file that was opened
-- for appending alone.
pub mod Replay
pub mod Samples
mod Tests
use drusdenx.Prelude.{
  ℕ, zero, suc, ◌+◌, ◌*◌, ◌%◌, ◌≡◌, List, [], ◌∷◌, ◌++◌, Option, none, some, Bool, length, ltb,
  ◌==◌, if◌then◌else◌, Result, ok, err, io, invalid_input, internal,
}
use drusdenx.Storage.Segment.{Document}
use drusdenx.Storage.Frame.{frame, read_len, read_exact}

pub data Operation (Fields : Type 0) : Type 0 where
  add_document_op : Document Fields → Operation Fields
  update_document_op : Document Fields → Operation Fields
  delete_document_op : ℕ → Operation Fields
  commit_op : Operation Fields

pub record WalEntry (Fields : Type 0) : Type 0 where
  pub sequence : ℕ
  pub operation : Operation Fields

-- `bincode::serialize` and `bincode::deserialize` of an entry.
pub record EntryCodec (Fields : Type 0) : Type 0 where
  pub serialize : WalEntry Fields → List ℕ
  pub deserialize : List ℕ → Option (WalEntry Fields)
  pub deserialize-serialize : (e : WalEntry Fields) → deserialize (serialize e) ≡ some e

pub data SyncMode : Type 0 where
  immediate batch no_sync : SyncMode

-- The file with all that is appended to it, whether it was opened for reading, and how much of it is
-- synced.
pub record Wal : Type 0 where
  pub file : List ℕ
  pub readable : Bool
  pub synced : ℕ
  pub position : ℕ
  pub sync_mode : SyncMode
  pub sequence : ℕ

abbrev pub max_entry_size : ℕ
max_entry_size = 10_000_000

-- `file` is what the log file of the sequence number holds; a new one is empty. The options are
-- `create` and `append`, and not `read`.
unfoldable pub open_wal : List ℕ → ℕ → Wal
open_wal file sequence = record {
  file = file;
  readable = Bool.false;
  synced = length file;
  position = 0;
  sync_mode = batch;
  sequence = sequence;
}

unfoldable pub sync : Wal → Wal
sync wal = record wal { synced = length wal.file }

-- The `match` on the sync mode at the end of `append`.
unfoldable pub sync_by_mode : Wal → Wal
unfolding sync
sync_by_mode wal = elim wal.sync_mode [
  | immediate ↦ sync wal
  | batch ↦ if wal.position % (1024 * 1024) == 0 then sync wal else wal
  | no_sync ↦ wal
]

module _ {Fields : Type 0} (codec : EntryCodec Fields) where
  -- `append` up to its `match`.
  unfoldable pub write : Operation Fields → Wal → Wal
  write operation wal =
      let bytes = codec.serialize (record { sequence = wal.sequence; operation = operation }) in
      record wal {
        file = wal.file ++ frame bytes;
        sequence = wal.sequence + 1;
        position = wal.position + (4 + length bytes);
      }

  unfoldable pub append : Operation Fields → Wal → Wal
  unfolding sync_by_mode write
  append operation wal = sync_by_mode (write operation wal)

  -- The `loop` of `read_entries`. A read of a file that is not open for reading is an error other than
  -- the end of the file. An entry that cannot be deserialized is passed over.
  read_loop : Bool → ℕ → List ℕ → List (WalEntry Fields) → Result (List (WalEntry Fields))
  read_loop readable zero file entries = err internal
  read_loop Bool.false (suc fuel) file entries = err io
  read_loop Bool.true (suc fuel) file entries = elim (read_len file) [
    | none ↦ ok entries
    | some (len, rest) ↦ elim (ltb max_entry_size len) [
      | Bool.true ↦ err invalid_input
      | Bool.false ↦ elim (read_exact len rest) [
        | none ↦ err io
        | some (bytes, rest') ↦ elim (codec.deserialize bytes) [
          | none ↦ read_loop Bool.true fuel rest' entries
          | some entry ↦ read_loop Bool.true fuel rest' (entries ++ entry ∷ [])
        ]
      ]
    ]
  ]

  -- Each round but the last takes a length off the file.
  unfoldable pub read_entries : Wal → Result (List (WalEntry Fields)) × Wal
  unfolding read_loop
  read_entries wal = elim (read_loop wal.readable (suc (length wal.file)) wal.file []) [
    | Result.ok entries ↦ (ok entries, record wal { position = length wal.file })
    | Result.err e ↦ (err e, wal)
    | Result.panic ↦ (Result.panic, wal)
  ]
