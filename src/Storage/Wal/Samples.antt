-- ===== src/Storage/Wal/Samples.antt =====
-- A small codec for the entries of the log, for the tests.
use drusdenx.Prelude.{ℕ, zero, suc, ◌≡◌, refl, List, [], ◌∷◌, Option, none, some}
use drusdenx.Storage.Segment.{Document}
use drusdenx.Storage.Wal.{
  Operation, WalEntry, EntryCodec, delete_document_op, commit_op, add_document_op,
  update_document_op,
}

-- The sequence number, the kind of the operation and its document.
abbrev pub write_entry : WalEntry ℕ → List ℕ
write_entry e = elim e.operation [
  | add_document_op d ↦ e.sequence ∷ 0 ∷ d.id ∷ d.fields ∷ []
  | update_document_op d ↦ e.sequence ∷ 1 ∷ d.id ∷ d.fields ∷ []
  | delete_document_op id ↦ e.sequence ∷ id ∷ []
  | commit_op ↦ e.sequence ∷ []
]

abbrev pub entry : ℕ → Operation ℕ → WalEntry ℕ
entry sequence operation = record { sequence = sequence; operation = operation }

abbrev pub document : ℕ → ℕ → Document ℕ
document id fields = record { id = id; fields = fields }

abbrev pub read_entry : List ℕ → Option (WalEntry ℕ)
read_entry (s ∷ []) = some (entry s commit_op)
read_entry (s ∷ id ∷ []) = some (entry s (delete_document_op id))
read_entry (s ∷ zero ∷ id ∷ fields ∷ []) = some (entry s (add_document_op (document id fields)))
read_entry (s ∷ suc k ∷ id ∷ fields ∷ []) = some (entry s (update_document_op (document id fields)))
read_entry _ = none

pub read_entry-write_entry : (e : WalEntry ℕ) → read_entry (write_entry e) ≡ some e
read_entry-write_entry e = by_operation e.sequence e.operation
  where
    by_operation :
        (s : ℕ) (op : Operation ℕ) → read_entry (write_entry (entry s op)) ≡ some (entry s op)
    by_operation s (add_document_op d) = refl
    by_operation s (update_document_op d) = refl
    by_operation s (delete_document_op id) = refl
    by_operation s commit_op = refl

abbrev pub codec : EntryCodec ℕ
codec = record {
  serialize = write_entry;
  deserialize = read_entry;
  deserialize-serialize = read_entry-write_entry;
}
