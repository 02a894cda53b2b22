-- ===== src/Storage/Wal/Tests.antt =====
-- A log that was opened and appended to, and then read.
use drusdenx.Prelude.{ℕ, ◌≡◌, List, [], ◌∷◌, err, io}
use drusdenx.Storage.Wal.{Operation, delete_document_op, commit_op, open_wal, read_entries}
use drusdenx.Storage.Wal.Replay.{append_all, read_entries-open_wal}
use drusdenx.Storage.Wal.Samples.{codec}

abbrev ops : List (Operation ℕ)
ops = delete_document_op 7 ∷ commit_op ∷ []

read_entries-open_wal_example :
    let wal = append_all codec ops (open_wal [] 0) in read_entries codec wal ≡ (err io, wal)
read_entries-open_wal_example = read_entries-open_wal codec [] 0 ops
