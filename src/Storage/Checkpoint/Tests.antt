-- ===== src/Storage/Checkpoint/Tests.antt =====
-- The theorems on src/storage/checkpoint.rs at a concrete disk.
use drusdenx.Prelude.{ℕ, ◌≡◌, refl, List, [], ◌∷◌, none, some, ok, ◌==◌, if◌then◌else◌}
use drusdenx.Storage.Wal.{WalEntry, open_wal, append, delete_document_op, commit_op}
use drusdenx.Storage.Wal.Replay.{log_bytes}
use drusdenx.Storage.Wal.Samples.{entry, codec}
use drusdenx.Storage.Checkpoint.{Checkpoint, Disk, RecoveryManager, new, create_checkpoint, recover}
use drusdenx.Storage.Checkpoint.Restart.{recover-create_checkpoint}

abbrev log_entries : List (WalEntry ℕ)
log_entries = entry 0 (delete_document_op 7) ∷ entry 1 commit_op ∷ []

abbrev first : Checkpoint
first = record { wal_position = 0; segments = []; doc_count = 0 }

abbrev disk : Disk
disk = record {
  logs = λ n. if n == 0 then some (log_bytes codec log_entries) else none;
  checkpoint = some first;
}

abbrev manager : RecoveryManager
manager = record {
  wal = append codec (delete_document_op 7) (open_wal [] 0);
  checkpoint = some first;
  storage = disk;
}

recover-create_checkpoint_example :
    recover codec (new (create_checkpoint [] manager).storage) ≡ ok []
recover-create_checkpoint_example =
    recover-create_checkpoint codec manager [] (unfold append open_wal in refl)
