-- ===== src/Storage/Wal/Replay.antt =====
-- The file of a log (src/storage/wal.rs), and what `read_entries` makes of it.
use drusdenx.Prelude.{ℕ, ◌≡◌, refl, ◌∙◌, List, [], ◌∷◌, ◌++◌, false, arith, err, io}
use drusdenx.Storage.Frame.{frame}
use drusdenx.Storage.Wal.{
  Operation, WalEntry, EntryCodec, Wal, sync, sync_by_mode, write, append, read_loop, read_entries,
  open_wal,
}

module _ {Fields : Type 0} (codec : EntryCodec Fields) where
  -- The bytes of a log with the entries.
  abbrev pub log_bytes : List (WalEntry Fields) → List ℕ
  log_bytes [] = []
  log_bytes (e ∷ entries) = frame (codec.serialize e) ++ log_bytes entries

  abbrev pub append_all : List (Operation Fields) → Wal → Wal
  append_all [] wal = wal
  append_all (op ∷ ops) wal = append_all ops (append codec op wal)

  sync_by_mode-readable : (wal : Wal) → (sync_by_mode wal).readable ≡ wal.readable
  unfolding sync_by_mode sync
  sync_by_mode-readable wal = ground arith

  append_all-readable :
      (ops : List (Operation Fields)) (wal : Wal) → (append_all ops wal).readable ≡ wal.readable
  append_all-readable [] wal = refl
  append_all-readable (op ∷ ops) wal =
      append_all-readable ops (append codec op wal)
      ∙ (unfold append write in sync_by_mode-readable (write codec op wal))

  -- A log that `WAL::open` opened cannot be read: whatever its file holds, and whatever was appended
  -- since, `read_entries` fails with an I/O error and leaves the log as it is.
  pub read_entries-open_wal :
      (file : List ℕ) (sequence : ℕ) (ops : List (Operation Fields))
      → let wal = append_all ops (open_wal file sequence) in read_entries codec wal ≡ (err io, wal)
  unfolding read_entries read_loop
  read_entries-open_wal file sequence ops =
      let closed : (append_all ops (open_wal file sequence)).readable ≡ false =
        append_all-readable ops (open_wal file sequence) ∙ (unfold open_wal in refl) in
      rw (read_entries, closed) refl
