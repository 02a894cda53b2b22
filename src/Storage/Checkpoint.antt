-- ===== src/Storage/Checkpoint.antt =====
-- src/storage/checkpoint.rs: checkpoints, and the replay of the log from one. The disk is the log
-- files by their sequence numbers and the checkpoint file; time stamps are left out.
mod Restart
mod Tests
use drusdenx.Prelude.{
  ℕ, zero, suc, ◌≡◌, List, [], ◌∷◌, ◌++◌, Option, none, some, Bool, length, ◌==◌, if◌then◌else◌,
  Result, ok, err, panic, io, parse, internal,
}
use drusdenx.Storage.Frame.{read_len, read_exact}
use drusdenx.Storage.Wal.{Operation, WalEntry, EntryCodec, Wal, open_wal}

pub record Checkpoint : Type 0 where
  pub wal_position : ℕ
  pub segments : List ℕ
  pub doc_count : ℕ

pub record Disk : Type 0 where
  pub logs : ℕ → Option (List ℕ)
  pub checkpoint : Option Checkpoint

pub record RecoveryManager : Type 0 where
  pub wal : Wal
  pub checkpoint : Option Checkpoint
  pub storage : Disk

pub load : Disk → Option Checkpoint
load disk = disk.checkpoint

pub save : Checkpoint → Disk → Disk
save c disk = record disk { checkpoint = some c }

-- `WAL::open` creates the file where there is none.
pub open_log : ℕ → Disk → Wal × Disk
open_log sequence disk = elim (disk.logs sequence) [
  | some file ↦ (open_wal file sequence, disk)
  | none ↦ (
    open_wal [] sequence,
    record disk { logs = λ n. if n == sequence then some [] else disk.logs n },
  )
]

-- `RecoveryManager::new`.
pub new : Disk → RecoveryManager
unfolding load open_log
new disk =
    let sequence : ℕ = elim (load disk) [ none ↦ 0 | some c ↦ c.wal_position ] in
    let (wal, disk') = open_log sequence disk in
    record { wal = wal; checkpoint = load disk; storage = disk' }

pub create_checkpoint : List ℕ → RecoveryManager → RecoveryManager
unfolding save
create_checkpoint segments m =
    let c : Checkpoint = record {
      wal_position = m.wal.sequence;
      segments = segments;
      doc_count = 0;
    } in
    record m { checkpoint = some c; storage = save c m.storage }

module _ {Fields : Type 0} (codec : EntryCodec Fields) where
  -- The `loop` of `replay_wal_from`.
  replay_loop : ℕ → List ℕ → List (Operation Fields) → Result (List (Operation Fields))
  replay_loop zero file operations = err internal
  replay_loop (suc fuel) file operations = elim (read_len file) [
    | none ↦ ok operations
    | some (len, rest) ↦ elim (read_exact len rest) [
      | none ↦ err io
      | some (bytes, rest') ↦ elim (codec.deserialize bytes) [
        | none ↦ err parse
        | some entry ↦ replay_loop fuel rest' (operations ++ entry.operation ∷ [])
      ]
    ]
  ]

  pub replay_wal_from : ℕ → Disk → Result (List (Operation Fields))
  unfolding replay_loop
  replay_wal_from position disk = elim (disk.logs position) [
    | none ↦ err io
    | some file ↦ replay_loop (suc (length file)) file []
  ]

  pub recover : RecoveryManager → Result (List (Operation Fields))
  unfolding replay_wal_from
  recover m = elim m.checkpoint [ none ↦ ok [] | some c ↦ replay_wal_from c.wal_position m.storage ]
