-- ===== src/Storage/Checkpoint/Restart.antt =====
-- What a restart (src/storage/checkpoint.rs) finds.
use mathlib.Core.List.{append_assoc, append-nil}
use drusdenx.Prelude.{
  ℕ, zero, suc, ◌^◌, ◌<◌, ◌≡◌, refl, sym, ap, ◌∙◌, List, [], ◌∷◌, ◌++◌, map, arith, none, some,
  length, length-append, All, ==_self, ok,
}
use drusdenx.Storage.Frame.{frame, read_len}
use drusdenx.Storage.Frame.Laws.{read_len-frame, read_exact-append, length-frame}
use drusdenx.Storage.Wal.{Operation, WalEntry, EntryCodec}
use drusdenx.Storage.Wal.Replay.{log_bytes}
use drusdenx.Storage.Checkpoint.{
  Checkpoint, RecoveryManager, load, save, open_log, new, create_checkpoint, replay_loop,
  replay_wal_from, recover,
}

module _ {Fields : Type 0} (codec : EntryCodec Fields) where
  replay_loop_step :
      (fuel : ℕ) (e : WalEntry Fields) (rest : List ℕ) (ops : List (Operation Fields))
      → length (codec.serialize e) < 2 ^ 32
      → replay_loop codec (suc fuel) (frame (codec.serialize e) ++ rest) ops
        ≡ replay_loop codec fuel rest (ops ++ e.operation ∷ [])
  unfolding replay_loop
  replay_loop_step fuel e rest ops h =
      let bytes = codec.serialize e in
      rw
        (
          replay_loop,
          read_len-frame bytes rest h,
          read_exact-append bytes rest,
          codec.deserialize-serialize e,
        )
        refl

  replay_loop_end :
      (fuel : ℕ) (ops : List (Operation Fields)) → replay_loop codec (suc fuel) [] ops ≡ ok ops
  unfolding replay_loop read_len
  replay_loop_end fuel ops = refl

  replay_loop-log_bytes :
      (es : List (WalEntry Fields)) (fuel : ℕ) (ops : List (Operation Fields))
      → length (log_bytes codec es) < fuel
      → All (λ e. length (codec.serialize e) < 2 ^ 32) es
      → replay_loop codec fuel (log_bytes codec es) ops ≡ ok (ops ++ map (λ e. e.operation) es)
  replay_loop-log_bytes es zero ops h small = absurd (omega arith)
  replay_loop-log_bytes [] (suc fuel) ops h small =
      replay_loop_end fuel ops ∙ ap ok (sym (append-nil ops))
  replay_loop-log_bytes (e ∷ es) (suc fuel) ops h small =
      replay_loop_step fuel e (log_bytes codec es) ops small.0
      ∙ replay_loop-log_bytes es fuel (ops ++ e.operation ∷ [])
          (omega (
            arith,
            length-append (frame (codec.serialize e)) (log_bytes codec es),
            length-frame (codec.serialize e),
          ))
          small.1
      ∙ ap ok (append_assoc ops (e.operation ∷ []) (map (λ e. e.operation) es))

  -- With a checkpoint whose position names a log file, `recover` returns the operations of all the
  -- entries of that file, in order.
  pub recover-log_bytes :
      (es : List (WalEntry Fields)) (c : Checkpoint) (m : RecoveryManager)
      → m.checkpoint ≡ some c
      → m.storage.logs c.wal_position ≡ some (log_bytes codec es)
      → All (λ e. length (codec.serialize e) < 2 ^ 32) es
      → recover codec m ≡ ok (map (λ e. e.operation) es)
  unfolding recover replay_wal_from
  recover-log_bytes es c m saved log small =
      rw (recover, saved, replay_wal_from, log)
        (replay_loop-log_bytes es (suc (length (log_bytes codec es))) [] (omega arith) small)

  -- A checkpoint names the number of the next entry, not that of a log file. Where no log file has that
  -- number, a restart from the checkpoint opens a new, empty log and recovers no operation, whatever
  -- the log held.
  pub recover-create_checkpoint :
      (m : RecoveryManager) (segments : List ℕ)
      → m.storage.logs m.wal.sequence ≡ none
      → recover codec (new (create_checkpoint segments m).storage) ≡ ok []
  unfolding recover replay_wal_from new create_checkpoint open_log load save replay_loop read_len
  recover-create_checkpoint m segments absent =
      rw (recover, new, open_log, absent, replay_wal_from, ==_self m.wal.sequence) refl
