-- ===== src/Engine/Recovery.antt =====
-- What the engine (src/core/engine.rs) makes of the logs that it finds when it starts.
use mathlib.Core.List.{append_assoc, append-nil}
use drusdenx.Prelude.{
  ℕ, suc, ◌+◌, ◌≡◌, refl, ap, sym, ◌∙◌, List, [], ◌∷◌, ◌++◌, map, none, some, Bool, true, false,
  drop, length, All, arith, err, io,
}
use drusdenx.Storage.Segment.{Document}
use drusdenx.Storage.Bitmap.{Bitmap}
use drusdenx.Storage.Wal.{Operation, WalEntry, EntryCodec, Wal, read_entries, open_wal}
use drusdenx.Storage.Wal.Replay.{read_entries-open_wal}
use drusdenx.Writer.Index.{IndexWriter}
use drusdenx.Writer.Index.Contents.{Holds}
use drusdenx.Writer.Index.Operations.{documents_of, apply_recovered_operation_lem}
use drusdenx.Engine.{
  SearchEngine, rposition, is_commit, operations_after_last_commit, apply_recovered, recover_logs,
  finish_recovery, recover,
}

module _ {A : Type 0} (p : A → Bool) where
  rposition-none : (xs : List A) → All (λ x. p x ≡ false) xs → rposition p xs ≡ none
  unfolding rposition
  rposition-none [] h = refl
  rposition-none (x ∷ xs) h = rw (rposition-none xs h.1, h.0) refl

  rposition-last :
      (before tail : List A) (x : A)
      → p x ≡ true
      → All (λ y. p y ≡ false) tail
      → rposition p (before ++ x ∷ tail) ≡ some (length before)
  unfolding rposition
  rposition-last [] tail x e h = rw (rposition-none tail h, e) refl
  rposition-last (y ∷ before) tail x e h =
      rw (rposition-last before tail x e h) (ap some (omega arith))

module _ {Fields : Type 0} where
  drop-after :
      (before tail : List (WalEntry Fields)) (x : WalEntry Fields)
      → drop (length before + 1) (before ++ x ∷ tail) ≡ tail
  drop-after [] tail x = refl
  drop-after (y ∷ before) tail x =
      let shift : suc (length before) + 1 ≡ suc (length before + 1) = omega arith in
      ap (λ n. drop n (y ∷ before ++ x ∷ tail)) shift ∙ drop-after before tail x

  -- The operations that a log has after its last commit are those that come back from it: all that
  -- stand behind a commit where no commit follows, in their order, and the whole log where it has no
  -- commit.
  pub operations_after_last_commit_lem :
      (before tail : List (WalEntry Fields)) (last : WalEntry Fields)
      → is_commit last ≡ true
      → All (λ e. is_commit e ≡ false) tail
      → (operations_after_last_commit (before ++ last ∷ tail) ≡ map (λ e. e.operation) tail)
        × (operations_after_last_commit tail ≡ map (λ e. e.operation) tail)
  unfolding operations_after_last_commit
  operations_after_last_commit_lem before tail last c h = (
    rw (rposition-last is_commit before tail last c h)
        (ap (map (λ e. e.operation)) (drop-after before tail last)),
    rw (rposition-none is_commit tail h) refl,
  )

  abbrev pub all_documents : List (Operation Fields) → List (Document Fields)
  all_documents [] = []
  all_documents (op ∷ ops) = documents_of op ++ all_documents ops

module _ (bitmap : Bitmap) {Fields : Type 0} (held : ℕ → ℕ)
    (size : List (Document Fields) → ℕ) where
  apply_recovered_lem :
      (docs : List (Document Fields)) (ops : List (Operation Fields))
      (w : IndexWriter Fields bitmap.Bits)
      → Holds bitmap docs w
      → Holds bitmap (docs ++ all_documents ops) (apply_recovered bitmap held size ops w)
        × ((apply_recovered bitmap held size ops w).wal ≡ w.wal)
  unfolding apply_recovered
  apply_recovered_lem docs [] w h = (rw (append-nil docs) h, refl)
  apply_recovered_lem docs (op ∷ ops) w h =
      let (holds, log) = apply_recovered_operation_lem bitmap held size docs op w h in
      let (holds', log') = apply_recovered_lem (docs ++ documents_of op) ops _ holds in
      (rw (sym (append_assoc docs (documents_of op) (all_documents ops))) holds', log' ∙ log)

  -- `recover` fails with an I/O error as soon as there is a log file, since `WAL::open` opens it for
  -- appending alone: whatever the file holds and whatever logs follow, the engine gets nothing back.
  pub recover-open_wal :
      (codec : EntryCodec Fields) (file : List ℕ) (sequence : ℕ) (wals : List Wal)
      (e : SearchEngine Fields bitmap.Bits)
      → recover bitmap held size codec (open_wal file sequence ∷ wals) e ≡ (err io, e)
  unfolding recover recover_logs finish_recovery
  recover-open_wal codec file sequence wals e =
      let fails : (read_entries codec (open_wal file sequence)).0 ≡ err io =
        ap (λ r. r.0) (read_entries-open_wal codec file sequence []) in
      rw (recover, recover_logs, fails) refl
