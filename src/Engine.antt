-- ===== src/Engine.antt =====
-- src/core/engine.rs: the coordinator of the index. Its state is the writer (which has the controller
-- of versions), the counter of writes, and the memory tracker of the low-memory mode, where that mode
-- is on; the times of the last flush and commit are left out, and so is the reclaiming of memory,
-- whose steps in the source print a line or do nothing. `fields_size` is the sum over a document's
-- fields in `write_document`, and `view` what a transaction's snapshot shows of the writer.
pub mod Recovery
pub mod Sessions
mod Tests
use mathlib.Core.Option
use drusdenx.Prelude.{
  ℕ, zero, suc, ◌+◌, ◌%◌, ◌^◌, List, [], ◌∷◌, ◌++◌, map, Option, none, some, Bool, true, false, ltb,
  if◌then◌else◌, drop, length, Result, ok, err, panic,
}
use drusdenx.Storage.Segment.{Document}
use drusdenx.Storage.Bitmap.{Bitmap}
use drusdenx.Storage.Wal.{Operation, commit_op, WalEntry, EntryCodec, Wal, read_entries}
use drusdenx.Memory.{MemoryTracker, allocate, deallocate}
use drusdenx.Transaction.{
  Transaction, TransactionOp, insert_op, update_op, delete_op, View, IsolationLevel, begin,
  rollback, commit as commit_transaction,
}
use drusdenx.Writer.Index.{
  IndexWriter, add_document, delete_document, flush, commit, apply_recovered_operation,
}

-- `Iterator::rposition`.
pub rposition {ℓ} : {A : Type ℓ} → (A → Bool) → List A → Option ℕ
rposition p [] = none
rposition p (x ∷ xs) = elim (rposition p xs) [
  | some i ↦ some (i + 1)
  | none ↦ if p x then some 0 else none
]

module _ {Fields : Type 0} where
  pub is_commit : WalEntry Fields → Bool
  is_commit e = elim e.operation [ commit_op ↦ true | _ ↦ false ]

  pub operations_after_last_commit : List (WalEntry Fields) → List (Operation Fields)
  unfolding rposition is_commit
  operations_after_last_commit entries =
      let start : ℕ = elim (rposition is_commit entries) [ some i ↦ i + 1 | none ↦ 0 ] in
      map (λ e. e.operation) (drop start entries)

pub record SearchEngine (Fields B : Type 0) : Type 0 where
  pub writer : IndexWriter Fields B
  pub write_count : ℕ
  pub low_memory : Option MemoryTracker

module _ (bitmap : Bitmap) {Fields : Type 0} (held : ℕ → ℕ)
    (size : List (Document Fields) → ℕ) where
  abbrev Engine : Type 0
  Engine = SearchEngine Fields bitmap.Bits

  abbrev counted : Engine → Engine
  counted e = record e { write_count = (e.write_count + 1) % 2 ^ 64 }

  pub write_document : (Fields → ℕ) → Document Fields → Engine → Result (Unit {0}) × Engine
  write_document fields_size doc e =
      let added = record (counted e) { writer = add_document bitmap held size doc e.writer } in
      elim e.low_memory [
        | none ↦ (ok tt, added)
        | some tracker ↦
            let (r, tracker') = allocate (fields_size doc.fields + 100) tracker in
            elim r [
              | ok u ↦ (ok tt, record added { low_memory = some tracker' })
              | err k ↦ (err k, record (counted e) { low_memory = some tracker' })
              | panic ↦ (panic, e)
            ]
      ]

  pub delete_document_by_id : ℕ → Engine → Engine
  delete_document_by_id doc_id e = record (counted e) {
    writer = delete_document bitmap held size doc_id e.writer;
    low_memory = Option.map (deallocate 500) e.low_memory;
  }

  pub flush_segments : Engine → Engine
  flush_segments e = record e { writer = flush bitmap held size e.writer }

  pub commit_wal : Engine → Engine
  commit_wal e = record e { writer = commit bitmap held size e.writer }

  -- The loop over the operations of a committed transaction.
  pub apply_operations :
      (Fields → ℕ) → List (TransactionOp Fields) → Engine → Result (Unit {0}) × Engine
  unfolding write_document delete_document_by_id
  apply_operations fields_size [] e = (ok tt, e)
  apply_operations fields_size (op ∷ ops) e =
      let (written, e') : Result (Unit {0}) × Engine = elim op [
        | insert_op doc ↦ write_document fields_size doc e
        | update_op doc_id doc ↦ write_document fields_size doc (delete_document_by_id doc_id e)
        | delete_op doc_id ↦ (ok tt, delete_document_by_id doc_id e)
      ] in
      let rest = apply_operations fields_size ops e' in
      elim written [ ok u ↦ rest | err k ↦ (err k, e') | panic ↦ (panic, e') ]

  -- What `with_transaction` does with the operations that a commit hands out.
  pub apply_committed {ℓ} :
      {R : Type ℓ}
      → (Fields → ℕ)
      → R
      → Result (List (TransactionOp Fields))
      → Engine
      → Result R × Engine
  unfolding apply_operations flush_segments
  apply_committed fields_size result (err k) e = (err k, e)
  apply_committed fields_size result panic e = (panic, e)
  apply_committed fields_size result (ok ops) e =
      let (applied, e') = apply_operations fields_size ops e in
      elim applied [
        | ok u ↦ (ok result, flush_segments e')
        | err k ↦ (err k, e')
        | panic ↦ (panic, e')
      ]

  -- The `match` on what the closure returned, with the transaction as it left it.
  pub end_transaction {ℓ} :
      {R : Type ℓ}
      → (Fields → ℕ)
      → (Fields → Fields → Bool)
      → View Fields
      → Result R × Transaction Fields
      → Engine
      → Result R × Engine
  unfolding apply_committed
  end_transaction fields_size same_fields current (err k, tx) e = (err k, e)
  end_transaction fields_size same_fields current (panic, tx) e = (panic, e)
  end_transaction fields_size same_fields current (ok result, tx) e =
      apply_committed fields_size result (commit_transaction same_fields current tx).0 e

  -- The closure works on the transaction that it is given, whose new state it returns.
  pub with_transaction {ℓ} :
      {R : Type ℓ}
      → (Fields → ℕ)
      → (Fields → Fields → Bool)
      → (IndexWriter Fields bitmap.Bits → View Fields)
      → ℕ
      → IsolationLevel
      → (Transaction Fields → Result R × Transaction Fields)
      → Engine
      → Result R × Engine
  unfolding end_transaction
  with_transaction fields_size same_fields view id isolation f e =
      let current = view e.writer in
      end_transaction fields_size same_fields current (f (begin id current isolation)) e

  -- The loop over the recovered operations of one log.
  pub apply_recovered :
      List (Operation Fields) → IndexWriter Fields bitmap.Bits → IndexWriter Fields bitmap.Bits
  apply_recovered [] w = w
  apply_recovered (op ∷ ops) w =
      apply_recovered ops (apply_recovered_operation bitmap held size op w)

  -- The loop over the logs, with the number of the operations recovered so far.
  recover_logs : EntryCodec Fields → List Wal → ℕ → Engine → Result ℕ × Engine
  unfolding apply_recovered operations_after_last_commit
  recover_logs codec [] count e = (ok count, e)
  recover_logs codec (wal ∷ wals) count e = elim (read_entries codec wal).0 [
    | err k ↦ (err k, e)
    | panic ↦ (panic, e)
    | ok entries ↦
        let ops = operations_after_last_commit entries in
        recover_logs codec wals (count + length ops)
          (record e { writer = apply_recovered ops e.writer })
  ]

  -- The end of `recover`: a commit, where an operation was recovered.
  pub finish_recovery : Result ℕ × Engine → Result (Unit {0}) × Engine
  unfolding commit_wal
  finish_recovery (ok count, e) = (ok tt, if ltb 0 count then commit_wal e else e)
  finish_recovery (err k, e) = (err k, e)
  finish_recovery (panic, e) = (panic, e)

  -- `recover`, over the logs that `WAL::find_wal_files` and `WAL::open` give, in their order.
  pub recover : EntryCodec Fields → List Wal → Engine → Result (Unit {0}) × Engine
  unfolding recover_logs finish_recovery
  recover codec wals e = finish_recovery (recover_logs codec wals 0 e)
