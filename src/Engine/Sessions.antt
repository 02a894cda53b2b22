-- ===== src/Engine/Sessions.antt =====
-- Transactions on the engine (`with_transaction` of src/core/engine.rs).
use mathlib.Core.List.{append_assoc, append-nil}
use drusdenx.Prelude.{ℕ, ◌≡◌, refl, ap, sym, ◌∙◌, List, [], ◌∷◌, ◌++◌, none, Bool, Result, ok}
use drusdenx.Storage.Segment.{Document}
use drusdenx.Storage.Bitmap.{Bitmap}
use drusdenx.Storage.Wal.{Operation, add_document_op, delete_document_op}
use drusdenx.Transaction.{
  Transaction, TransactionOp, insert_op, update_op, delete_op, View, IsolationLevel, begin,
  commit as commit_transaction,
}
use drusdenx.Writer.Index.{IndexWriter}
use drusdenx.Writer.Index.Contents.{Holds, HoldsPublished, flush-HoldsPublished}
use drusdenx.Writer.Index.Operations.{add_document_lem, logs_document, logs_delete, wal-flush}
use drusdenx.Writer.Index.Deletes.{delete_document_lem}
use drusdenx.Engine.{
  SearchEngine, write_document, delete_document_by_id, apply_operations, flush_segments,
  apply_committed, end_transaction, with_transaction,
}

module _ {Fields : Type 0} where
  -- The documents that a transaction's operations bring, and what they log.
  abbrev pub brought : List (TransactionOp Fields) → List (Document Fields)
  brought [] = []
  brought (insert_op doc ∷ ops) = doc ∷ brought ops
  brought (update_op doc_id doc ∷ ops) = doc ∷ brought ops
  brought (delete_op doc_id ∷ ops) = brought ops

  abbrev pub logged : List (TransactionOp Fields) → List (Operation Fields)
  logged [] = []
  logged (insert_op doc ∷ ops) = add_document_op doc ∷ logged ops
  logged (update_op doc_id doc ∷ ops) = delete_document_op doc_id ∷ add_document_op doc ∷ logged ops
  logged (delete_op doc_id ∷ ops) = delete_document_op doc_id ∷ logged ops

module _ (bitmap : Bitmap) {Fields : Type 0} (held : ℕ → ℕ)
    (size : List (Document Fields) → ℕ) where
  -- The second engine holds the new documents after those of the first, has the new operations in its
  -- log, and is not in low-memory mode if the first is not.
  record Extends (new : List (Document Fields)) (ops : List (Operation Fields))
      (e e' : SearchEngine Fields bitmap.Bits) : Type 0 where
    holds :
        (docs : List (Document Fields))
        → Holds bitmap docs e.writer
        → Holds bitmap (docs ++ new) e'.writer
    entries : e'.writer.wal.entries ≡ e.writer.wal.entries ++ ops
    unlimited : e.low_memory ≡ none → e'.low_memory ≡ none

  Extends-trans :
      (new new' : List (Document Fields)) (ops ops' : List (Operation Fields))
      (e f g : SearchEngine Fields bitmap.Bits)
      → Extends new ops e f
      → Extends new' ops' f g
      → Extends (new ++ new') (ops ++ ops') e g
  Extends-trans new new' ops ops' e f g x y = record {
    holds =
        λ docs h. rw (sym (append_assoc docs new new')) (y.holds (docs ++ new) (x.holds docs h));
    entries =
        y.entries ∙ ap (λ l. l ++ ops') x.entries ∙ append_assoc e.writer.wal.entries ops ops';
    unlimited = λ h. y.unlimited (x.unlimited h);
  }

  delete_document_by_id-Extends :
      (doc_id : ℕ) (e : SearchEngine Fields bitmap.Bits)
      → Extends []
          (delete_document_op doc_id ∷ [])
          e
          (delete_document_by_id bitmap held size doc_id e)
  unfolding delete_document_by_id
  delete_document_by_id-Extends doc_id e =
      let entries = logs_delete bitmap held size doc_id e.writer in
      record {
        holds = λ docs h.
            rw (append-nil docs) (delete_document_lem bitmap held size docs doc_id e.writer h).0;
        entries = entries;
        unlimited = λ h. rw h refl;
      }

  write_document-Extends :
      (fields_size : Fields → ℕ) (doc : Document Fields) (e : SearchEngine Fields bitmap.Bits)
      → e.low_memory ≡ none
      → ((write_document bitmap held size fields_size doc e).0 ≡ ok tt)
        × Extends
            (doc ∷ [])
            (add_document_op doc ∷ [])
            e
            (write_document bitmap held size fields_size doc e).1
  unfolding write_document
  write_document-Extends fields_size doc e h = rw h (
      let entries = logs_document bitmap held size doc e.writer in
      (
        refl,
        record {
          holds = λ docs c. (add_document_lem bitmap held size docs doc e.writer c).0;
          entries = entries;
          unlimited = λ u. u;
        },
      ))

  apply_operations-Extends :
      (fields_size : Fields → ℕ) (ops : List (TransactionOp Fields))
      (e : SearchEngine Fields bitmap.Bits)
      → e.low_memory ≡ none
      → ((apply_operations bitmap held size fields_size ops e).0 ≡ ok tt)
        × Extends
            (brought ops)
            (logged ops)
            e
            (apply_operations bitmap held size fields_size ops e).1
  unfolding apply_operations
  apply_operations-Extends fields_size [] e h = (
    refl,
    record {
      holds = λ docs c. rw (append-nil docs) c;
      entries = sym (append-nil e.writer.wal.entries);
      unlimited = λ u. u;
    },
  )
  apply_operations-Extends fields_size (insert_op doc ∷ ops) e h =
      let (written, x) = write_document-Extends fields_size doc e h in
      let (r, y) = apply_operations-Extends fields_size ops _ (x.unlimited h) in
      rw (apply_operations, written) (r, Extends-trans _ _ _ _ _ _ _ x y)
  apply_operations-Extends fields_size (update_op doc_id doc ∷ ops) e h =
      let d = delete_document_by_id-Extends doc_id e in
      let (written, x) =
        write_document-Extends fields_size doc (delete_document_by_id bitmap held size doc_id e)
          (d.unlimited h) in
      let (r, y) = apply_operations-Extends fields_size ops _ (x.unlimited (d.unlimited h)) in
      rw (apply_operations, written)
        (r, Extends-trans _ _ _ _ _ _ _ d (Extends-trans _ _ _ _ _ _ _ x y))
  apply_operations-Extends fields_size (delete_op doc_id ∷ ops) e h =
      let d = delete_document_by_id-Extends doc_id e in
      let (r, y) = apply_operations-Extends fields_size ops _ (d.unlimited h) in
      (r, Extends-trans _ _ _ _ _ _ _ d y)

  committed_lem {ℓ} :
      {R : Type ℓ}
      → (fields_size : Fields → ℕ) (r : R) (ops : List (TransactionOp Fields))
        (e : SearchEngine Fields bitmap.Bits)
      → e.low_memory ≡ none
      → apply_committed bitmap held size fields_size r (ok ops) e ≡ (
        ok r,
        flush_segments bitmap held size (apply_operations bitmap held size fields_size ops e).1,
      )
  unfolding apply_committed
  committed_lem fields_size r ops e u =
      rw (apply_committed, (apply_operations-Extends fields_size ops e u).0) refl

  -- A transaction whose commit is accepted, on an engine that is not in low-memory mode, gives the
  -- result of its closure. The documents of its operations come after those that the engine holds,
  -- are published; its operations are at the end of the log, with no commit behind them.
  pub with_transaction_lem {ℓ} :
      {R : Type ℓ}
      → (fields_size : Fields → ℕ) (same_fields : Fields → Fields → Bool)
        (view : IndexWriter Fields bitmap.Bits → View Fields) (id : ℕ) (isolation : IsolationLevel)
        (f : Transaction Fields → Result R × Transaction Fields)
        (e : SearchEngine Fields bitmap.Bits) (r : R) (tx : Transaction Fields)
        (ops : List (TransactionOp Fields)) (docs : List (Document Fields))
      → f (begin id (view e.writer) isolation) ≡ (ok r, tx)
      → (commit_transaction same_fields (view e.writer) tx).0 ≡ ok ops
      → e.low_memory ≡ none
      → Holds bitmap docs e.writer
      → let (result, e') =
          with_transaction bitmap held size fields_size same_fields view id isolation f e in
        (result ≡ ok r)
        × HoldsPublished bitmap (docs ++ brought ops) e'.writer
        × (e'.writer.wal.entries ≡ e.writer.wal.entries ++ logged ops)
  unfolding with_transaction end_transaction
  with_transaction_lem fields_size same_fields view id isolation f e r tx ops docs o c u h =
      let (_, x) = apply_operations-Extends fields_size ops e u in
      rw (o, c, committed_lem fields_size r ops e u)
        (unfold flush_segments in
          let log =
            wal-flush bitmap held size
              (apply_operations bitmap held size fields_size ops e).1.writer in
          (
            refl,
            flush-HoldsPublished bitmap held size (docs ++ brought ops) _ (x.holds docs h),
            ap (λ l. l.entries) log ∙ x.entries,
          ))
