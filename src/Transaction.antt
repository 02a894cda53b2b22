-- ===== src/Transaction.antt =====
-- src/core/transaction.rs: transactions over a snapshot. A transaction's locks are never held across
-- an operation, so an operation takes the transaction's state and returns the new one. The sets of
-- documents are lists of pairs in which a key stands once; the snapshot's version and its documents
-- as `read_from_snapshot` finds them are a record of their own, since the segment files are read by
-- the storage layer. The iteration over a hash set, whose order the source does not fix, is over a
-- list; only the question whether some document changed depends on it.
mod Laws
mod Tests
use drusdenx.Prelude.{
  ℕ, zero, suc, ◌+◌, List, [], ◌∷◌, ◌++◌, map, Option, none, some, Bool, true, false, not, ◌&&◌,
  ◌||◌, ◌==◌, if◌then◌else◌, all, keep, Result, ok, err, panic, invalid_state, ◌>>=◌, length,
}
use drusdenx.Storage.Segment.{Document}

pub data TransactionState : Type 0 where
  active preparing committed aborted : TransactionState

pub data IsolationLevel : Type 0 where
  read_committed repeatable_read serializable : IsolationLevel

pub data TransactionOp (Fields : Type 0) : Type 0 where
  insert_op : Document Fields → TransactionOp Fields
  update_op : ℕ → Document Fields → TransactionOp Fields
  delete_op : ℕ → TransactionOp Fields

-- A snapshot: its version, and the answers of `read_from_snapshot`.
pub record View (Fields : Type 0) : Type 0 where
  pub version : ℕ
  pub find : ℕ → Result (Option (Document Fields))

pub record Transaction (Fields : Type 0) : Type 0 where
  pub id : ℕ
  pub isolation_level : IsolationLevel
  pub state : TransactionState
  pub operations : List (TransactionOp Fields)
  pub snapshot : View Fields
  pub read_set : List (ℕ × ℕ)
  pub write_set : List (ℕ × Document Fields)

abbrev pub validates : IsolationLevel → Bool
validates read_committed = false
validates _ = true

abbrev pub is_active : TransactionState → Bool
is_active active = true
is_active _ = false

abbrev pub is_running : TransactionState → Bool
is_running active = true
is_running preparing = true
is_running _ = false

-- `HashMap::insert`, `remove` and `get`.
module _ {V : Type 0} where
  pub remove_key : ℕ → List (ℕ × V) → List (ℕ × V)
  remove_key k [] = []
  remove_key k ((j, v) ∷ entries) =
      if k == j then remove_key k entries else (j, v) ∷ remove_key k entries

  pub insert_key : ℕ → V → List (ℕ × V) → List (ℕ × V)
  unfolding remove_key
  insert_key k v entries = (k, v) ∷ remove_key k entries

  abbrev pub keys : List (ℕ × V) → List ℕ
  keys entries = map (λ e. e.0) entries

  pub lookup : ℕ → List (ℕ × V) → Option V
  lookup k [] = none
  lookup k ((j, v) ∷ entries) = if k == j then some v else lookup k entries

module _ {Fields : Type 0} where
  -- `id` comes from the counter, and the snapshot from `MVCCController::current_snapshot`.
  unfoldable pub begin : ℕ → View Fields → IsolationLevel → Transaction Fields
  begin id current level = record {
    id = id;
    isolation_level = level;
    state = active;
    operations = [];
    snapshot = current;
    read_set = [];
    write_set = [];
  }

  unfoldable pub check_active : Transaction Fields → Result (Unit {0})
  check_active tx = if is_active tx.state then ok tt else err invalid_state

  pub read : ℕ → Transaction Fields → Result (Option (Document Fields)) × Transaction Fields
  unfolding lookup insert_key
  read doc_id tx =
      if is_active tx.state
      then elim (lookup doc_id tx.write_set) [
        | some doc ↦ (ok (some doc), tx)
        | none ↦ (
          tx.snapshot.find doc_id,
          record tx { read_set = insert_key doc_id tx.snapshot.version tx.read_set },
        )
      ]
      else (err invalid_state, tx)

  unfoldable pub insert :
      Document Fields → Transaction Fields → Result (Unit {0}) × Transaction Fields
  unfolding check_active insert_key
  insert doc tx = elim (check_active tx) [
    | err e ↦ (err e, tx)
    | panic ↦ (panic, tx)
    | ok u ↦ (
      ok tt,
      record tx {
        write_set = insert_key doc.id doc tx.write_set;
        operations = tx.operations ++ insert_op doc ∷ [];
      },
    )
  ]

  pub update : ℕ → Document Fields → Transaction Fields → Result (Unit {0}) × Transaction Fields
  unfolding check_active insert_key
  update doc_id doc tx = elim (check_active tx) [
    | err e ↦ (err e, tx)
    | panic ↦ (panic, tx)
    | ok u ↦ (
      ok tt,
      record tx {
        write_set = insert_key doc_id doc tx.write_set;
        operations = tx.operations ++ update_op doc_id doc ∷ [];
      },
    )
  ]

  pub delete : ℕ → Transaction Fields → Result (Unit {0}) × Transaction Fields
  unfolding check_active remove_key
  delete doc_id tx = elim (check_active tx) [
    | err e ↦ (err e, tx)
    | panic ↦ (panic, tx)
    | ok u ↦ (
      ok tt,
      record tx {
        write_set = remove_key doc_id tx.write_set;
        operations = tx.operations ++ delete_op doc_id ∷ [];
      },
    )
  ]

  pub rollback : Transaction Fields → Transaction Fields
  rollback tx = record tx { state = aborted; operations = []; read_set = []; write_set = [] }

  pub op_key : TransactionOp Fields → ℕ
  op_key (insert_op doc) = doc.id
  op_key (update_op doc_id doc) = doc_id
  op_key (delete_op doc_id) = doc_id

  pub tracked_doc_ids : Transaction Fields → List ℕ
  unfolding op_key
  tracked_doc_ids tx = keys tx.read_set ++ keys tx.write_set ++ map op_key tx.operations

  -- The end of `commit`, on the result of the validation.
  unfoldable pub finish :
      Result Bool → Transaction Fields → Result (List (TransactionOp Fields)) × Transaction Fields
  unfolding rollback
  finish (ok true) tx = (ok tx.operations, record tx { state = committed })
  finish (ok false) tx = (err invalid_state, rollback tx)
  finish (err e) tx = (err e, tx)
  finish panic tx = (panic, tx)

  module _ (same_fields : Fields → Fields → Bool) where
    pub documents_equal : Option (Document Fields) → Option (Document Fields) → Bool
    documents_equal (some a) (some b) = a.id == b.id && same_fields a.fields b.fields
    documents_equal none none = true
    documents_equal _ _ = false

    -- The loop over the tracked documents.
    pub unchanged : View Fields → View Fields → List ℕ → Result Bool
    unfolding documents_equal
    unchanged original current [] = ok true
    unchanged original current (doc_id ∷ ids) = original.find doc_id >>= λ original_doc.
        current.find doc_id >>= λ current_doc.
        if not (documents_equal original_doc current_doc)
        then ok false
        else unchanged original current ids

    pub validate_reads : View Fields → Transaction Fields → Result Bool
    unfolding unchanged tracked_doc_ids
    validate_reads current tx =
        if current.version == tx.snapshot.version
        then ok true
        else unchanged tx.snapshot current (tracked_doc_ids tx)

    -- `commit`, with the snapshot that is current when it validates.
    unfoldable pub commit :
        View Fields → Transaction Fields → Result (List (TransactionOp Fields)) × Transaction Fields
    unfolding validate_reads finish
    commit current tx =
        let prepared : Transaction Fields = record tx { state = preparing } in
        if not (is_active tx.state)
        then (err invalid_state, tx)
        else finish
            (if validates tx.isolation_level then validate_reads current prepared else ok true)
            prepared

-- `TransactionManager`. A transaction that a client holds is the one in the map.
pub record TransactionManager (Fields : Type 0) : Type 0 where
  pub active_transactions : List (ℕ × Transaction Fields)

module _ {Fields : Type 0} where
  pub begin_transaction :
      ℕ → View Fields → IsolationLevel → TransactionManager Fields → TransactionManager Fields
  unfolding begin insert_key
  begin_transaction id current level m = record m {
    active_transactions = insert_key id (begin id current level) m.active_transactions;
  }

  pub get_transaction : ℕ → TransactionManager Fields → Option (Transaction Fields)
  unfolding lookup
  get_transaction id m = lookup id m.active_transactions

  pub cleanup : TransactionManager Fields → TransactionManager Fields
  cleanup m = record m {
    active_transactions = keep (λ e. is_running (e.1).state) m.active_transactions;
  }
