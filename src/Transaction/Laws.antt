-- ===== src/Transaction/Laws.antt =====
-- What a transaction of src/core/transaction.rs sees, and when it commits.
use drusdenx.Prelude.{
  ℕ, ◌≡◌, ◌⊎◌, inl, inr, refl, List, [], ◌∷◌, ◌++◌, Option, some, Bool, true, false, not, ◌==◌,
  ◌>>=◌, map, In, In-append_left, In-append_right, All-In, All, Result, ok, err, panic,
  invalid_state, ==_self, ==_iff, Bool-cases, if◌then◌else◌,
}
use drusdenx.Storage.Segment.{Document}
use drusdenx.Transaction.{
  Transaction, TransactionOp, View, active, preparing, committed, is_active, insert_key, lookup,
  check_active, read, insert, update, delete, tracked_doc_ids, keys, op_key, documents_equal,
  unchanged, validate_reads, commit, finish, validates,
}

module _ {Fields : Type 0} where
  -- An active transaction reads back the document that it inserted or updated last, whatever its
  -- snapshot holds.
  pub read-write :
      (tx : Transaction Fields) (doc_id : ℕ) (doc : Document Fields)
      → tx.state ≡ active
      → ((read doc.id (insert doc tx).1).0 ≡ ok (some doc))
        × ((read doc_id (update doc_id doc tx).1).0 ≡ ok (some doc))
  unfolding read insert update check_active insert_key lookup
  read-write tx doc_id doc h = rw (h, read, ==_self doc.id, ==_self doc_id) (refl, refl)

  -- A transaction that is no longer active refuses to read, write and commit with an `InvalidState`
  -- error, and stays as it is.
  pub refused_unless_active :
      (same_fields : Fields → Fields → Bool) (tx : Transaction Fields) (current : View Fields)
      (doc_id : ℕ) (doc : Document Fields)
      → is_active tx.state ≡ false
      → (read doc_id tx ≡ (err invalid_state, tx))
        × (insert doc tx ≡ (err invalid_state, tx))
        × (update doc_id doc tx ≡ (err invalid_state, tx))
        × (delete doc_id tx ≡ (err invalid_state, tx))
        × (commit same_fields current tx ≡ (err invalid_state, tx))
  unfolding read insert update delete commit check_active
  refused_unless_active same_fields tx current doc_id doc h =
      rw (insert, update, delete, check_active, h) (refl, refl, refl, refl, refl)

  -- Both snapshots have the same document, or neither has one.
  abbrev pub Unchanged : (Fields → Fields → Bool) → View Fields → View Fields → ℕ → Type 0
  Unchanged same_fields original current doc_id =
      (a b : Option (Document Fields)) × (original.find doc_id ≡ ok a)
      × (current.find doc_id ≡ ok b)
      × (documents_equal same_fields a b ≡ true)

  -- The transaction read the document, wrote it, or has an operation on it in its list.
  abbrev pub Touches : Transaction Fields → ℕ → Type 0
  Touches tx d =
      In d (keys tx.read_set) ⊎ (In d (keys tx.write_set) ⊎ In d (map op_key tx.operations))

  Touches-tracked : (tx : Transaction Fields) (d : ℕ) → Touches tx d → In d (tracked_doc_ids tx)
  unfolding tracked_doc_ids
  Touches-tracked tx d (inl m) =
      In-append_left d (keys tx.read_set ++ keys tx.write_set) (map op_key tx.operations)
        (In-append_left d (keys tx.read_set) (keys tx.write_set) m)
  Touches-tracked tx d (inr (inl m)) =
      In-append_left d (keys tx.read_set ++ keys tx.write_set) (map op_key tx.operations)
        (In-append_right d (keys tx.read_set) (keys tx.write_set) m)
  Touches-tracked tx d (inr (inr m)) =
      In-append_right d (keys tx.read_set ++ keys tx.write_set) (map op_key tx.operations) m

  module _ (same_fields : Fields → Fields → Bool) where
    touched-Unchanged :
        (current : View Fields) (tx : Transaction Fields)
        → (current.version ≡ tx.snapshot.version)
          ⊎ All (Unchanged same_fields tx.snapshot current) (tracked_doc_ids tx)
        → (current.version ≡ tx.snapshot.version)
          ⊎ ((d : ℕ) → Touches tx d → Unchanged same_fields tx.snapshot current d)
    touched-Unchanged current tx (inl e) = inl e
    touched-Unchanged current tx (inr h) = inr (λ d m.
        All-In (Unchanged same_fields tx.snapshot current) d (tracked_doc_ids tx) h
          (Touches-tracked tx d m))

    check_next :
        (original current : Result (Option (Document Fields))) (rest : Result Bool)
        → (original >>= λ a.
            current >>= λ b. if not (documents_equal same_fields a b) then ok false else rest)
          ≡ ok true
        → ((a b : Option (Document Fields)) × (original ≡ ok a)
            × (current ≡ ok b)
            × (documents_equal same_fields a b ≡ true))
          × (rest ≡ ok true)
    check_next (ok a) (ok b) rest e = elim (Bool-cases (documents_equal same_fields a b)) [
      | inl same ↦ ((a, b, refl, refl, same), rw same at e)
      | inr ne ↦ absurd (not_found (rw ne at e))
    ]
      where
        not_found : ok false ≡ ok true → ⊥
        not_found e = cc
    check_next (ok a) (err k) rest e = absurd (cc)
    check_next (ok a) panic rest e = absurd (cc)
    check_next (err k) current rest e = absurd (cc)
    check_next panic current rest e = absurd (cc)

    unchanged-All :
        (original current : View Fields) (ids : List ℕ)
        → unchanged same_fields original current ids ≡ ok true
        → All (Unchanged same_fields original current) ids
    unfolding unchanged
    unchanged-All original current [] e = tt
    unchanged-All original current (d ∷ ids) e =
        let (same, rest) = check_next (original.find d) (current.find d) _ e in
        (same, unchanged-All original current ids rest)

    validate_reads-Unchanged :
        (current : View Fields) (tx : Transaction Fields)
        → validate_reads same_fields current tx ≡ ok true
        → (current.version ≡ tx.snapshot.version)
          ⊎ All (Unchanged same_fields tx.snapshot current) (tracked_doc_ids tx)
    unfolding validate_reads
    validate_reads-Unchanged current tx e =
        elim (Bool-cases (current.version == tx.snapshot.version)) [
          | inl same ↦ inl ((==_iff _ _).0 same)
          | inr ne ↦ inr (unchanged-All tx.snapshot current (tracked_doc_ids tx) (rw ne at e))
        ]

    tracked-prepared :
        (tx : Transaction Fields)
        → tracked_doc_ids (record tx { state = preparing }) ≡ tracked_doc_ids tx
    unfolding tracked_doc_ids
    tracked-prepared tx = refl

    finish_ok :
        (v : Result Bool) (tx : Transaction Fields) (ops : List (TransactionOp Fields))
        → (finish v tx).0 ≡ ok ops
        → (v ≡ ok true) × (ops ≡ tx.operations) × ((finish v tx).1.state ≡ committed)
    unfolding finish
    finish_ok (ok true) tx ops e = (refl, cc, refl)
    finish_ok (ok false) tx ops e = absurd (cc)
    finish_ok (err k) tx ops e = absurd (cc)
    finish_ok panic tx ops e = absurd (cc)

    -- A commit of a transaction above `ReadCommitted` that succeeds was made in the active state,
    -- leaves the state `Committed`, and returns the logged operations; and the current snapshot is
    -- the transaction's own, or every document that the transaction read, wrote or deleted is
    -- unchanged between the two.
    pub commit-Unchanged :
        (current : View Fields) (tx : Transaction Fields) (ops : List (TransactionOp Fields))
        → validates tx.isolation_level ≡ true
        → (commit same_fields current tx).0 ≡ ok ops
        → (is_active tx.state ≡ true)
          × ((commit same_fields current tx).1.state ≡ committed)
          × (ops ≡ tx.operations)
          × ((current.version ≡ tx.snapshot.version)
              ⊎ ((d : ℕ) → Touches tx d → Unchanged same_fields tx.snapshot current d))
    unfolding commit
    commit-Unchanged current tx ops level e = elim (Bool-cases (is_active tx.state)) [
      | inr gone ↦ absurd (no_ok _ refl (rw gone at e))
      | inl live ↦
          let prepared : Transaction Fields = record tx { state = preparing } in
          let (v, same, done) =
            finish_ok (validate_reads same_fields current prepared) prepared ops
              (rw (live, level) at e) in
          (
            live,
            rw (live, level) done,
            same,
            touched-Unchanged current tx
                (rw (← tracked-prepared tx) (validate_reads-Unchanged current prepared v)),
          )
    ]
      where
        no_ok : (m : Result (List (TransactionOp Fields))) → m ≡ err invalid_state → m ≡ ok ops → ⊥
        no_ok m e e' = absurd (cc)
