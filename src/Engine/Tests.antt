-- ===== src/Engine/Tests.antt =====
-- The theorems on src/core/engine.rs at a new engine and a small log.
use drusdenx.Prelude.{
  ℕ, ◌≡◌, refl, List, [], ◌∷◌, ◌++◌, none, Bool, true, false, ◌==◌, All, Result, ok, err, io,
  not_found,
}
use drusdenx.Storage.Wal.{WalEntry, add_document_op, commit_op, open_wal}
use drusdenx.Storage.Wal.Replay.{log_bytes}
use drusdenx.Storage.Wal.Samples.{codec, entry}
use drusdenx.Transaction.{
  Transaction, View, insert_op, read_committed, begin, check_active, insert, finish, commit,
}
use drusdenx.Writer.Index.{IndexWriter}
use drusdenx.Writer.Index.Contents.{HoldsPublished}
use drusdenx.Writer.Index.Samples.{
  list_bitmap, none_held, file_size, document, writer, writer-Holds,
}
use drusdenx.Engine.{
  SearchEngine, is_commit, operations_after_last_commit, recover, with_transaction,
}
use drusdenx.Engine.Recovery.{operations_after_last_commit_lem, recover-open_wal}
use drusdenx.Engine.Sessions.{with_transaction_lem}

abbrev engine : SearchEngine ℕ (List ℕ)
engine = record { writer = writer; write_count = 0; low_memory = none }

abbrev before : List (WalEntry ℕ)
before = entry 0 (add_document_op (record { id = 1; fields = 2 })) ∷ []

abbrev tail : List (WalEntry ℕ)
tail = entry 2 (add_document_op document) ∷ []

abbrev last : WalEntry ℕ
last = entry 1 commit_op

last_commits : is_commit last ≡ true
unfolding is_commit
last_commits = refl

tail_does_not : All (λ e. is_commit e ≡ false) tail
unfolding is_commit
tail_does_not = (refl, tt)

operations_after_last_commit_lem_example :
    (operations_after_last_commit (before ++ last ∷ tail) ≡ add_document_op document ∷ [])
    × (operations_after_last_commit tail ≡ add_document_op document ∷ [])
operations_after_last_commit_lem_example =
    operations_after_last_commit_lem before tail last last_commits tail_does_not

recover-open_wal_example :
    recover list_bitmap none_held file_size codec
      (open_wal (log_bytes codec (before ++ last ∷ tail)) 0 ∷ [])
      engine
    ≡ (err io, engine)
recover-open_wal_example =
    recover-open_wal list_bitmap none_held file_size codec (log_bytes codec (before ++ last ∷ tail))
      0 [] engine

abbrev view : IndexWriter ℕ (List ℕ) → View ℕ
view w = record { version = 0; find = λ id. ok none }

abbrev fields_size : ℕ → ℕ
fields_size n = n

abbrev same_fields : ℕ → ℕ → Bool
same_fields a b = a == b

abbrev inserts : Transaction ℕ → Result (Unit {0}) × Transaction ℕ
inserts tx = insert document tx

abbrev fails : Transaction ℕ → Result ℕ × Transaction ℕ
fails tx = (err not_found, tx)

abbrev started : Transaction ℕ
started = begin 1 (view writer) read_committed

insert_gives : inserts started ≡ (ok tt, (insert document started).1)
unfolding insert begin check_active
insert_gives = refl

commit_gives :
    (commit same_fields (view writer) (insert document started).1).0 ≡ ok (insert_op document ∷ [])
unfolding commit insert begin check_active finish
commit_gives = refl

with_transaction_lem_example :
    let (result, e) =
      with_transaction list_bitmap none_held file_size fields_size same_fields view 1 read_committed
        inserts engine in
    (result ≡ ok tt)
    × HoldsPublished list_bitmap (document ∷ []) e.writer
    × (e.writer.wal.entries ≡ engine.writer.wal.entries ++ add_document_op document ∷ [])
with_transaction_lem_example =
    with_transaction_lem list_bitmap none_held file_size fields_size same_fields view 1
      read_committed inserts engine tt (insert document started).1 (insert_op document ∷ []) []
      insert_gives commit_gives refl writer-Holds
