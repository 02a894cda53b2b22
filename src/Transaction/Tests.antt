-- ===== src/Transaction/Tests.antt =====
-- The theorems on src/core/transaction.rs at concrete inputs.
use drusdenx.Prelude.{◌≡◌, ℕ, ◌⊎◌, refl, Bool, true, [], ◌∷◌, some, ok}
use drusdenx.Storage.Segment.{Document}
use drusdenx.Transaction.{
  Transaction, View, begin, serializable, committed, is_active, update, commit, update_op,
}
use drusdenx.Transaction.Laws.{Unchanged, Touches, commit-Unchanged}

abbrev stored_doc : Document Bool
stored_doc = record { id = 7; fields = true }

abbrev view : View Bool
view = record { version = 3; find = λ doc_id. ok (some stored_doc) }

abbrev later : View Bool
later = record { version = 4; find = λ doc_id. ok (some stored_doc) }

abbrev tx : Transaction Bool
tx = begin 1 view serializable

abbrev same_fields : Bool → Bool → Bool
same_fields a b = true

abbrev updated : Transaction Bool
updated = (update 7 stored_doc tx).1

commit-Unchanged_example :
    (is_active updated.state ≡ true)
    × ((commit same_fields later updated).1.state ≡ committed)
    × (update_op 7 stored_doc ∷ [] ≡ updated.operations)
    × ((later.version ≡ updated.snapshot.version)
        ⊎ ((d : ℕ) → Touches updated d → Unchanged same_fields updated.snapshot later d))
commit-Unchanged_example =
    commit-Unchanged same_fields later updated (update_op 7 stored_doc ∷ [])
      (unfold update begin in refl) (unfold commit update begin in refl)
