-- ===== src/Writer/Tests.antt =====
-- Theorems on src/writer/session.rs at concrete inputs.
use drusdenx.Prelude.{
  ℕ, ◌%◌, ◌^◌, ◌≡◌, refl, List, [], ◌∷◌, ◌++◌, some, Bool, true, ◌||◌, ◌==◌, any, is_empty, false,
  true, ◌≡◌, length, arith,
}
use drusdenx.Storage.Segment.{Segment, Document}
use drusdenx.Storage.Bitmap.{Bitmap}
use drusdenx.Mvcc.{Controller, current_snapshot}
use drusdenx.Mvcc.Publish.{IsValid}
use drusdenx.Writer.{Log, FlushedSession, commit}
use drusdenx.Writer.Laws.{added, commit-current}

pub empty_list : (b : List ℕ) → is_empty b ≡ true → (y : ℕ) → any (λ x. x == y) b ≡ false
empty_list [] h y = refl
empty_list (x ∷ b) h y = absurd (cc)

-- A bitmap as the list of its members.
abbrev list_bitmap : Bitmap
list_bitmap = record {
  Bits = List ℕ;
  new = [];
  insert = λ b x. x ∷ b;
  contains = λ b y. any (λ x. x == y) b;
  contains-new = λ y. refl;
  contains-insert = λ b x y. refl;
  is_empty = λ b. is_empty b;
  contains-is_empty = empty_list;
}

abbrev empty_log : Log Bool
empty_log = record { entries = []; synced = 0; position = 0; entry_size = λ n. 0 }

abbrev document : Document Bool
document = record { id = 5; fields = true }

abbrev segment : Segment
segment = record {
  id = 1;
  doc_count = 1;
  metadata = record { size_bytes = 10; min_doc_id = 5; max_doc_id = 5 };
}

abbrev flushed : FlushedSession Bool
flushed = record { wal = empty_log; finished_segment = some segment; pending_deletes = 9 ∷ [] }

abbrev controller : Controller (List ℕ)
controller = record {
  versions = record { version = 0; segments = []; doc_count = 0; deleted_docs = 3 ∷ [] } ∷ [];
  current_version = 1;
  max_versions = 100;
}

controller-IsValid : IsValid controller
controller-IsValid = record { ordered = omega arith; below = omega arith }

commit-current_example :
    let (r, (log, c)) = commit list_bitmap (λ v. 0) flushed controller in
    IsValid c
    × ((current_snapshot {B = List ℕ} [] c).segments
        ≡ (current_snapshot {B = List ℕ} [] controller).segments
          ++ added list_bitmap (some segment))
    × ((y : ℕ)
        → any (λ x. x == y) (current_snapshot {B = List ℕ} [] c).deleted_docs
          ≡ any (λ id. id % 2 ^ 32 == y) (9 ∷ [])
            || any (λ x. x == y) (current_snapshot {B = List ℕ} [] controller).deleted_docs)
    × ((current_snapshot {B = List ℕ} [] c).version ≡ r.snapshot_version)
    × (log.synced ≡ length log.entries)
commit-current_example = commit-current list_bitmap (λ v. 0) flushed controller controller-IsValid
