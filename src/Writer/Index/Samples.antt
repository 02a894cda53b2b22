-- ===== src/Writer/Index/Samples.antt =====
-- A new writer and documents, for the tests.
use drusdenx.Prelude.{ℕ, refl, List, [], ◌∷◌, ◌==◌, any, is_empty, false, true, ◌≡◌, length}
use drusdenx.Storage.Segment.{Document}
use drusdenx.Storage.Bitmap.{Bitmap}
use drusdenx.Mvcc.{new}
use drusdenx.Writer.{Log}
use drusdenx.Writer.Index.{IndexWriter, new_index_writer}
use drusdenx.Writer.Index.Contents.{Holds, new_index_writer-Holds}

pub empty_list : (b : List ℕ) → is_empty b ≡ true → (y : ℕ) → any (λ x. x == y) b ≡ false
empty_list [] h y = refl
empty_list (x ∷ b) h y = absurd (cc)

-- A bitmap as the list of its members.
abbrev pub list_bitmap : Bitmap
list_bitmap = record {
  Bits = List ℕ;
  new = [];
  insert = λ b x. x ∷ b;
  contains = λ b y. any (λ x. x == y) b;
  contains-new = λ y. refl;
  contains-insert = λ b x y. refl;
  is_empty = λ b. is_empty b;
  contains-is_empty = empty_list;
}

abbrev pub none_held : ℕ → ℕ
none_held version = 0

abbrev pub file_size : List (Document ℕ) → ℕ
file_size docs = length docs

abbrev pub empty_log : Log ℕ
empty_log = record { entries = []; synced = 0; position = 0; entry_size = λ n. 0 }

abbrev pub no_files : ℕ → List (Document ℕ)
no_files id = []

abbrev pub document : Document ℕ
document = record { id = 5; fields = 8 }

abbrev pub writer : IndexWriter ℕ (List ℕ)
writer = new_index_writer list_bitmap none_held file_size 0 new empty_log no_files

pub writer-Holds : Holds list_bitmap [] writer
writer-Holds = new_index_writer-Holds list_bitmap none_held file_size 0 empty_log no_files
