-- ===== src/Index/Posting/Tests.antt =====
-- The theorems of src/index/posting.rs at concrete inputs. A float is a number of hundredths.
use drusdenx.Prelude.{ℕ, ◌≡◌, List, [], ◌∷◌, arith, map, ok}
use drusdenx.Index.Posting.{Posting, new, iter, stored}
use drusdenx.Index.Posting.RoundTrip.{iter-new}

abbrev seven : Posting ℕ
seven = record { doc_id = 7; term_freq = 1; positions = 4 ∷ []; field_norm = 70 }

abbrev two : List (Posting ℕ)
two =
    record { doc_id = 4294967298; term_freq = 2; positions = 0 ∷ 300 ∷ []; field_norm = 50 }
    ∷ seven
    ∷ []

iter-new_example : iter 100 (new two) ≡ ok (map (stored 100) two)
iter-new_example = iter-new 100 two (omega arith)
