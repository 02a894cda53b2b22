-- ===== src/Writer/Index/Files.antt =====
-- The documents that the files of segments (src/storage/segment_writer.rs) hold.
use mathlib.Core.List.{append_assoc}
use drusdenx.Prelude.{
  ℕ, ◌≢◌, ◌≡◌, refl, ap, sym, ◌∙◌, List, [], ◌∷◌, ◌++◌, false, ◌==◌, if◌then◌else◌, length, All,
  arith,
}
use drusdenx.Storage.Segment.{Segment, Document}

module _ {A : Type 0} where
  pub length-zero : (xs : List A) → length xs ≡ 0 → xs ≡ []
  length-zero [] h = refl
  length-zero (x ∷ xs) h = absurd (omega arith)

module _ {Fields : Type 0} where
  -- The documents of segments, by the files that hold them.
  unfoldable pub docs_of : (ℕ → List (Document Fields)) → List Segment → List (Document Fields)
  docs_of stored [] = []
  docs_of stored (s ∷ segments) = stored s.id ++ docs_of stored segments

  pub docs_of-append :
      (stored : ℕ → List (Document Fields)) (xs ys : List Segment)
      → docs_of stored (xs ++ ys) ≡ docs_of stored xs ++ docs_of stored ys
  unfolding docs_of
  docs_of-append stored [] ys = refl
  docs_of-append stored (x ∷ xs) ys =
      ap (◌++◌ (stored x.id)) (docs_of-append stored xs ys)
      ∙ sym (append_assoc (stored x.id) (docs_of stored xs) (docs_of stored ys))

  -- A file with another id than each of the segments is none of theirs.
  pub docs_of_fresh :
      (stored : ℕ → List (Document Fields)) (id : ℕ) (docs : List (Document Fields))
      (segments : List Segment)
      → All (λ s. s.id ≢ id) segments
      → docs_of (λ i. if i == id then docs else stored i) segments ≡ docs_of stored segments
  unfolding docs_of
  docs_of_fresh stored id docs [] h = refl
  docs_of_fresh stored id docs (s ∷ segments) h =
      let differs : (s.id == id) ≡ false = grind arith in
      rw differs (ap (◌++◌ (stored s.id)) (docs_of_fresh stored id docs segments h.1))
