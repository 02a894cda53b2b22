-- ===== src/Search/TopK/Tests.antt =====
-- The two best of four documents, whose scores are numbers.
use drusdenx.Prelude.{
  ℕ, ◌≤◌, ◌≡◌, refl, min, List, [], ◌∷◌, ◌++◌, Bool, none, ltb, arith, length, All,
}
use drusdenx.Search.TopK.{ScoredDocument, SearchResults, new, into_results, collect_each}
use drusdenx.Search.TopK.Best.{SameDocuments, IsFalling}
use drusdenx.Search.TopK.Results.{into_results-collect_each}

abbrev scored : ℕ → ℕ → ScoredDocument ℕ Unit Unit
scored d s = record { doc_id = d; score = s; document = none; explanation = none }

abbrev four_documents : List (ScoredDocument ℕ Unit Unit)
four_documents = scored 1 5 ∷ scored 2 9 ∷ scored 3 7 ∷ scored 4 0 ∷ []

abbrev greater : ℕ → ℕ → Bool
greater a b = ltb b a

abbrev best_two : SearchResults ℕ Unit Unit
best_two = into_results 0 greater (collect_each 0 greater four_documents (new 0 greater 2))

best_two_hits :
    best_two ≡ record { hits = scored 2 9 ∷ scored 3 7 ∷ []; total_hits = 4; max_score = 7 }
unfolding into_results collect_each new
best_two_hits = refl

into_results-collect_each_example :
    (length best_two.hits ≡ min 2 4)
    × IsFalling (λ n. n) best_two.hits
    × (best_two.total_hits ≡ 4)
    × ((dropped : List (ScoredDocument ℕ Unit Unit)) × SameDocuments
          (best_two.hits ++ dropped)
          four_documents
        × All (λ d. All (λ e. d.score ≤ e.score) best_two.hits) dropped)
    × All (λ e. best_two.max_score ≤ e.score) best_two.hits
into_results-collect_each_example =
    into_results-collect_each 0 greater (λ n. n) (λ a b. refl) 2 four_documents
      (omega arith, (omega arith, (omega arith, (omega arith, tt))))
