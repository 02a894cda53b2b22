-- ===== src/Search/TopK.antt =====
-- src/search/results.rs: the collector of the k best documents. `S` is the type of scores, `zero` is
-- 0.0 and `greater` the test `>`. The binary heap is a list with the document that `pop` gives first,
-- which is one with the lowest score; the comparison of documents is reversed for this. `D` and `E` are
-- the types of documents and of explanations.
pub mod Best
pub mod Sorting
pub mod Results
mod Tests
use drusdenx.Prelude.{
  ℕ, ◌+◌, List, [], ◌∷◌, Option, none, some, Bool, ◌||◌, ltb, if◌then◌else◌, length,
}

pub record ScoredDocument (S D E : Type 0) : Type 0 where
  pub doc_id : ℕ
  pub score : S
  pub document : Option D
  pub explanation : Option E

pub record TopKCollector (S D E : Type 0) : Type 0 where
  pub heap : List (ScoredDocument S D E)
  pub k : ℕ
  pub min_score : S
  pub total_collected : ℕ

-- The time that a search took is left out.
pub record SearchResults (S D E : Type 0) : Type 0 where
  pub hits : List (ScoredDocument S D E)
  pub total_hits : ℕ
  pub max_score : S

module _ {S D E : Type 0} (zero : S) (greater : S → S → Bool) where
  pub new : ℕ → TopKCollector S D E
  new k = record { heap = []; k = k; min_score = zero; total_collected = 0 }

  -- `BinaryHeap::push`.
  pub push : ScoredDocument S D E → List (ScoredDocument S D E) → List (ScoredDocument S D E)
  push d [] = d ∷ []
  push d (e ∷ heap) = if greater d.score e.score then e ∷ push d heap else d ∷ e ∷ heap

  -- `pop`, and the score of what `peek` gives then.
  abbrev pub popped : TopKCollector S D E → List (ScoredDocument S D E) → TopKCollector S D E
  popped c [] = record c { heap = [] }
  popped c (d ∷ []) = record c { heap = [] }
  popped c (d ∷ e ∷ heap) = record c { heap = e ∷ heap; min_score = e.score }

  pub collect : ScoredDocument S D E → TopKCollector S D E → TopKCollector S D E
  unfolding push
  collect d c =
      let counted = record c { total_collected = c.total_collected + 1 } in
      let heap = push d c.heap in
      if greater d.score c.min_score || ltb (length c.heap) c.k
      then if ltb c.k (length heap) then popped counted heap else record counted { heap = heap }
      else counted

  -- `sort_by` with the scores in descending order, which keeps the order of equal ones.
  pub insert_descending :
      ScoredDocument S D E → List (ScoredDocument S D E) → List (ScoredDocument S D E)
  insert_descending d [] = d ∷ []
  insert_descending d (e ∷ sorted) =
      if greater e.score d.score then e ∷ insert_descending d sorted else d ∷ e ∷ sorted

  pub sort_descending : List (ScoredDocument S D E) → List (ScoredDocument S D E)
  unfolding insert_descending
  sort_descending [] = []
  sort_descending (d ∷ docs) = insert_descending d (sort_descending docs)

  pub get_results : TopKCollector S D E → List (ScoredDocument S D E)
  unfolding sort_descending
  get_results c = sort_descending c.heap

  abbrev pub peek_score : List (ScoredDocument S D E) → S
  peek_score [] = zero
  peek_score (d ∷ heap) = d.score

  pub into_results : TopKCollector S D E → SearchResults S D E
  unfolding sort_descending
  into_results c = record {
    hits = sort_descending c.heap;
    total_hits = c.total_collected;
    max_score = peek_score c.heap;
  }

  -- A search hands its documents to the collector one by one.
  pub collect_each : List (ScoredDocument S D E) → TopKCollector S D E → TopKCollector S D E
  unfolding collect
  collect_each [] c = c
  collect_each (d ∷ docs) c = collect_each docs (collect d c)
