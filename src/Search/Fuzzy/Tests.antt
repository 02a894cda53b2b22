-- ===== src/Search/Fuzzy/Tests.antt =====
-- Runs of the edit distances, and the theorem at a concrete input.
use drusdenx.Prelude.{ℕ, ◌≤◌, ◌≡◌, refl, List, [], ◌∷◌, none}
use drusdenx.Search.Fuzzy.{FuzzyAutomaton, new, levenshtein_distance, edit_distance}
use drusdenx.Search.Fuzzy.Edits.{Edits, price}
use drusdenx.Search.Fuzzy.Rows.{levenshtein_distance_least}
use drusdenx.Search.Fuzzy.Transpositions.{edit_distance_least}

abbrev teh : List ℕ
teh = b't' ∷ b'e' ∷ b'h' ∷ []

abbrev the : List ℕ
the = b't' ∷ b'h' ∷ b'e' ∷ []

distance_runs : levenshtein_distance teh the ≡ 2
unfolding levenshtein_distance
distance_runs = refl

levenshtein_distance_least_example :
    ((s : Edits teh the) × (price s ≡ levenshtein_distance teh the))
    × ((s : Edits teh the) → levenshtein_distance teh the ≤ price s)
levenshtein_distance_least_example = levenshtein_distance_least teh the

abbrev automaton : FuzzyAutomaton
automaton = new teh 1

edit_distance_least_example :
    ((s : Edits automaton.term the) × (price s ≡ edit_distance automaton the))
    × ((s : Edits automaton.term the) → edit_distance automaton the ≤ price s)
edit_distance_least_example = edit_distance_least automaton the

not_built : automaton.dfa ≡ none
unfolding new
not_built = refl
