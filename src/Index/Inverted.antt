-- ===== src/Index/Inverted.antt =====
-- src/index/inverted.rs: the inverted index of documents' tokens. A term is the list of its bytes, and a
-- hash map a list in which a key stands once; its order, which the source does not fix, only decides
-- the order in which terms get their numbers. `F` is the type of floats, `one` is 1.0, `norm` the norm
-- of a document with a number of tokens, and `interval` the skip interval of a list of a length, both
-- square roots in the source. The index of prefixes is left out.
pub mod Maps
pub mod Sorted
pub mod Lists
pub mod Round
pub mod Build
pub mod Postings
pub mod Documents
pub mod Arrays
pub mod Query
pub mod Search
pub mod Dictionary
mod Tests
use drusdenx.Prelude.{
  ℕ, ◌+◌, ◌%◌, ◌^◌, List, [], ◌∷◌, ◌++◌, map, Option, none, some, Bool, true, false, ◌&&◌, ◌==◌,
  leb, if◌then◌else◌, is_empty, length, get_elem?, or_panic, Result, ok, err, panic, internal,
  ◌>>=◌,
}
use drusdenx.Index.Posting.{Posting, PostingList, entry_count, decode_doc_ids, iter, as_u32}
use mathlib.Core.Option
use drusdenx.Index.Posting
use drusdenx.Index.SkipList.{SkipList, build}
use drusdenx.Simd.{intersect_sorted, union_sorted}

abbrev pub Term : Type 0
Term = List ℕ

-- `PartialEq for Term`.
abbrev pub same_term : Term → Term → Bool
same_term [] [] = true
same_term (x ∷ xs) (y ∷ ys) = x == y && same_term xs ys
same_term _ _ = false

-- `HashMap::get`, `HashMap::insert`, and the appending to a key's entry.
module _ {V : Type 0} where
  pub get : Term → List (Term × V) → Option V
  get t [] = none
  get t ((u, v) ∷ m) = if same_term t u then some v else get t m

  pub insert : Term → V → List (Term × V) → List (Term × V)
  insert t v [] = (t, v) ∷ []
  insert t v ((u, w) ∷ m) = if same_term t u then (t, v) ∷ m else (u, w) ∷ insert t v m

pub push_position : Term → ℕ → List (Term × List ℕ) → List (Term × List ℕ)
push_position t p [] = (t, p ∷ []) ∷ []
push_position t p ((u, ps) ∷ m) =
    if same_term t u then (u, ps ++ p ∷ []) ∷ m else (u, ps) ∷ push_position t p m

-- What `add_document` reads of a token.
pub record Token : Type 0 where
  pub text : Term
  pub position : ℕ

-- The loop over the tokens.
pub group : List Token → List (Term × List ℕ) → List (Term × List ℕ)
unfolding push_position
group [] m = m
group (token ∷ tokens) m = group tokens (push_position token.text token.position m)

pub record TermInfo (F : Type 0) : Type 0 where
  pub doc_freq : ℕ
  pub total_freq : ℕ
  pub idf : F
  pub posting_offset : ℕ
  pub posting_size : ℕ

pub record TermDictionary (F : Type 0) : Type 0 where
  pub term_infos : List (TermInfo F)
  pub term_map : List (Term × ℕ)

pub record InvertedIndex (F : Type 0) : Type 0 where
  pub dictionary : TermDictionary F
  pub postings : List (Term × PostingList)
  pub skip_lists : List (Term × SkipList)
  pub doc_count : ℕ
  pub total_tokens : ℕ

module _ {F : Type 0} where
  pub new : InvertedIndex F
  new = record {
    dictionary = record { term_infos = []; term_map = [] };
    postings = [];
    skip_lists = [];
    doc_count = 0;
    total_tokens = 0;
  }

  pub set_doc_freq : ℕ → ℕ → List (TermInfo F) → List (TermInfo F)
  set_doc_freq index doc_freq [] = []
  set_doc_freq ℕ.zero doc_freq (info ∷ infos) = record info { doc_freq = doc_freq } ∷ infos
  set_doc_freq (ℕ.suc index) doc_freq (info ∷ infos) = info ∷ set_doc_freq index doc_freq infos

  -- `add_term` with what the map of terms has for the term; `zero` is 0.0.
  abbrev pub add_term_at : F → Term → ℕ → TermDictionary F → Option ℕ → TermDictionary F
  add_term_at zero t doc_freq d (some index) = record d {
    term_infos = set_doc_freq index doc_freq d.term_infos;
  }
  add_term_at zero t doc_freq d none = record {
    term_map = insert t (length d.term_infos) d.term_map;
    term_infos =
        d.term_infos
        ++ record {
          doc_freq = doc_freq;
          total_freq = doc_freq;
          idf = zero;
          posting_offset = 0;
          posting_size = 0;
        }
          ∷ [];
  }

  pub add_term : F → Term → ℕ → TermDictionary F → TermDictionary F
  unfolding get insert set_doc_freq
  add_term zero t doc_freq d = add_term_at zero t doc_freq d (get t d.term_map)

  abbrev pub info_at : List (TermInfo F) → Option ℕ → Result (Option (TermInfo F))
  info_at infos none = ok none
  info_at infos (some index) = do info ← or_panic (get_elem? infos index); ok (some info)

  pub get_term_info : Term → TermDictionary F → Result (Option (TermInfo F))
  unfolding get
  get_term_info t d = info_at d.term_infos (get t d.term_map)

  -- `sort_by_key(|p| p.doc_id)`, which keeps the order of equal keys.
  pub insert_by_doc : Posting F → List (Posting F) → List (Posting F)
  insert_by_doc p [] = p ∷ []
  insert_by_doc p (q ∷ sorted) =
      if leb p.doc_id q.doc_id then p ∷ q ∷ sorted else q ∷ insert_by_doc p sorted

  pub sort_by_doc : List (Posting F) → List (Posting F)
  unfolding insert_by_doc
  sort_by_doc [] = []
  sort_by_doc (p ∷ postings) = insert_by_doc p (sort_by_doc postings)

module _ {F : Type 0} (zero one : F) (norm : ℕ → F) (interval : ℕ → ℕ) where
  -- The postings of a term, or none.
  pub existing_postings : Option PostingList → Result (List (Posting F))
  existing_postings none = ok []
  existing_postings (some list) = iter one list

  -- One round of the loop over the terms of a document with `tokens` tokens.
  pub update_term : ℕ → ℕ → Term → List ℕ → InvertedIndex F → Result (InvertedIndex F)
  unfolding existing_postings get insert sort_by_doc add_term
  update_term doc_id tokens t positions index = do
    existing ← existing_postings (get t index.postings)
    let posting : Posting F = record {
      doc_id = doc_id;
      term_freq = length positions % 2 ^ 32;
      positions = positions;
      field_norm = norm tokens;
    }
    let list = Posting.new (sort_by_doc (existing ++ posting ∷ []))
    doc_ids ← decode_doc_ids list
    ok (record index {
      postings = insert t list index.postings;
      dictionary = add_term zero t (entry_count list % 2 ^ 32) index.dictionary;
      skip_lists = insert t (build (interval (length doc_ids)) doc_ids) index.skip_lists;
    })

  pub update_terms : ℕ → ℕ → List (Term × List ℕ) → InvertedIndex F → Result (InvertedIndex F)
  unfolding update_term
  update_terms doc_id tokens [] index = ok index
  update_terms doc_id tokens ((t, positions) ∷ groups) index = do
    index' ← update_term doc_id tokens t positions index
    update_terms doc_id tokens groups index'

  pub add_document : ℕ → List Token → InvertedIndex F → Result (InvertedIndex F)
  unfolding group update_terms
  add_document doc_id tokens index = do
    index' ← update_terms doc_id (length tokens) (group tokens []) index
    ok (record index' {
      doc_count = index'.doc_count + 1;
      total_tokens = index'.total_tokens + length tokens;
    })

  -- `list.iter()?`, and its ids as 32-bit numbers.
  pub sorted_array : PostingList → Result (List ℕ)
  sorted_array list = do postings ← iter one list; ok (map (λ p. as_u32 p.doc_id) postings)

  -- A round of the loop of `intersect_terms` that collects the arrays, with what the rest of the loop
  -- gives: `none` where a term is missing.
  abbrev pub collect_round :
      Result (Option (List (List ℕ))) → Option PostingList → Result (Option (List (List ℕ)))
  collect_round rest none = ok none
  collect_round rest (some list) = do
    doc_ids ← sorted_array list
    arrays ← rest
    ok (Option.map (λ arrays. doc_ids ∷ arrays) arrays)

  pub collect_all : List Term → InvertedIndex F → Result (Option (List (List ℕ)))
  unfolding get sorted_array
  collect_all [] index = ok (some [])
  collect_all (t ∷ terms) index = collect_round (collect_all terms index) (get t index.postings)

  -- The `simd` call never runs out of its fuel.
  pub intersect_arrays : List ℕ → List (List ℕ) → Result (List ℕ)
  intersect_arrays result [] = ok result
  intersect_arrays result (doc_ids ∷ arrays) = do
    result' ← or_panic (intersect_sorted result doc_ids)
    if is_empty result' then ok result' else intersect_arrays result' arrays

  abbrev pub intersect_collected : Option (List (List ℕ)) → Result (List ℕ)
  intersect_collected none = ok []
  intersect_collected (some []) = ok []
  intersect_collected (some (first ∷ rest)) = intersect_arrays first rest

  pub intersect_terms : List Term → InvertedIndex F → Result (List ℕ)
  unfolding collect_all intersect_arrays
  intersect_terms terms index = do arrays ← collect_all terms index; intersect_collected arrays

  -- A round of the loop of `union_terms` that collects the arrays, passing over a missing term.
  abbrev pub collect_some_round :
      Result (List (List ℕ)) → Option PostingList → Result (List (List ℕ))
  collect_some_round rest none = rest
  collect_some_round rest (some list) = do
    doc_ids ← sorted_array list
    arrays ← rest
    ok (doc_ids ∷ arrays)

  pub collect_some : List Term → InvertedIndex F → Result (List (List ℕ))
  unfolding get sorted_array
  collect_some [] index = ok []
  collect_some (t ∷ terms) index =
      collect_some_round (collect_some terms index) (get t index.postings)

  pub union_arrays : List ℕ → List (List ℕ) → List ℕ
  union_arrays result [] = result
  union_arrays result (doc_ids ∷ arrays) = union_arrays (union_sorted result doc_ids) arrays

  abbrev pub union_collected : List (List ℕ) → List ℕ
  union_collected [] = []
  union_collected (first ∷ rest) = union_arrays first rest

  pub union_terms : List Term → InvertedIndex F → Result (List ℕ)
  unfolding collect_some union_arrays
  union_terms terms index = do arrays ← collect_some terms index; ok (union_collected arrays)

  pub search_term : Term → InvertedIndex F → Option PostingList
  unfolding get
  search_term t index = get t index.postings
