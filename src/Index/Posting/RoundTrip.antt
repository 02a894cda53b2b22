-- ===== src/Index/Posting/RoundTrip.antt =====
-- Reading back what `PostingList::new` (src/index/posting.rs) stored.
use mathlib.Core.List.{append_assoc, append-nil}
use drusdenx.Prelude.{
  ℕ, zero, suc, ◌+◌, ◌≡◌, refl, ap, ◌∙◌, List, [], ◌∷◌, ◌++◌, arith, length, get_elem?, drop, map,
  All, some, ok, length-map, get_elem?-map, All-get_elem?, get_elem?-drop, drop_all,
}
use native.Mathlib.Numerals.{add-one}
use drusdenx.Compression.VByte.{IsU32}
use drusdenx.Compression.IntegerBlock.{encode, delta, vbyte, decode-encode}
use drusdenx.Index.Posting.{
  Posting, as_u32, new, entry_count, decode_doc_ids, posting_at, get_posting, iter_loop, iter,
  stored, HasPositions,
}

module _ {F : Type 0} where
  abbrev ids : List (Posting F) → List ℕ
  ids = map (λ p. as_u32 p.doc_id)

  ids-IsU32 : (postings : List (Posting F)) → All IsU32 (ids postings)
  ids-IsU32 [] = tt
  ids-IsU32 (p ∷ postings) = (omega arith, ids-IsU32 postings)

  -- `decode_doc_ids` of a posting list that `new` built gives the ids of the postings, each cut to 32
  -- bits, in the order in which they were given.
  pub decode_doc_ids-new :
      (postings : List (Posting F)) → decode_doc_ids (new postings) ≡ ok (ids postings)
  unfolding decode_doc_ids new
  decode_doc_ids-new postings = decode-encode (ids postings) delta (ids-IsU32 postings)

  pub entry_count-new : (postings : List (Posting F)) → entry_count (new postings) ≡ length postings
  unfolding entry_count new
  entry_count-new postings = length-map postings (λ p. p.term_freq)

  -- A change of postings that keeps their ids, frequencies and positions keeps the list.
  pub new-map :
      (f : Posting F → Posting F)
      → ((p : Posting F) → (f p).doc_id ≡ p.doc_id)
      → ((p : Posting F) → (f p).term_freq ≡ p.term_freq)
      → ((p : Posting F) → (f p).positions ≡ p.positions)
      → (postings : List (Posting F)) → new (map f postings) ≡ new postings
  unfolding new
  new-map f same_id same_freq same_positions postings =
      rw
        (
          same (λ p. as_u32 p.doc_id) (λ p. ap as_u32 (same_id p)) postings,
          same (λ p. p.term_freq) same_freq postings,
          same (λ p. encode p.positions vbyte) (λ p. ap (λ ps. encode ps vbyte) (same_positions p))
              postings,
        )
        refl
    where
      same :
          {B : Type 0} (g : Posting F → B)
          → ((p : Posting F) → g (f p) ≡ g p)
          → (postings : List (Posting F)) → map g (map f postings) ≡ map g postings
      same g h [] = refl
      same g h (p ∷ postings) = rw (h p, same g h postings) refl

module _ {F : Type 0} (one : F) where
  posting_at-new :
      (postings : List (Posting F)) (i : ℕ) (p : Posting F)
      → get_elem? postings i ≡ some p
      → HasPositions p
      → posting_at one (new postings) (ids postings) i ≡ ok (stored one p)
  unfolding posting_at new
  posting_at-new postings i p e h = rw (
    get_elem?-map (λ q. encode q.positions vbyte) postings i e,
    decode-encode p.positions vbyte h,
    get_elem?-map (λ q. as_u32 q.doc_id) postings i e,
    get_elem?-map (λ q. q.term_freq) postings i e,
  )

  iter_loop-new :
      (postings : List (Posting F)) (rounds i : ℕ) (out : List (Posting F))
      → All HasPositions postings
      → i + rounds ≡ length postings
      → iter_loop one (new postings) (ids postings) rounds i out
        ≡ ok (out ++ map (stored one) (drop i postings))
  unfolding iter_loop
  iter_loop-new postings zero i out h e = rw (drop_all postings i (omega arith), append-nil)
  iter_loop-new postings (suc rounds) i out h e =
      let (p, found, rest) = get_elem?-drop postings i (omega arith) in
      rw (posting_at-new postings i p found (All-get_elem? HasPositions postings i h found), rest)
        (rw add-one
            (iter_loop-new postings rounds (suc i) (out ++ stored one p ∷ []) h (omega arith))
          ∙ ap ok (append_assoc out (stored one p ∷ []) (map (stored one) (drop (suc i) postings))))

  -- For postings whose positions are u32s, `iter` returns them all, in order; of each it changes the
  -- id, which is cut to 32 bits, and the norm, which becomes 1.0.
  pub iter-new :
      (postings : List (Posting F))
      → All HasPositions postings
      → iter one (new postings) ≡ ok (map (stored one) postings)
  unfolding iter decode_doc_ids
  iter-new postings h = rw (decode_doc_ids-new postings) (
      iter_loop-new postings (entry_count (new postings)) 0 [] h
        (omega (arith, entry_count-new postings)))

  -- For postings whose positions are u32s, `get_posting` at an index in range returns the posting
  -- there, with its id cut to 32 bits and its norm set to 1.0.
  pub get_posting-new :
      (postings : List (Posting F)) (i : ℕ) (p : Posting F)
      → All HasPositions postings
      → get_elem? postings i ≡ some p
      → get_posting one (new postings) i ≡ ok (stored one p)
  unfolding get_posting decode_doc_ids
  get_posting-new postings i p h e =
      rw (decode_doc_ids-new postings)
        (posting_at-new postings i p e (All-get_elem? HasPositions postings i h e))
