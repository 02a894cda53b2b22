-- ===== src/Index/Posting.antt =====
-- src/index/posting.rs: postings kept as encoded blocks. `F` is the type of floats and `one` is 1.0.
-- `find_doc` is a call of the standard library's binary search on the decoded ids and is left out.
pub mod RoundTrip
mod Tests
use drusdenx.Prelude.{
  ℕ, zero, suc, ◌+◌, ◌%◌, ◌^◌, List, [], ◌∷◌, ◌++◌, arith, length, get_elem?, map, All, Option,
  none, some, Result, ok, or_panic, ◌>>=◌,
}
use drusdenx.Compression.VByte.{IsU32}
use drusdenx.Compression.IntegerBlock.{EncodedIntegerBlock, encode, decode, delta, vbyte}

pub record Posting (F : Type 0) : Type 0 where
  pub doc_id : ℕ
  pub term_freq : ℕ
  pub positions : List ℕ
  pub field_norm : F

pub record PostingList : Type 0 where
  pub doc_ids : EncodedIntegerBlock
  pub term_freqs : List ℕ
  pub positions : List EncodedIntegerBlock

-- `doc_id.0 as u32`
abbrev pub as_u32 : ℕ → ℕ
as_u32 n = n % 2 ^ 32

module _ {F : Type 0} where
  -- `PostingList::new`: 64-bit ids are cut to 32 bits, and `field_norm` is not kept.
  pub new : List (Posting F) → PostingList
  new postings = record {
    doc_ids = encode (map (λ p. as_u32 p.doc_id) postings) delta;
    term_freqs = map (λ p. p.term_freq) postings;
    positions = map (λ p. encode p.positions vbyte) postings;
  }

pub entry_count : PostingList → ℕ
entry_count list = length list.term_freqs

pub decode_doc_ids : PostingList → Result (List ℕ)
decode_doc_ids list = decode list.doc_ids

module _ {F : Type 0} (one : F) where
  -- The posting at `index`, once the ids are decoded. An index out of range panics.
  posting_at : PostingList → List ℕ → ℕ → Result (Posting F)
  posting_at list doc_ids index = do
    block ← or_panic (get_elem? list.positions index)
    positions ← decode block
    doc_id ← or_panic (get_elem? doc_ids index)
    term_freq ← or_panic (get_elem? list.term_freqs index)
    ok (record { doc_id = doc_id; term_freq = term_freq; positions = positions; field_norm = one })

  pub get_posting : PostingList → ℕ → Result (Posting F)
  unfolding posting_at
  get_posting list index = do doc_ids ← decode list.doc_ids; posting_at list doc_ids index

  -- The `for i in 0..self.len()` of `iter`, with `rounds` indices to go from `i` on.
  iter_loop : PostingList → List ℕ → ℕ → ℕ → List (Posting F) → Result (List (Posting F))
  iter_loop list doc_ids zero i postings = ok postings
  iter_loop list doc_ids (suc rounds) i postings = do
    posting ← posting_at list doc_ids i
    iter_loop list doc_ids rounds (i + 1) (postings ++ posting ∷ [])

  pub iter : PostingList → Result (List (Posting F))
  unfolding iter_loop entry_count posting_at
  iter list = do doc_ids ← decode list.doc_ids; iter_loop list doc_ids (entry_count list) 0 []

  -- What a posting reads back as.
  abbrev pub stored : Posting F → Posting F
  stored p = record p { doc_id = as_u32 p.doc_id; field_norm = one }

abbrev pub HasPositions : {F : Type 0} → Posting F → Type 0
HasPositions p = All IsU32 p.positions
