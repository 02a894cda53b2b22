-- ===== src/Memory/Swap.antt =====
-- src/memory/swap.rs: pages of memory that are moved to disk. Compression is the lz4 crate's, an
-- interface here. That the file system writes and reads what it is asked to is the case modelled.
use drusdenx.Prelude.{
  ℕ, ◌≤◌, ◌<◌, ◌^◌, ◌≡◌, refl, List, [], ◌∷◌, Bool, true, false, ltb, ◌==◌, ◌&&◌, ==_self,
  if◌then◌else◌, length, drop, lt→ltb, le→not-ltb, Result, ok, err, not_found, ◌>>=◌,
}

-- `lz4::block::compress` without the size in front, and `lz4::block::decompress`.
pub record Lz4 : Type 0 where
  pub compress : List ℕ → Result (List ℕ)
  pub decompress : List ℕ → Result (List ℕ)

-- The files of the swap directory by page, and the pages that `swapped_pages` has.
pub record SwapManager : Type 0 where
  pub files : ℕ → List ℕ
  pub swapped_pages : ℕ → Bool
  pub swap_threshold : ℕ

-- `page.len() > 4 && &page[0..4] == b"LZ4\0"`.
unfoldable pub has_marker : List ℕ → Bool
has_marker (a ∷ b ∷ c ∷ d ∷ e ∷ rest) = a == 76 && b == 90 && c == 52 && d == 0
has_marker _ = false

-- `SwapManager::new`, over the empty directory.
pub new : SwapManager
new = record { files = λ p. []; swapped_pages = λ p. false; swap_threshold = 2 ^ 20 }

module _ (lz4 : Lz4) where
  pub swap_out : ℕ → List ℕ → SwapManager → Result SwapManager
  swap_out page_id page m =
      (if ltb m.swap_threshold (length page) then lz4.compress page else ok page) >>= λ to_write.
      ok (record m {
        files = λ p. if p == page_id then to_write else m.files p;
        swapped_pages = λ p. if p == page_id then true else m.swapped_pages p;
      })

  pub swap_in : ℕ → SwapManager → Result (List ℕ) × SwapManager
  unfolding has_marker
  swap_in page_id m =
      let page = m.files page_id in
      let read = if has_marker page then lz4.decompress (drop 4 page) else ok page in
      let removed : SwapManager = record m {
        swapped_pages = λ p. if p == page_id then false else m.swapped_pages p;
      } in
      if m.swapped_pages page_id then (read, removed) else (err not_found, m)

  swap_in_file :
      (page_id : ℕ) (page : List ℕ) (m : SwapManager)
      → m.swapped_pages page_id ≡ true
      → m.files page_id ≡ page
      → has_marker page ≡ false
      → (swap_in page_id m).0 ≡ ok page
  unfolding swap_in
  swap_in_file page_id page m s f h = rw (s, f, h) refl

  -- What `swap_in` finds after a `swap_out` that wrote the bytes.
  swap_in_written :
      (page_id : ℕ) (page written : List ℕ) (m : SwapManager)
      → (if ltb m.swap_threshold (length page) then lz4.compress page else ok page) ≡ ok written
      → has_marker written ≡ false
      → (swap_out page_id page m >>= λ m'. (swap_in page_id m').0) ≡ ok written
  unfolding swap_out
  swap_in_written page_id page written m w h =
      rw w
        (swap_in_file page_id written _ (rw (==_self page_id) refl) (rw (==_self page_id) refl) h)

  -- A page that is not larger than the threshold, and does not look like a compressed one, comes back
  -- as it was.
  pub swap_in-swap_out :
      (page_id : ℕ) (page : List ℕ) (m : SwapManager)
      → length page ≤ m.swap_threshold
      → has_marker page ≡ false
      → (swap_out page_id page m >>= λ m'. (swap_in page_id m').0) ≡ ok page
  swap_in-swap_out page_id page m small h =
      swap_in_written page_id page page m (rw (le→not-ltb _ _ small) refl) h

  -- A larger page comes back as its compressed bytes, where these do not look like a compressed page:
  -- `swap_out` does not write the mark that `swap_in` looks for.
  pub swap_in-swap_out_large :
      (page_id : ℕ) (page written : List ℕ) (m : SwapManager)
      → m.swap_threshold < length page
      → lz4.compress page ≡ ok written
      → has_marker written ≡ false
      → (swap_out page_id page m >>= λ m'. (swap_in page_id m').0) ≡ ok written
  swap_in-swap_out_large page_id page written m large c h =
      swap_in_written page_id page written m (rw (lt→ltb _ _ large) c) h
