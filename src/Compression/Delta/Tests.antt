-- ===== src/Compression/Delta/Tests.antt =====
-- Runs of src/compression/delta.rs, and its theorems at concrete inputs.
use drusdenx.Prelude.{ℕ, ◌≡◌, refl, List, [], ◌∷◌, ok}
use drusdenx.Compression.Delta.{decode_u32_list}

abbrev unsorted : List ℕ
unsorted = 1000 ∷ 1007 ∷ 3 ∷ []

-- Three bytes are too few for a first value, and decode to nothing.
decode_short : decode_u32_list (1 ∷ 2 ∷ 3 ∷ []) ≡ ok []
unfolding decode_u32_list
decode_short = refl
