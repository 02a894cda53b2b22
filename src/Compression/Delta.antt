-- ===== src/Compression/Delta.antt =====
-- src/compression/delta.rs: the first value as four bytes, then the wrapping differences.
pub mod RoundTrip
mod Tests
use drusdenx.Prelude.{
  ℕ, zero, suc, ◌+◌, ◌-◌, ◌*◌, ◌/◌, ◌%◌, ◌^◌, List, [], ◌∷◌, ◌++◌, length, drop, Result, ok, err,
  internal, ◌>>=◌,
}
use drusdenx.Compression.VByte.{encode_u32, decode_u32}

-- `u32::to_le_bytes` and `u32::from_le_bytes`.
abbrev pub to_le_bytes : ℕ → List ℕ
to_le_bytes v = v % 256 ∷ v / 256 % 256 ∷ v / 65536 % 256 ∷ v / 16777216 % 256 ∷ []

abbrev pub from_le_bytes : ℕ → ℕ → ℕ → ℕ → ℕ
from_le_bytes a b c d = a + 256 * b + 65536 * c + 16777216 * d

abbrev pub wrapping_sub : ℕ → ℕ → ℕ
wrapping_sub a b = (a + 2 ^ 32 - b) % 2 ^ 32

abbrev pub wrapping_add : ℕ → ℕ → ℕ
wrapping_add a b = (a + b) % 2 ^ 32

-- The `for i in 1..nums.len()`; `prev` is `nums[i - 1]`.
encode_deltas : ℕ → List ℕ → List ℕ → List ℕ
encode_deltas prev [] output = output
encode_deltas prev (num ∷ nums) output =
    encode_deltas num nums (encode_u32 output (wrapping_sub num prev))

pub encode_u32_list : List ℕ → List ℕ
unfolding encode_deltas
encode_u32_list [] = []
encode_u32_list (first ∷ nums) = encode_deltas first nums (to_le_bytes first)

-- The `while pos < data.len()`, over `data[pos..]`. `fuel` bounds the rounds.
decode_deltas : ℕ → List ℕ → ℕ → List ℕ → Result (List ℕ)
decode_deltas fuel [] prev nums = ok nums
decode_deltas zero (b ∷ bs) prev nums = err internal
decode_deltas (suc fuel) (b ∷ bs) prev nums = do
  (delta, consumed) ← decode_u32 (b ∷ bs)
  decode_deltas fuel (drop consumed (b ∷ bs)) (wrapping_add prev delta)
      (nums ++ wrapping_add prev delta ∷ [])

-- Fewer than four bytes decode to no value at all.
pub decode_u32_list : List ℕ → Result (List ℕ)
unfolding decode_deltas
decode_u32_list (a ∷ b ∷ c ∷ d ∷ rest) =
    decode_deltas (length rest) rest (from_le_bytes a b c d) (from_le_bytes a b c d ∷ [])
decode_u32_list _ = ok []
