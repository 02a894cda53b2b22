-- ===== src/Compression/Delta/RoundTrip.antt =====
-- Delta coding (src/compression/delta.rs) both ways, for values in any order.
use mathlib.Core.List.{append_assoc, append-nil}
use drusdenx.Prelude.{
  ℕ, zero, suc, ◌+◌, ◌/◌, ◌%◌, ◌≤◌, ◌<◌, ◌≡◌, ◌≢◌, refl, sym, ap, ◌∙◌, inl, inr, List, [], ◌∷◌,
  ◌++◌, arith, length, drop, ok, err, internal, All, length-append, drop-length-append,
}
use drusdenx.Compression.VByte.{IsU32, decode_u32}
use drusdenx.Compression.VByte.Encode.{septets, encode_u32-septets, length-septets}
use drusdenx.Compression.VByte.Decode.{decode_u32_cases, decode_u32_takes, drop_shorter}
use drusdenx.Compression.VByte.RoundTrip.{decode_u32-septets}
use drusdenx.Compression.Delta.{
  to_le_bytes, from_le_bytes, wrapping_sub, wrapping_add, encode_deltas, encode_u32_list,
  decode_deltas, decode_u32_list,
}

wrapping_add-wrapping_sub : (a b : ℕ) → IsU32 a → IsU32 b → wrapping_add b (wrapping_sub a b) ≡ a
wrapping_add-wrapping_sub a b ha hb = omega arith

pub from_le_bytes-to_le_bytes :
    (v : ℕ)
    → IsU32 v
    → from_le_bytes (v % 256) (v / 256 % 256) (v / 65536 % 256) (v / 16777216 % 256) ≡ v
from_le_bytes-to_le_bytes v h = omega arith

abbrev delta_codes : ℕ → List ℕ → List ℕ
delta_codes prev [] = []
delta_codes prev (num ∷ nums) = septets 4 (wrapping_sub num prev) ++ delta_codes num nums

encode_deltas-delta_codes :
    (nums : List ℕ) (prev : ℕ) (output : List ℕ)
    → encode_deltas prev nums output ≡ output ++ delta_codes prev nums
unfolding encode_deltas
encode_deltas-delta_codes [] prev output = sym (append-nil output)
encode_deltas-delta_codes (num ∷ nums) prev output =
    rw (encode_u32-septets output (wrapping_sub num prev) (omega arith)) (
      encode_deltas-delta_codes nums num (output ++ septets 4 (wrapping_sub num prev))
      ∙ append_assoc output (septets 4 (wrapping_sub num prev)) (delta_codes num nums))

decode_deltas_step :
    (fuel n delta prev : ℕ) (input nums : List ℕ)
    → decode_u32 input ≡ ok (delta, n)
    → 0 < length input
    → decode_deltas (suc fuel) input prev nums
      ≡ decode_deltas fuel
          (drop n input)
          (wrapping_add prev delta)
          (nums ++ wrapping_add prev delta ∷ [])
unfolding decode_deltas
decode_deltas_step fuel n delta prev [] nums e h = absurd (omega arith)
decode_deltas_step fuel n delta prev (b ∷ bs) nums e h = rw e

decode_deltas-delta_codes :
    (nums : List ℕ) (fuel prev : ℕ) (out : List ℕ)
    → IsU32 prev
    → All IsU32 nums
    → length (delta_codes prev nums) ≤ fuel
    → decode_deltas fuel (delta_codes prev nums) prev out ≡ ok (out ++ nums)
decode_deltas-delta_codes [] fuel prev out hp h hf = rw append-nil (unfold decode_deltas in refl)
decode_deltas-delta_codes (num ∷ nums) zero prev out hp h hf =
    let delta : ℕ = wrapping_sub num prev in
    absurd (
      omega (arith, length-septets 4 delta, length-append (septets 4 delta) (delta_codes num nums)))
decode_deltas-delta_codes (num ∷ nums) (suc fuel) prev out hp (hn, hs) hf =
    let delta : ℕ = wrapping_sub num prev in
    let more : List ℕ = delta_codes num nums in
    let sizes : length (septets 4 delta ++ more) ≡ length (septets 4 delta) + length more =
      length-append (septets 4 delta) more in
    decode_deltas_step fuel (length (septets 4 delta)) delta prev (septets 4 delta ++ more) out
      (decode_u32-septets delta more (omega arith)) (omega (arith, length-septets 4 delta))
    ∙ rw (drop-length-append (septets 4 delta) more, wrapping_add-wrapping_sub num prev hn hp)
        (decode_deltas-delta_codes nums fuel num (out ++ num ∷ []) hn hs
            (omega (arith, length-septets 4 delta))
          ∙ ap ok (append_assoc out (num ∷ []) nums))

-- `DeltaEncoder::decode_u32_list` returns every list of u32s that `encode_u32_list` was given,
-- sorted or not, the empty list included.
pub decode_delta-encode_delta :
    (nums : List ℕ) → All IsU32 nums → decode_u32_list (encode_u32_list nums) ≡ ok nums
unfolding encode_u32_list decode_u32_list
decode_delta-encode_delta [] h = refl
decode_delta-encode_delta (first ∷ nums) (hf, hs) =
    rw (encode_deltas-delta_codes nums first (to_le_bytes first)) (
      rw (from_le_bytes-to_le_bytes first hf) (
        decode_deltas-delta_codes nums (length (delta_codes first nums)) first (first ∷ []) hf hs
          (omega arith)))

decode_deltas-ne-internal :
    (fuel prev : ℕ) (input nums : List ℕ)
    → length input ≤ fuel
    → decode_deltas fuel input prev nums ≢ err internal
unfolding decode_deltas
decode_deltas-ne-internal fuel prev [] nums h = λ e. cc
decode_deltas-ne-internal zero prev (b ∷ bs) nums h = absurd (omega arith)
decode_deltas-ne-internal (suc fuel) prev (b ∷ bs) nums h = elim (decode_u32_cases (b ∷ bs)) [
  | inl ((v, n), e) ↦ rw e (
      decode_deltas-ne-internal fuel (wrapping_add prev v) (drop n (b ∷ bs))
        (nums ++ wrapping_add prev v ∷ [])
        (omega (arith, drop_shorter n b bs (decode_u32_takes (b ∷ bs) v n e).1)))
  | inr e ↦ rw e (λ p. cc)
]

-- The delta decoder ends on every input: its fuel never runs out.
pub decode_delta-ne-internal : (input : List ℕ) → decode_u32_list input ≢ err internal
unfolding decode_u32_list
decode_delta-ne-internal (a ∷ b ∷ c ∷ d ∷ rest) =
    decode_deltas-ne-internal (length rest) _ rest _ (omega arith)
decode_delta-ne-internal _ = λ e. cc
