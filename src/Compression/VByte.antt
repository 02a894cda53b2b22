-- ===== src/Compression/VByte.antt =====
-- src/compression/vbyte.rs: variable-byte coding of u32 values.
pub mod Encode
pub mod Decode
pub mod RoundTrip
mod Tests
use Prim.Native.Nat.{bit_and, bit_or}
use mathlib.Core.Logic.{dite}
use mathlib.Core.WellFounded.{Acc}
use native.Mathlib.Decide.{dec_le}
use drusdenx.Prelude.{
  ℕ, zero, suc, ◌+◌, ◌-◌, ◌*◌, ◌/◌, ◌%◌, ◌^◌, ◌≤◌, ◌<◌, List, [], ◌∷◌, ◌++◌, arith, ltb, ◌==◌,
  if◌then◌else◌, length, drop, Result, ok, err, parse, internal, ◌>>=◌,
}
use drusdenx.Prelude.Order.{lt_wf}

abbrev pub IsByte : ℕ → Type 0
IsByte b = b < 256

abbrev pub IsU32 : ℕ → Type 0
IsU32 v = v < 2 ^ 32

shift_falls : (v : ℕ) → 128 ≤ v → v / 128 < v
shift_falls v h = omega arith

-- The `while value >= 128` of `encode_u32`: `(value & 127) as u8 | 128`, then `value >>= 7`.
encode_loop : List ℕ → (v : ℕ) → Acc ◌<◌ v → List ℕ
encode_loop output v (Acc.intro _ smaller) =
    dite (dec_le 128 v)
      (λ big.
        encode_loop (output ++ bit_or (bit_and v 127) 128 ∷ []) (v / 128)
          (smaller _ (shift_falls v big)))
      (λ _. output ++ v % 256 ∷ [])

pub encode_u32 : List ℕ → ℕ → List ℕ
unfolding encode_loop lt_wf dec_le
encode_u32 output v = encode_loop output v (lt_wf.apply v)

encode_list_loop : List ℕ → List ℕ → List ℕ
encode_list_loop output [] = output
encode_list_loop output (num ∷ nums) = encode_list_loop (encode_u32 output num) nums

pub encode_u32_list : List ℕ → List ℕ
unfolding encode_list_loop encode_u32
encode_u32_list nums = encode_list_loop [] nums

-- The `for &byte in input` of `decode_u32`. The shift of a u32 drops what passes bit 31.
decode_loop : List ℕ → ℕ → ℕ → ℕ → Result (ℕ × ℕ)
decode_loop [] value shift consumed = err parse
decode_loop (byte ∷ input) value shift consumed =
    let value' = bit_or value (bit_and byte 127 * 2 ^ shift % 2 ^ 32) in
    let rest = decode_loop input value' (shift + 7) (consumed + 1) in
    if bit_and byte 128 == 0
    then ok (value', consumed + 1)
    else if ltb 28 (shift + 7)
    then err parse
    else rest

pub decode_u32 : List ℕ → Result (ℕ × ℕ)
unfolding decode_loop
decode_u32 input = decode_loop input 0 0 0

-- The `while pos < data.len()` of `decode_u32_list`, over `data[pos..]`. `fuel` bounds the rounds.
decode_list_loop : ℕ → List ℕ → List ℕ → Result (List ℕ)
decode_list_loop fuel [] nums = ok nums
decode_list_loop zero (b ∷ bs) nums = err internal
decode_list_loop (suc fuel) (b ∷ bs) nums = do
  (value, consumed) ← decode_u32 (b ∷ bs)
  decode_list_loop fuel (drop consumed (b ∷ bs)) (nums ++ value ∷ [])

pub decode_u32_list : List ℕ → Result (List ℕ)
unfolding decode_list_loop decode_u32
decode_u32_list input = decode_list_loop (length input) input []
