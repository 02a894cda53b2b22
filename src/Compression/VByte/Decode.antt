-- ===== src/Compression/VByte/Decode.antt =====
-- `decode_u32` and `decode_u32_list` of src/compression/vbyte.rs on any input.
use Prim.Native.Nat.{bit_and, bit_or}
use drusdenx.Prelude.{
  ℕ, zero, suc, ◌+◌, ◌*◌, ◌%◌, ◌^◌, ◌≤◌, ◌<◌, ◌≡◌, ◌≢◌, ◌⊎◌, inl, inr, List, [], ◌∷◌, ◌++◌, arith,
  length, drop, ok, err, parse, internal, length-drop-le, refl,
}
use drusdenx.Prelude.Bits.{bit_or-lt}
use drusdenx.Compression.VByte.{IsU32, decode_loop, decode_u32, decode_list_loop, decode_u32_list}

abbrev joined : ℕ → ℕ → ℕ → ℕ
joined value b shift = bit_or value (bit_and b 127 * 2 ^ shift % 2 ^ 32)

joined-IsU32 : (value b shift : ℕ) → IsU32 value → IsU32 (joined value b shift)
joined-IsU32 value b shift h = bit_or-lt 32 value _ h (omega arith)

decode_loop_takes :
    (input : List ℕ) (value shift consumed v n : ℕ)
    → IsU32 value
    → shift ≡ 7 * consumed
    → consumed ≤ 4
    → decode_loop input value shift consumed ≡ ok (v, n)
    → IsU32 v × (consumed < n) × (n ≤ consumed + length input) × (n ≤ 5)
unfolding decode_loop
decode_loop_takes [] value shift consumed v n hv hs hc e = ground arith
decode_loop_takes (b ∷ input) value shift consumed v n hv hs hc e = ground (
  arith,
  joined-IsU32 value b shift hv,
  decode_loop_takes input (joined value b shift) (shift + 7) (consumed + 1) v n,
)

-- When `decode_u32` succeeds it returns a u32, and the count that it reports is at least one byte,
-- at most five, and no more than the input has.
pub decode_u32_takes :
    (input : List ℕ) (v n : ℕ)
    → decode_u32 input ≡ ok (v, n)
    → IsU32 v × (0 < n) × (n ≤ length input) × (n ≤ 5)
unfolding decode_u32
decode_u32_takes input v n e = ground (arith, decode_loop_takes input 0 0 0 v n)

decode_loop-ne-internal :
    (input : List ℕ) (value shift consumed : ℕ)
    → decode_loop input value shift consumed ≢ err internal
unfolding decode_loop
decode_loop-ne-internal [] value shift consumed e = cc
decode_loop-ne-internal (b ∷ input) value shift consumed e =
    ground (arith, decode_loop-ne-internal input (joined value b shift) (shift + 7) (consumed + 1))

pub decode_u32_cases :
    (input : List ℕ) → ((p : ℕ × ℕ) × (decode_u32 input ≡ ok p)) ⊎ (decode_u32 input ≡ err parse)
unfolding decode_u32
decode_u32_cases input = cases input 0 0 0
  where
    cases :
        (input : List ℕ) (value shift consumed : ℕ)
        → ((p : ℕ × ℕ) × (decode_loop input value shift consumed ≡ ok p))
          ⊎ (decode_loop input value shift consumed ≡ err parse)
    cases [] value shift consumed = inr refl
    cases (b ∷ input) value shift consumed =
        ground (arith, cases input (joined value b shift) (shift + 7) (consumed + 1))

pub drop_shorter : (n b : ℕ) (bs : List ℕ) → 0 < n → length (drop n (b ∷ bs)) ≤ length bs
drop_shorter zero b bs h = absurd (omega arith)
drop_shorter (suc n) b bs h = length-drop-le n bs

decode_list_loop-ne-internal :
    (fuel : ℕ) (input nums : List ℕ)
    → length input ≤ fuel
    → decode_list_loop fuel input nums ≢ err internal
unfolding decode_list_loop
decode_list_loop-ne-internal fuel [] nums h = λ e. cc
decode_list_loop-ne-internal zero (b ∷ bs) nums h = absurd (omega arith)
decode_list_loop-ne-internal (suc fuel) (b ∷ bs) nums h = elim (decode_u32_cases (b ∷ bs)) [
  | inl ((v, n), e) ↦ rw e (
      decode_list_loop-ne-internal fuel (drop n (b ∷ bs)) (nums ++ v ∷ [])
        (omega (arith, drop_shorter n b bs (decode_u32_takes (b ∷ bs) v n e).1)))
  | inr e ↦ rw e (λ p. cc)
]

-- `decode_u32_list` ends on every input: the fuel, one round for each byte, never runs out.
pub decode_u32_list-ne-internal : (input : List ℕ) → decode_u32_list input ≢ err internal
unfolding decode_u32_list
decode_u32_list-ne-internal input =
    decode_list_loop-ne-internal (length input) input [] (omega arith)
