-- ===== src/Compression/VByte/RoundTrip.antt =====
-- Decoding what was encoded: src/compression/vbyte.rs both ways.
use Prim.Native.Nat.{bit_and, bit_or}
use mathlib.Core.List.{append-nil, append_assoc}
use native.Mathlib.Nat.{mod-eq_of_lt}
use native.Mathlib.Numerals.{towards_suc}
use drusdenx.Prelude.{
  ℕ, zero, suc, ◌+◌, ◌*◌, ◌/◌, ◌%◌, ◌^◌, ◌≤◌, ◌<◌, ◌≡◌, refl, ap, ◌∙◌, List, [], ◌∷◌, ◌++◌, arith,
  length, drop, ok, All, length-append, drop-length-append,
}
use drusdenx.Prelude.Bits.{bit_and_low_seven, bit_and_eighth, bit_or-shifted}
use drusdenx.Compression.VByte.{
  IsU32, encode_u32, encode_u32_list, decode_loop, decode_u32, decode_list_loop, decode_u32_list,
}
use drusdenx.Compression.VByte.Encode.{
  septets, encode_u32-septets, length-septets, codes, encode_u32_list-codes,
}

-- The "or" of one round adds, as long as the digits fit 32 bits and lie above those read before.
joins :
    (value b s : ℕ)
    → value < 2 ^ s
    → b % 128 * 2 ^ s < 2 ^ 32
    → bit_or value (bit_and b 127 * 2 ^ s % 2 ^ 32) ≡ value + b % 128 * 2 ^ s
joins value b s h fits =
    rw (bit_and_low_seven b, mod-eq_of_lt fits) (bit_or-shifted s value (b % 128) h)

last_byte :
    (v value s consumed : ℕ) (rest : List ℕ)
    → v < 128
    → value < 2 ^ s
    → v * 2 ^ s < 2 ^ 32
    → decode_loop (v ∷ rest) value s consumed ≡ ok (value + v * 2 ^ s, consumed + 1)
unfolding decode_loop
last_byte v value s consumed rest small h fits =
    let e : v % 128 ≡ v = omega arith in
    ground (arith, bit_and_eighth v, rw e at (joins value v s h (rw e fits)))

inner_byte :
    (g value s consumed : ℕ) (rest : List ℕ)
    → g < 128
    → value < 2 ^ s
    → g * 2 ^ s < 2 ^ 32
    → s + 7 ≤ 28
    → decode_loop ((g + 128) ∷ rest) value s consumed
      ≡ decode_loop rest (value + g * 2 ^ s) (s + 7) (consumed + 1)
unfolding decode_loop
inner_byte g value s consumed rest small h fits hs =
    let e : (g + 128) % 128 ≡ g = omega arith in
    ground (arith, bit_and_eighth (g + 128), rw e at (joins value (g + 128) s h (rw e fits)))

power_seven : (s : ℕ) → 2 ^ (s + 7) ≡ 128 * 2 ^ s
power_seven s = simp towards_suc (omega arith)

-- The lowest seven digits of `v` and the rest, both from digit `s` on.
split : (v s : ℕ) → v * 2 ^ s ≡ v % 128 * 2 ^ s + v / 128 * 2 ^ (s + 7)
split v s =
    let whole : v ≡ v % 128 + 128 * (v / 128) = omega arith in
    omega (arith, ap (λ (t : ℕ). t * 2 ^ s) whole, ap (λ (t : ℕ). v / 128 * t) (power_seven s))

decode_loop-septets :
    (k v value s consumed : ℕ) (rest : List ℕ)
    → v < 128 ^ suc k
    → value < 2 ^ s
    → value + v * 2 ^ s < 2 ^ 32
    → s + 7 * k ≤ 28
    → decode_loop (septets k v ++ rest) value s consumed
      ≡ ok (value + v * 2 ^ s, consumed + length (septets k v))
unfolding septets
decode_loop-septets zero v value s consumed rest hv h fits hs =
    last_byte v value s consumed rest (omega arith) h (omega arith)
decode_loop-septets (suc k) v value s consumed rest hv h fits hs = ground (
  arith,
  last_byte v value s consumed rest,
  split v s,
  power_seven s,
  inner_byte (v % 128) value s consumed (septets k (v / 128) ++ rest),
  below_next,
  decode_loop-septets k (v / 128) (value + v % 128 * 2 ^ s) (s + 7) (consumed + 1) rest
      (omega arith),
)
  where
    below_next : value + v % 128 * 2 ^ s < 128 * 2 ^ s
    below_next = grind arith

-- `decode_u32` reads back the u32 that `encode_u32` wrote, whatever follows it, and reports as
-- consumed exactly the bytes that `encode_u32` appended.
pub decode_u32-encode_u32 :
    (v : ℕ) (rest : List ℕ)
    → IsU32 v
    → decode_u32 (encode_u32 [] v ++ rest) ≡ ok (v, length (encode_u32 [] v))
unfolding decode_u32
decode_u32-encode_u32 v rest h = rw (encode_u32-septets [] v h) (
    decode_loop-septets 4 v 0 0 0 rest (omega arith) (omega arith) (omega arith) (omega arith)
    ∙ ap ok (ground arith))

pub decode_u32-septets :
    (v : ℕ) (rest : List ℕ)
    → IsU32 v
    → decode_u32 (septets 4 v ++ rest) ≡ ok (v, length (septets 4 v))
decode_u32-septets v rest h = rw (encode_u32-septets [] v h) at (decode_u32-encode_u32 v rest h)

decode_list_loop_step :
    (fuel n : ℕ) (v : ℕ) (input nums : List ℕ)
    → decode_u32 input ≡ ok (v, n)
    → decode_list_loop (suc fuel) input nums ≡ decode_list_loop fuel (drop n input) (nums ++ v ∷ [])
unfolding decode_list_loop
decode_list_loop_step fuel n v [] nums e = unfold decode_u32 decode_loop in cc
decode_list_loop_step fuel n v (b ∷ bs) nums e = rw e

decode_list_loop-codes :
    (vs : List ℕ) (fuel : ℕ) (nums : List ℕ)
    → All IsU32 vs
    → length (codes vs) ≤ fuel
    → decode_list_loop fuel (codes vs) nums ≡ ok (nums ++ vs)
decode_list_loop-codes [] fuel nums h hf = rw append-nil (unfold decode_list_loop in refl)
decode_list_loop-codes (v ∷ vs) zero nums h hf =
    absurd (omega (arith, length-septets 4 v, length-append (septets 4 v) (codes vs)))
decode_list_loop-codes (v ∷ vs) (suc fuel) nums (hv, hs) hf =
    decode_list_loop_step fuel (length (septets 4 v)) v _ nums (decode_u32-septets v (codes vs) hv)
    ∙ rw (drop-length-append (septets 4 v) (codes vs)) (
        decode_list_loop-codes vs fuel (nums ++ v ∷ []) hs
          (omega (arith, length-septets 4 v, length-append (septets 4 v) (codes vs)))
        ∙ ap ok (append_assoc nums (v ∷ []) vs))

-- `decode_u32_list` returns every list of u32s that `encode_u32_list` was given.
pub decode_u32_list-encode_u32_list :
    (nums : List ℕ) → All IsU32 nums → decode_u32_list (encode_u32_list nums) ≡ ok nums
unfolding decode_u32_list
decode_u32_list-encode_u32_list nums h =
    rw (encode_u32_list-codes nums h) (decode_list_loop-codes nums _ [] h (omega arith))
