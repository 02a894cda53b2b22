-- ===== src/Compression/VByte/Encode.antt =====
-- What `encode_u32` of src/compression/vbyte.rs writes, in plain arithmetic.
use Prim.Native.Nat.{bit_and, bit_or}
use mathlib.Core.List.{append_assoc, append-nil}
use mathlib.Core.WellFounded.{Acc}
use drusdenx.Prelude.{
  ℕ, zero, suc, ◌+◌, ◌/◌, ◌%◌, ◌^◌, ◌≤◌, ◌<◌, ◌≡◌, sym, List, [], ◌∷◌, ◌++◌, arith, ltb,
  if◌then◌else◌, length, All, ◌∙◌,
}
use drusdenx.Prelude.Order.{lt_wf}
use drusdenx.Prelude.Bits.{bit_and_low_seven, bit_or-shifted}
use drusdenx.Compression.VByte.{
  IsByte, IsU32, encode_loop, encode_u32, encode_list_loop, encode_u32_list,
}

-- The base-128 digits of `v`, lowest first, for `v` below 128 ^ (k + 1).
unfoldable pub septets : ℕ → ℕ → List ℕ
septets zero v = v ∷ []
septets (suc k) v =
    let more = septets k (v / 128) in if ltb v 128 then v ∷ [] else (v % 128 + 128) ∷ more

marked : (v : ℕ) → bit_or (bit_and v 127) 128 ≡ v % 128 + 128
marked v = rw bit_and_low_seven (bit_or-shifted 7 (v % 128) 1 (omega arith))

encode_loop-septets :
    (k v : ℕ) (output : List ℕ) (w : Acc ◌<◌ v)
    → v < 128 ^ suc k
    → encode_loop output v w ≡ output ++ septets k v
unfolding encode_loop septets
encode_loop-septets zero v output (Acc.intro _ smaller) h = ground arith
encode_loop-septets (suc k) v output (Acc.intro _ smaller) h = grind (
  arith,
  marked v,
  λ (w : Acc ◌<◌ (v / 128)).
      encode_loop-septets k (v / 128) (output ++ (v % 128 + 128) ∷ []) w (omega arith),
  append_assoc output ((v % 128 + 128) ∷ []) (septets k (v / 128)),
)

pub encode_u32-septets :
    (output : List ℕ) (v : ℕ) → IsU32 v → encode_u32 output v ≡ output ++ septets 4 v
unfolding encode_u32
encode_u32-septets output v h = encode_loop-septets 4 v output (lt_wf.apply v) (omega arith)

pub septets-IsByte : (k v : ℕ) → v < 128 ^ suc k → All IsByte (septets k v)
unfolding septets
septets-IsByte zero v h = omega arith
septets-IsByte (suc k) v h = ground (arith, septets-IsByte k (v / 128) (omega arith))

pub length-septets : (k v : ℕ) → (1 ≤ length (septets k v)) × (length (septets k v) ≤ k + 1)
unfolding septets
length-septets zero v = omega arith
length-septets (suc k) v = ground (arith, length-septets k (v / 128))

-- For a u32, `encode_u32` keeps what the output holds and appends one to five bytes.
pub encode_u32_shape :
    (output : List ℕ) (v : ℕ)
    → IsU32 v
    → (code : List ℕ) × (encode_u32 output v ≡ output ++ code)
      × All IsByte code
      × (1 ≤ length code)
      × (length code ≤ 5)
encode_u32_shape output v h = (
  septets 4 v,
  encode_u32-septets output v h,
  septets-IsByte 4 v (omega arith),
  (length-septets 4 v).0,
  (length-septets 4 v).1,
)

abbrev pub codes : List ℕ → List ℕ
codes [] = []
codes (v ∷ vs) = septets 4 v ++ codes vs

encode_list_loop-codes :
    (nums output : List ℕ) → All IsU32 nums → encode_list_loop output nums ≡ output ++ codes nums
unfolding encode_list_loop
encode_list_loop-codes [] output h = sym (append-nil output)
encode_list_loop-codes (v ∷ nums) output (hv, hs) =
    encode_list_loop-codes nums (encode_u32 output v) hs
    ∙ rw (encode_u32-septets output v hv) (append_assoc output (septets 4 v) (codes nums))

pub encode_u32_list-codes : (nums : List ℕ) → All IsU32 nums → encode_u32_list nums ≡ codes nums
unfolding encode_u32_list
encode_u32_list-codes nums h = encode_list_loop-codes nums [] h
