-- ===== src/Prelude/Bits.antt =====
-- Laws of the bit operations at variables: the lowest digit, the mask of seven ones, and the "or" of
-- numbers with no common digit.
use Prim.Native.Nat.{
  ℕ, zero, suc, ◌+◌, ◌*◌, ◌/◌, ◌%◌, ◌^◌, ◌≤◌, ◌<◌, min, max, bit_and, bit_or, digits,
  bit_and-bitwise, bit_or-bitwise,
}
use mathlib.Core.Path.{◌≡◌, refl, ap}
use native.Mathlib.Nat.{pow-suc}
use native.Mathlib.Omega.{arith}

-- The count of digits to go does not matter once it covers the first number.
module _ (z : ℕ → ℕ) (f : ℕ → ℕ → ℕ) where
  digits_fuel : (n m a b : ℕ) → a ≤ n → a ≤ m → digits z f n a b ≡ digits z f m a b
  digits_fuel n m zero b p q = ground (arith, digits_out n b, digits_out m b)
    where
      digits_out : (k b : ℕ) → digits z f k zero b ≡ z b
      digits_out zero b = refl
      digits_out (suc k) b = refl
  digits_fuel zero m (suc a) b p q = absurd (omega arith)
  digits_fuel (suc n) zero (suc a) b p q = absurd (omega arith)
  digits_fuel (suc n) (suc m) (suc a) b p q =
      omega (arith, digits_fuel n m (suc a / 2) (b / 2) (omega arith) (omega arith))

zero-bit_and : (b : ℕ) → bit_and 0 b ≡ 0
zero-bit_and b = bit_and-bitwise 0 b

pub zero-bit_or : (b : ℕ) → bit_or 0 b ≡ b
zero-bit_or b = bit_or-bitwise 0 b

bit_and_low : (a b : ℕ) → bit_and a b ≡ bit_and (a / 2) (b / 2) * 2 + min (a % 2) (b % 2)
bit_and_low zero b = omega (arith, zero-bit_and b, zero-bit_and (b / 2))
bit_and_low (suc a) b = omega (
  arith,
  bit_and-bitwise (suc a) b,
  bit_and-bitwise (suc a / 2) (b / 2),
  digits_fuel (λ c. zero) min a (suc a / 2) (suc a / 2) (b / 2) (omega arith) (omega arith),
)

bit_or_low : (a b : ℕ) → bit_or a b ≡ bit_or (a / 2) (b / 2) * 2 + max (a % 2) (b % 2)
bit_or_low zero b = omega (arith, zero-bit_or b, zero-bit_or (b / 2))
bit_or_low (suc a) b = omega (
  arith,
  bit_or-bitwise (suc a) b,
  bit_or-bitwise (suc a / 2) (b / 2),
  digits_fuel (λ c. c) max a (suc a / 2) (suc a / 2) (b / 2) (omega arith) (omega arith),
)

bit_and-zero : (n a : ℕ) → a ≤ n → bit_and a 0 ≡ 0
bit_and-zero n zero h = refl
bit_and-zero zero (suc a) h = absurd (omega arith)
bit_and-zero (suc n) (suc a) h =
    omega (arith, bit_and_low (suc a) 0, bit_and-zero n (suc a / 2) (omega arith))

bit_and-zero_all : (a : ℕ) → bit_and a 0 ≡ 0
bit_and-zero_all a = bit_and-zero a a (omega arith)

bit_and_fifteen : (a : ℕ) → bit_and a 15 ≡ a % 16
bit_and_fifteen a = omega (
  arith,
  bit_and_low a 15,
  bit_and_low (a / 2) 7,
  bit_and_low (a / 2 / 2) 3,
  bit_and_low (a / 2 / 2 / 2) 1,
  bit_and-zero_all (a / 2 / 2 / 2 / 2),
)

-- `a & 127` is the remainder by 128, whatever the width of `a`.
pub bit_and_low_seven : (a : ℕ) → bit_and a 127 ≡ a % 128
bit_and_low_seven a = omega (
  arith,
  bit_and_low a 127,
  bit_and_low (a / 2) 63,
  bit_and_low (a / 2 / 2) 31,
  bit_and_fifteen (a / 2 / 2 / 2),
)

bit_and_sixteen : (a : ℕ) → bit_and a 16 ≡ a / 16 % 2 * 16
bit_and_sixteen a = omega (
  arith,
  bit_and_low a 16,
  bit_and_low (a / 2) 8,
  bit_and_low (a / 2 / 2) 4,
  bit_and_low (a / 2 / 2 / 2) 2,
  bit_and_low (a / 2 / 2 / 2 / 2) 1,
  bit_and-zero_all (a / 2 / 2 / 2 / 2 / 2),
)

-- `a & 128` keeps the eighth digit.
pub bit_and_eighth : (a : ℕ) → bit_and a 128 ≡ a / 128 % 2 * 128
bit_and_eighth a = omega (
  arith,
  bit_and_low a 128,
  bit_and_low (a / 2) 64,
  bit_and_low (a / 2 / 2) 32,
  bit_and_sixteen (a / 2 / 2 / 2),
)

-- "or" of two numbers of `s` digits has `s` digits.
pub bit_or-lt : (s a b : ℕ) → a < 2 ^ s → b < 2 ^ s → bit_or a b < 2 ^ s
bit_or-lt zero zero b p q = omega (arith, zero-bit_or b)
bit_or-lt zero (suc a) b p q = absurd (omega arith)
bit_or-lt (suc s) a b p q =
    let a' : a < 2 ^ s * 2 = rw pow-suc at p in
    let b' : b < 2 ^ s * 2 = rw pow-suc at q in
    rw pow-suc
      (omega (arith, bit_or_low a b, bit_or-lt s (a / 2) (b / 2) (omega arith) (omega arith)))

bit_or_double : (a x : ℕ) → bit_or a (x * 2) ≡ bit_or (a / 2) x * 2 + a % 2
bit_or_double a x =
    let half : x * 2 / 2 ≡ x = omega arith in
    omega (arith, bit_or_low a (x * 2), ap (λ y. bit_or (a / 2) y) half)

-- A number below 2 ^ s and a multiple of 2 ^ s have no common digit: "or" adds them.
pub bit_or-shifted : (s a c : ℕ) → a < 2 ^ s → bit_or a (c * 2 ^ s) ≡ a + c * 2 ^ s
bit_or-shifted zero zero c h = omega (arith, zero-bit_or (c * 2 ^ 0))
bit_or-shifted zero (suc a) c h = absurd (omega arith)
bit_or-shifted (suc s) a c h =
    let bound : a < 2 ^ s * 2 = rw pow-suc at h in
    let e : c * 2 ^ suc s ≡ c * 2 ^ s * 2 = rw pow-suc (omega arith) in
    rw e (omega (arith, bit_or_double a (c * 2 ^ s), bit_or-shifted s (a / 2) c (omega arith)))
