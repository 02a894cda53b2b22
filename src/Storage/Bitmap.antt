-- ===== src/Storage/Bitmap.antt =====
-- `RoaringBitmap` of the roaring crate, as an interface: a set of 32-bit numbers.
use drusdenx.Prelude.{ℕ, ◌≡◌, Bool, true, false, ◌||◌, ◌==◌}

pub record Bitmap : Type 1 where
  pub Bits : Type 0
  pub new : Bits
  pub insert : Bits → ℕ → Bits
  pub contains : Bits → ℕ → Bool
  pub contains-new : (y : ℕ) → contains new y ≡ false
  pub contains-insert : (b : Bits) (x y : ℕ) → contains (insert b x) y ≡ (x == y) || contains b y
  pub is_empty : Bits → Bool
  pub contains-is_empty : (b : Bits) → is_empty b ≡ true → (y : ℕ) → contains b y ≡ false
