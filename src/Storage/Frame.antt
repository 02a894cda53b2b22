-- ===== src/Storage/Frame.antt =====
-- Records in a file, each behind its length in four bytes: the log (src/storage/wal.rs), its replay
-- (src/storage/checkpoint.rs) and the segment files (src/storage/segment_writer.rs) share this form.
-- A file is the list of its bytes, and reading gives what is left of it.
pub mod Laws
use drusdenx.Prelude.{
  ℕ, ◌%◌, ◌^◌, List, [], ◌∷◌, ◌++◌, Option, none, some, length, take, drop, leb, if◌then◌else◌,
}
use drusdenx.Compression.Delta.{to_le_bytes, from_le_bytes}

unfoldable pub frame : List ℕ → List ℕ
frame bytes = to_le_bytes (length bytes % 2 ^ 32) ++ bytes

-- `read_exact` into four bytes, and `u32::from_le_bytes`.
unfoldable pub read_len : List ℕ → Option (ℕ × List ℕ)
read_len (a ∷ b ∷ c ∷ d ∷ rest) = some (from_le_bytes a b c d, rest)
read_len _ = none

-- `read_exact` into a buffer of `n` bytes.
unfoldable pub read_exact : ℕ → List ℕ → Option (List ℕ × List ℕ)
read_exact n file = if leb n (length file) then some (take n file, drop n file) else none
