-- ===== src/Storage/Frame/Laws.antt =====
-- Reading back what was framed, whole or cut off.
use drusdenx.Prelude.{
  ℕ, zero, suc, ◌+◌, ◌%◌, ◌^◌, ◌≤◌, ◌<◌, ◌≡◌, refl, ap, ◌∙◌, List, [], ◌∷◌, ◌++◌, arith, none, some,
  true, length, take, leb, length-append, drop-length-append,
}
use drusdenx.Compression.Delta.RoundTrip.{from_le_bytes-to_le_bytes}
use drusdenx.Storage.Frame.{frame, read_len, read_exact}

module _ {ℓ} {A : Type ℓ} where
  pub take-length-append : (xs ys : List A) → take (length xs) (xs ++ ys) ≡ xs
  take-length-append [] ys = refl
  take-length-append (x ∷ xs) ys = ap (◌∷◌ x) (take-length-append xs ys)

  length-take-le : (n : ℕ) (xs : List A) → length (take n xs) ≤ n
  length-take-le zero xs = omega arith
  length-take-le (suc n) [] = omega arith
  length-take-le (suc n) (x ∷ xs) = omega (arith, length-take-le n xs)

pub read_len-frame :
    (bytes rest : List ℕ)
    → length bytes < 2 ^ 32
    → read_len (frame bytes ++ rest) ≡ some (length bytes, bytes ++ rest)
unfolding read_len frame
read_len-frame bytes rest h =
    let whole : length bytes % 2 ^ 32 ≡ length bytes = omega arith in
    ap (λ n. some (n, bytes ++ rest))
      (from_le_bytes-to_le_bytes (length bytes % 2 ^ 32) (omega arith) ∙ whole)

pub read_exact-append :
    (bytes rest : List ℕ) → read_exact (length bytes) (bytes ++ rest) ≡ some (bytes, rest)
unfolding read_exact
read_exact-append bytes rest =
    let fits : leb (length bytes) (length (bytes ++ rest)) ≡ true =
      ground (arith, length-append bytes rest) in
    rw (fits, take-length-append bytes rest, drop-length-append bytes rest) refl

pub read_exact_short : (n : ℕ) (file : List ℕ) → length file < n → read_exact n file ≡ none
unfolding read_exact
read_exact_short n file h = ground arith

pub length-frame : (bytes : List ℕ) → length (frame bytes) ≡ 4 + length bytes
unfolding frame
length-frame bytes = omega arith

-- A frame that is cut off inside its length is no frame at all.
pub read_len-take : (k : ℕ) (bytes : List ℕ) → k < 4 → read_len (take k (frame bytes)) ≡ none
unfolding read_len frame
read_len-take zero bytes h = refl
read_len-take (suc zero) bytes h = refl
read_len-take (suc (suc zero)) bytes h = refl
read_len-take (suc (suc (suc zero))) bytes h = refl
read_len-take (suc (suc (suc (suc k)))) bytes h = absurd (omega arith)

-- Behind its length, a frame that is cut off has too few bytes.
pub read_exact-take :
    (k : ℕ) (bytes : List ℕ)
    → length bytes < 2 ^ 32
    → 4 ≤ k
    → k < 4 + length bytes
    → (rest : List ℕ) × (read_len (take k (frame bytes)) ≡ some (length bytes, rest))
      × (length rest < length bytes)
unfolding read_len frame
read_exact-take zero bytes h l u = absurd (omega arith)
read_exact-take (suc zero) bytes h l u = absurd (omega arith)
read_exact-take (suc (suc zero)) bytes h l u = absurd (omega arith)
read_exact-take (suc (suc (suc zero))) bytes h l u = absurd (omega arith)
read_exact-take (suc (suc (suc (suc k)))) bytes h l u =
    let whole : length bytes % 2 ^ 32 ≡ length bytes = omega arith in
    (
      take k bytes,
      ap (λ n. some (n, take k bytes))
          (from_le_bytes-to_le_bytes (length bytes % 2 ^ 32) (omega arith) ∙ whole),
      omega (arith, length-take-le k bytes),
    )
