-- ===== src/Memory/Pool.antt =====
-- src/memory/pool.rs: the pool of memory blocks. A pointer is a number; that the system gives the
-- blocks is left out: their pointers are an argument of `new`. The free list and the two sizes, which
-- nothing reads, are left out.
use drusdenx.Prelude.{
  ℕ, List, [], ◌∷◌, map, Option, none, some, Bool, true, false, not, ◌&&◌, leb, ◌==◌, if◌then◌else◌,
  ◌≡◌, ◌≢◌, refl, sym, ==_self, ap, All, Option-cases, Bool-cases, inl, inr, arith,
}
use mathlib.Core.Option

pub record Block : Type 0 where
  pub ptr : ℕ
  pub size : ℕ
  pub in_use : Bool

-- `MemoryPool::new`, over the pointers that the system gives.
pub new : List ℕ → ℕ → List Block
new ptrs block_size = map (λ p. record { ptr = p; size = block_size; in_use = false }) ptrs

-- The first block that is large enough and free.
pub allocate : ℕ → List Block → Option (ℕ × List Block)
allocate size [] = none
allocate size (block ∷ blocks) =
    let rest = allocate size blocks in
    if leb size block.size && not block.in_use
    then some (block.ptr, record block { in_use = true } ∷ blocks)
    else Option.map (λ r. (r.0, block ∷ r.1)) rest

pub deallocate : ℕ → List Block → List Block
deallocate ptr [] = []
deallocate ptr (block ∷ blocks) =
    if block.ptr == ptr
    then record block { in_use = false } ∷ blocks
    else block ∷ deallocate ptr blocks

-- Distinct blocks have distinct pointers.
pub Distinct : List Block → Type 0
Distinct [] = Unit {0}
Distinct (block ∷ blocks) = All (λ b. block.ptr ≢ b.ptr) blocks × Distinct blocks

-- The pointer that is handed out is one of a block.
allocate-All {κ} :
    (P : ℕ → Type κ) (size ptr : ℕ) (blocks blocks' : List Block)
    → All (λ b. P b.ptr) blocks
    → allocate size blocks ≡ some (ptr, blocks')
    → P ptr
unfolding allocate
allocate-All P size ptr [] blocks' h e = absurd (cc)
allocate-All P size ptr (block ∷ blocks) blocks' h e =
    elim (Bool-cases (leb size block.size && not block.in_use)) [
      | inl t ↦ let e' = rw t at e in let same : block.ptr ≡ ptr = cc in rw (sym same) h.0
      | inr f ↦ elim (Option-cases (allocate size blocks)) [
        | inl n ↦ let e' = rw (f, n) at e in absurd (cc)
        | inr ((p, rest), q) ↦
            let e' = rw (f, q) at e in
            let same : p ≡ ptr = cc in rw (sym same) (allocate-All P size p blocks rest h.1 q)
      ]
    ]

free : (a b : Bool) → a && not b ≡ true → b ≡ false
free true true h = sym h
free false true h = sym h
free a false h = refl

-- A block that is given back right after it was allocated leaves the pool as it was: allocation takes
-- one free block, which is large enough, and marks no other.
pub deallocate-allocate_block :
    (size ptr : ℕ) (blocks blocks' : List Block)
    → Distinct blocks
    → allocate size blocks ≡ some (ptr, blocks')
    → deallocate ptr blocks' ≡ blocks
unfolding allocate deallocate Distinct
deallocate-allocate_block size ptr [] blocks' d e = absurd (cc)
deallocate-allocate_block size ptr (block ∷ blocks) blocks' d e =
    elim (Bool-cases (leb size block.size && not block.in_use)) [
      | inl t ↦
          let e' = rw t at e in
          let same : block.ptr ≡ ptr = cc in
          let taken : record block { in_use = true } ∷ blocks ≡ blocks' = cc in
          rw (sym taken) (
            rw (sym same, ==_self block.ptr)
              (ap (λ b. record block { in_use = b } ∷ blocks)
                (sym (free (leb size block.size) block.in_use t))))
      | inr f ↦ elim (Option-cases (allocate size blocks)) [
        | inl n ↦ let e' = rw (f, n) at e in absurd (cc)
        | inr ((p, rest), q) ↦
            let e' = rw (f, q) at e in
            let same : p ≡ ptr = cc in
            let kept : block ∷ rest ≡ blocks' = cc in
            let q' : allocate size blocks ≡ some (ptr, rest) = rw same at q in
            let other : block.ptr ≢ ptr =
              allocate-All (λ r. block.ptr ≢ r) size ptr blocks rest d.0 q' in
            let differs : (block.ptr == ptr) ≡ false = grind arith in
            rw (sym kept)
              (rw differs (ap (◌∷◌ block) (deallocate-allocate_block size ptr blocks rest d.1 q')))
      ]
    ]
