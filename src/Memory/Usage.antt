-- ===== src/Memory/Usage.antt =====
-- The counter of used memory (src/memory/pool.rs) stays within its limit, and what happens to it where
-- more is given back than was taken.
use drusdenx.Prelude.{
  ℕ, ◌+◌, ◌-◌, ◌%◌, ◌^◌, ◌≤◌, ◌<◌, ◌≡◌, ◌⊎◌, inl, inr, refl, true, false, ltb, Bool-cases, ltb→lt,
  not-ltb→le, lt→ltb, le→not-ltb, ap, ok, err, out_of_memory, arith,
}
use drusdenx.Memory.{MemoryTracker, allocate, deallocate}

-- An allocation that succeeds adds its size to the usage, which stays within the limit, and one that
-- fails, which it does where the sum exceeds the limit, leaves the usage as it was. The sum is to be
-- a 64-bit number.
pub allocate_lem :
    (t : MemoryTracker) (size : ℕ)
    → t.usage + size < 2 ^ 64
    → let (r, t') = allocate size t in
      ((r ≡ ok tt) × (t'.usage ≡ t.usage + size) × (t'.usage ≤ t'.limit))
      ⊎ ((r ≡ err out_of_memory) × (t'.usage ≡ t.usage) × (t.limit < t.usage + size))
unfolding allocate
allocate_lem t size h =
    let sum : (t.usage + size) % 2 ^ 64 ≡ t.usage + size = omega arith in
    elim (Bool-cases (ltb t.limit ((t.usage + size) % 2 ^ 64))) [
      | inl e ↦
          let lt = ltb→lt t.limit ((t.usage + size) % 2 ^ 64) e in
          rw e (inr (refl, omega arith, omega arith))
      | inr e ↦
          let le = not-ltb→le t.limit ((t.usage + size) % 2 ^ 64) e in
          rw e (inl (refl, sum, omega arith))
    ]

-- What was allocated and is given back leaves the tracker as it was before.
pub deallocate-allocate :
    (t : MemoryTracker) (size : ℕ)
    → t.usage + size ≤ t.limit
    → t.limit < 2 ^ 64
    → deallocate size (allocate size t).1 ≡ t
unfolding allocate deallocate
deallocate-allocate t size h l =
    let fits : ltb t.limit ((t.usage + size) % 2 ^ 64) ≡ false =
      le→not-ltb t.limit ((t.usage + size) % 2 ^ 64) (omega arith) in
    let back : ((t.usage + size) % 2 ^ 64 + (2 ^ 64 - size % 2 ^ 64)) % 2 ^ 64 ≡ t.usage =
      omega arith in
    rw fits (ap (λ (u : ℕ). record t { usage = u }) back)

-- Where more is given back than is used, the counter wraps around: no allocation that is smaller than
-- the excess succeeds, at any limit that leaves room for the excess below the largest 64-bit number.
pub allocate-deallocate_excess :
    (t : MemoryTracker) (excess size : ℕ)
    → t.usage + excess + t.limit < 2 ^ 64
    → size < excess
    → (allocate size (deallocate (t.usage + excess) t)).0 ≡ err out_of_memory
unfolding allocate deallocate
allocate-deallocate_excess t excess size h l =
    let wrapped : (t.usage + (2 ^ 64 - (t.usage + excess) % 2 ^ 64)) % 2 ^ 64 ≡ 2 ^ 64 - excess =
      omega arith in
    let above : ltb t.limit ((2 ^ 64 - excess + size) % 2 ^ 64) ≡ true =
      lt→ltb t.limit ((2 ^ 64 - excess + size) % 2 ^ 64) (omega arith) in
    rw (wrapped, above) refl
