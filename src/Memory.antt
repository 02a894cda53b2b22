-- ===== src/Memory.antt =====
-- src/memory/pool.rs: the counter of used memory, which is a 64-bit integer that wraps around; the
-- sum that `allocate` compares with the limit is the one of a release build.
pub mod Usage
pub mod Pool
pub mod Swap
mod Tests
use drusdenx.Prelude.{ℕ, ◌+◌, ◌-◌, ◌%◌, ◌^◌, ltb, if◌then◌else◌, Result, ok, err, out_of_memory}

pub record MemoryTracker : Type 0 where
  pub usage : ℕ
  pub limit : ℕ

abbrev pub fetch_add : ℕ → ℕ → ℕ
fetch_add usage size = (usage + size) % 2 ^ 64

abbrev pub fetch_sub : ℕ → ℕ → ℕ
fetch_sub usage size = (usage + (2 ^ 64 - size % 2 ^ 64)) % 2 ^ 64

unfoldable pub new : ℕ → MemoryTracker
new limit = record { usage = 0; limit = limit }

unfoldable pub allocate : ℕ → MemoryTracker → Result (Unit {0}) × MemoryTracker
allocate size t =
    let new_usage = fetch_add t.usage size in
    if ltb t.limit new_usage
    then (err out_of_memory, record t { usage = fetch_sub new_usage size })
    else (ok tt, record t { usage = new_usage })

unfoldable pub deallocate : ℕ → MemoryTracker → MemoryTracker
deallocate size t = record t { usage = fetch_sub t.usage size }
