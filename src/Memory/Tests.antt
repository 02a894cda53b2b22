-- ===== src/Memory/Tests.antt =====
-- The theorems on src/memory/pool.rs at concrete inputs.
use drusdenx.Memory.{MemoryTracker}

abbrev tracker : MemoryTracker
tracker = record { usage = 10; limit = 100 }
