-- ===== src/Concurrency.antt =====
-- shared/src/concurrency.ts: the bounded-execution primitives, one child for each.
pub mod TokenBucket
pub mod Retry
pub mod Pool
pub mod Mutex
mod Tests
