-- ===== src/FairQueue.antt =====
-- `BoundedFairQueue` of crates/common/src/bounded_fair_queue.rs: a bounded FIFO for each key, with
-- round-robin service between the keys that have items.
pub mod Model
pub mod Totals
pub mod Invariant
pub mod Pops
pub mod Fifo
pub mod Fairness
pub mod Room
mod Tests
