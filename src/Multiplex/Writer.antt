-- ===== src/Multiplex/Writer.antt =====
-- `writer_actor` of crates/edge/src/multiplex.rs: the one task that writes to an agent.
pub mod Model
pub mod Safety
pub mod Filling
pub mod Burst
mod Tests
