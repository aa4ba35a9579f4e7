-- ===== src/Authorization.antt =====
-- The authorization snapshots of crates/control-plane/src/lib.rs: which agent may open which tunnel
-- with which certificate, and the publication of new snapshots.
-- Fingerprints and identifiers are of any type with a decidable equality, which is all that the
-- code uses of them here.
pub mod Snapshot
pub mod Loading
pub mod Grants
pub mod Publisher
pub mod Versions
mod Tests
