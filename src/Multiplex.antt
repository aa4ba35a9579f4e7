-- ===== src/Multiplex.antt =====
-- crates/edge/src/multiplex.rs: the sessions of the edge with its agents, each a connection that
-- carries many streams.
pub mod Errors
pub mod Frames
pub mod Session
pub mod Ingress
pub mod Writer
