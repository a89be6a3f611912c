-- ===== src/Fec.antt =====
-- The Reed-Solomon erasure code of crates/protocol/src/fec.rs.
pub mod Layout
pub mod Field
pub mod Code
pub mod Matrix
pub mod Recovery
mod Tests
