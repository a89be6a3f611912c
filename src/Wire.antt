-- ===== src/Wire.antt =====
-- The wire formats: crates/core/src/error.rs, crates/core/src/media.rs and the datagram framing of
-- crates/protocol/src/datagram.rs. A byte is a number below 256, a slice a list of bytes.
pub mod Bytes
pub mod FrameKind
pub mod DatagramType
pub mod Seq
pub mod Time
pub mod Video
pub mod Audio
pub mod Tests
