-- ===== src/Reassembler/Recovery.antt =====
-- `reconstruct` of crates/client-core/src/reassembly.rs on the shards of a frame that
-- `chunk_video_frame` of crates/protocol/src/datagram.rs sent, some of them lost.
mod Tests
pub mod Slots
pub mod Erasures
pub mod Groups
pub mod Loop
pub mod Padded
pub mod Uniform
pub mod Frame
pub mod Sent
pub mod Transmission
pub mod Arrivals
pub mod Pushes
pub mod Enough
pub mod Stream
