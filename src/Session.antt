-- ===== src/Session.antt =====
-- Session bookkeeping of crates/session/src: the live connections and the audio reframer.
pub mod Conns
pub mod Reframer
mod Tests
