-- ===== src/Bwe.antt =====
-- The bandwidth estimation of crates/session/src/bwe.
pub mod Time
pub mod Rates
pub mod Probe
pub mod Types
pub mod Estimator
pub mod Arrival
pub mod Fixed
mod Tests
