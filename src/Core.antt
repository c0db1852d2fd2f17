-- ===== src/Core.antt =====
-- The runtime that the engine runs on (src/core): its random numbers and its clocks.
pub mod Rng
pub mod Tokio
pub mod Draws
pub mod Clock
pub mod Sleeps
