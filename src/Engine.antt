-- ===== src/Engine.antt =====
-- The execution engine (src/engine.rs): children for its state, its awaits, the retry loop and the
-- pipeline around it, and for what is proved of them.
pub mod Evidence
pub mod World
pub mod Ensures
pub mod Books
pub mod Clients
pub mod Awaits
pub mod Drive
pub mod Pipeline
