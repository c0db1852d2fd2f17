-- ===== src/Examples.antt =====
-- Tests, and each theorem at an input that meets its hypotheses.
mod Support
mod Retries
mod Breakers
mod Permits
mod Engines
mod Books
mod Loads
mod Serving
mod Routers
mod Builders
mod Cores
mod Stalls
