-- ===== src/Tests.antt =====
-- A concrete platform and database, runs of the services, and the theorems at concrete inputs.
mod Sample
mod Tokens
mod Runs
pub mod Witnesses
pub mod Deliveries
pub mod Sorting
pub mod Requests
pub mod Histories
pub mod Upgrades
pub mod Interleavings
pub mod Brokers
