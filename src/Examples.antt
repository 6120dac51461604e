-- ===== src/Examples.antt =====
-- A store with a concrete host, on which the theorems are applied.
pub mod Hosted
pub mod Session
pub mod Steps
mod Lifecycle
mod Gates
mod Stores
mod Checks
mod History
pub mod Receiver
pub mod Uses
pub mod Recorded
mod Services
pub mod Companion
