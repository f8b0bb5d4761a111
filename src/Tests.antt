-- ===== src/Tests.antt =====
-- Runs of the model on small inputs, and the theorems applied to them.
pub mod Data
pub mod Lookups
pub mod Sessions
pub mod Tftp
pub mod Handlers
pub mod Strings
pub mod Config
pub mod Services
pub mod Daemon
pub mod Start
