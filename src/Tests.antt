-- ===== src/Tests.antt =====
-- Tests, and the concrete instances that they run on.
pub mod Bits
pub mod Columns
pub mod Sample
pub mod Loader
mod Provisioning
mod Env
pub mod Startup
mod Requests
mod Manager
mod Storage
mod Callers
mod Routes
pub mod Signers
