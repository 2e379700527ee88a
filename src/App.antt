-- ===== src/App.antt =====
-- The crate splittr-app (splittr-core/crates/splittr-app/src): the device's clock, the identity, and
-- the commands that turn an intent into a validated, signed op.
pub mod Clock
pub mod Identity
pub mod Error
pub mod Fields
pub mod Commands
pub mod Query
pub mod Session
pub mod Groups
