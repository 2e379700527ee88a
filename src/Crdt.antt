-- ===== src/Crdt.antt =====
-- The crate splittr-crdt (splittr-core/crates/splittr-crdt/src): operations, authorization, the
-- fold of the log into the read model, and balances.
pub mod Clock
pub mod Identity
pub mod Op
pub mod Projection
pub mod Authorize
pub mod Materialize
pub mod Balance
pub mod Converge
