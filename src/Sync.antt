-- ===== src/Sync.antt =====
-- The crate splittr-sync (splittr-core/crates/splittr-sync/src): how two replicas come to hold the
-- same ops.
pub mod Reconcile
pub mod Transport
pub mod Framed
