-- ===== src/Store.antt =====
-- The crate splittr-store (splittr-core/crates/splittr-store/src): the log of ops and the repository
-- that keeps it together with the read model.
pub mod OpStore
pub mod Repository
pub mod Redb
