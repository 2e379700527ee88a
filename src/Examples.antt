-- ===== src/Examples.antt =====
-- Concrete runs: each theorem with hypotheses applied to data where they hold.
pub mod Data
pub mod Amounts
pub mod Log
pub mod Resigned
pub mod Commands
pub mod Ciphers
pub mod Durable
pub mod Peers
pub mod Opening
pub mod Trip
pub mod Shown
pub mod Deleted
