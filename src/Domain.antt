-- ===== src/Domain.antt =====
-- The crate splittr-domain (splittr-core/crates/splittr-domain/src): value types and the
-- arithmetic of money, splits and debts. An id is a newtype over a string, here its bytes.
pub mod Money
pub mod Currency
pub mod Split
pub mod Debt
pub mod Expense
pub mod Ids
