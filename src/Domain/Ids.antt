-- ===== src/Domain/Ids.antt =====
-- splittr-domain/src/ids.rs: the string newtypes. Their derived order is that of the bytes.
use splittr.Prelude.Ord.{Bytes}

abbrev pub UserId : Type 0
UserId = Bytes

abbrev pub GroupId : Type 0
GroupId = Bytes

abbrev pub ExpenseId : Type 0
ExpenseId = Bytes

abbrev pub SettlementId : Type 0
SettlementId = Bytes
