-- ===== src/Crdt/Projection.antt =====
-- splittr-crdt/src/projection.rs: the read model.
use splittr.Prelude.{ℕ, Bool, false, Option, none, some, []}
use splittr.Prelude.Ord.{Bytes, same, bytes_ord}
use splittr.Prelude.Int.{ℤ}
use splittr.BTree.{BTreeMap, BTreeSet, retain}
use splittr.Domain.Ids.{UserId, GroupId, ExpenseId, SettlementId}
use splittr.Domain.Money.{Cents}
use splittr.Domain.Expense.{ExpenseFields}
use splittr.Crdt.Identity.{PublicKey}

pub record DeviceRecord : Type 0 where
  pub identity : PublicKey
  pub site : ℕ
  pub revoked : Bool

pub record GroupRecord : Type 0 where
  pub name : Bytes
  pub currency : Bytes
  pub members : BTreeSet UserId
  pub closed_until_ms : ℤ

pub record UserRecord : Type 0 where
  pub name : Bytes
  pub agreement_pub : Option Bytes

pub record ExpenseRecord : Type 0 where
  pub group : Option GroupId
  pub fields : ExpenseFields
  pub locked : Bool
  pub published : Bool

pub record SettlementRecord : Type 0 where
  pub group : Option GroupId
  pub from : UserId
  pub to : UserId
  pub amount : Cents

pub record Projection : Type 0 where
  pub groups : BTreeMap GroupId GroupRecord
  pub users : BTreeMap UserId UserRecord
  pub expenses : BTreeMap ExpenseId ExpenseRecord
  pub settlements : BTreeMap SettlementId SettlementRecord
  pub aliases : BTreeMap UserId UserId
  pub devices : BTreeMap PublicKey DeviceRecord
  pub friends : BTreeMap UserId (BTreeSet UserId)

-- `e.group.as_ref() == Some(group)`
abbrev pub in_group : GroupId → Option GroupId → Bool
in_group group none = false
in_group group (some g) = same g group

unfoldable pub for_group : Projection → GroupId → Projection
unfolding retain
for_group p group = record {
  groups = [];
  users = [];
  expenses = retain (λ _ e. in_group group e.group) p.expenses;
  settlements = retain (λ _ s. in_group group s.group) p.settlements;
  aliases = p.aliases;
  devices = [];
  friends = [];
}
