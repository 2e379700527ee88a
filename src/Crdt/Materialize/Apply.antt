-- ===== src/Crdt/Materialize/Apply.antt =====
-- splittr-crdt/src/materialize.rs: the accumulator of the value fold, and what each op writes.
use splittr.Prelude.{Bool, Option, [], if◌then◌else◌}
use splittr.Prelude.Ord.{Ord, Bytes, bytes_ord}
use splittr.Prelude.Int.{ℤ}
use splittr.BTree.{BTreeMap, BTreeSet, insert_unless, set_insert}
use splittr.BTree.Commute.{outranks}
use splittr.Domain.Ids.{UserId, GroupId, ExpenseId, SettlementId}
use splittr.Domain.Money.{Cents}
use splittr.Domain.Expense.{ExpenseFields}
use splittr.Crdt.Clock.{Hlc, hlc_ord}
use splittr.Crdt.Op.{
  Op, OpKind, create_group, set_group_name, set_group_currency, set_membership, create_expense,
  edit_expense, publish_expense, void_expense, set_expense_lock, set_closed_period,
  record_settlement, void_settlement, add_alias, declare_friend, upsert_profile, set_agreement_key,
  authorize_device, revoke_device,
}

pub record Stamped (V : Type 0) : Type 0 where
  pub hlc : Hlc
  pub value : V

abbrev pub stamped_at : {V : Type 0} → Stamped V → Hlc
stamped_at s = s.hlc

-- The value with the strictly greatest clock is kept.
unfoldable pub lww :
    {K V : Type 0} ⦃o : Ord K⦄ → K → Stamped V → BTreeMap K (Stamped V) → BTreeMap K (Stamped V)
lww key incoming map = insert_unless (outranks stamped_at) key incoming map

abbrev pub stamp : {V : Type 0} → Hlc → V → Stamped V
stamp hlc value = record { hlc = hlc; value = value }

pub record SettlementData : Type 0 where
  pub group : Option GroupId
  pub from : UserId
  pub to : UserId
  pub amount : Cents

pub record Folder : Type 0 where
  pub group_created : BTreeSet GroupId
  pub group_name : BTreeMap GroupId (Stamped Bytes)
  pub group_currency : BTreeMap GroupId (Stamped Bytes)
  pub group_closed_until : BTreeMap GroupId (Stamped ℤ)
  pub profiles : BTreeMap UserId (Stamped Bytes)
  pub agreement_keys : BTreeMap UserId (Stamped Bytes)
  pub expense_group : BTreeMap ExpenseId (Stamped (Option GroupId))
  pub expense_version : BTreeMap ExpenseId (Stamped ExpenseFields)
  pub expense_locked : BTreeMap ExpenseId (Stamped Bool)
  pub expense_published : BTreeSet ExpenseId
  pub expense_voided : BTreeSet ExpenseId
  pub settlements : BTreeMap SettlementId (Stamped SettlementData)
  pub settlement_voided : BTreeSet SettlementId

-- `Folder::default()`
abbrev pub empty_folder : Folder
empty_folder = record {
  group_created = [];
  group_name = [];
  group_currency = [];
  group_closed_until = [];
  profiles = [];
  agreement_keys = [];
  expense_group = [];
  expense_version = [];
  expense_locked = [];
  expense_published = [];
  expense_voided = [];
  settlements = [];
  settlement_voided = [];
}

-- The `match` of `Folder::apply`.
unfoldable pub apply_kind : OpKind → Hlc → Folder → Folder
apply_kind (create_group group name) hlc f = record f {
  group_created = set_insert group f.group_created;
  group_name = lww group (stamp hlc name) f.group_name;
}
apply_kind (set_group_name group name) hlc f = record f {
  group_name = lww group (stamp hlc name) f.group_name;
}
apply_kind (set_group_currency group currency) hlc f = record f {
  group_currency = lww group (stamp hlc currency) f.group_currency;
}
apply_kind (create_expense expense group fields draft) hlc f = record f {
  expense_group = lww expense (stamp hlc group) f.expense_group;
  expense_version = lww expense (stamp hlc fields) f.expense_version;
  expense_published = if draft then f.expense_published else set_insert expense f.expense_published;
}
apply_kind (edit_expense expense fields) hlc f = record f {
  expense_version = lww expense (stamp hlc fields) f.expense_version;
}
apply_kind (publish_expense expense) hlc f = record f {
  expense_published = set_insert expense f.expense_published;
}
apply_kind (void_expense expense) hlc f = record f {
  expense_voided = set_insert expense f.expense_voided;
}
apply_kind (set_closed_period group until_ms) hlc f = record f {
  group_closed_until = lww group (stamp hlc until_ms) f.group_closed_until;
}
apply_kind (set_expense_lock expense locked) hlc f = record f {
  expense_locked = lww expense (stamp hlc locked) f.expense_locked;
}
apply_kind (record_settlement settlement group from to amount) hlc f = record f {
  settlements =
      lww settlement (stamp hlc (record { group = group; from = from; to = to; amount = amount }))
        f.settlements;
}
apply_kind (void_settlement settlement) hlc f = record f {
  settlement_voided = set_insert settlement f.settlement_voided;
}
apply_kind (set_membership _ _ _) hlc f = f
apply_kind (add_alias _ _) hlc f = f
apply_kind (declare_friend _) hlc f = f
apply_kind (authorize_device _ _ _) hlc f = f
apply_kind (revoke_device _ _) hlc f = f
apply_kind (upsert_profile user name) hlc f = record f {
  profiles = lww user (stamp hlc name) f.profiles;
}
apply_kind (set_agreement_key user key) hlc f = record f {
  agreement_keys = lww user (stamp hlc key) f.agreement_keys;
}

-- `Folder::apply`
unfoldable pub apply : Folder → Op → Folder
apply f op = apply_kind op.kind op.hlc f
