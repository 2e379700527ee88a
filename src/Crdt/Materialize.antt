-- ===== src/Crdt/Materialize.antt =====
-- splittr-crdt/src/materialize.rs: the fold of the op-set into the read model.
pub mod Apply
pub mod Commute
pub mod Arrival
pub mod Voided
use splittr.Prelude.{Bool, true, false, Option, none, some, [], ◌∷◌, List, foldl, if◌then◌else◌}
use splittr.Prelude.Ord.{Bytes, bytes_ord, cmp_bytes}
use splittr.Prelude.Int.{pos}
use splittr.Prelude.Text.{utf8}
use splittr.BTree.{BTreeMap, BTreeSet, get, insert, contains, contains_key, keys, values}
use splittr.Domain.Ids.{UserId, GroupId, ExpenseId, SettlementId}
use splittr.Domain.Expense.{ExpenseFields}
use splittr.Crdt.Op.{Op, OpId}
use splittr.Crdt.Projection.{GroupRecord, UserRecord, ExpenseRecord, SettlementRecord, Projection}
use splittr.Crdt.Authorize.{Authority, build, entitled}
use splittr.Crdt.Authorize.Certs.{device_records}
use splittr.Crdt.Authorize.Rules.{current_members, confirmed_friends}
use Apply.{Stamped, SettlementData, Folder, empty_folder, apply}

-- `map.get(k).map(|s| s.value)`
abbrev pub value_at : {V : Type 0} → Bytes → BTreeMap Bytes (Stamped V) → Option V
value_at k m = elim (get k m) [ none ↦ none | some s ↦ some s.value ]

abbrev pub or_default : {V : Type 0} → V → Option V → V
or_default d none = d
or_default d (some v) = v

-- The loops of `assemble`, each over the keys of a map and with the record it inserts.
abbrev group_record : Folder → Authority → GroupId → GroupRecord
group_record f auth g = record {
  name = or_default [] (value_at g f.group_name);
  currency = or_default (utf8 "USD") (value_at g f.group_currency);
  members = current_members auth.membership g;
  closed_until_ms = or_default (pos 0) (value_at g f.group_closed_until);
}

abbrev add_group :
    Folder → Authority → BTreeMap GroupId GroupRecord → GroupId → BTreeMap GroupId GroupRecord
add_group f auth groups g = insert g (group_record f auth g) groups

-- Voided expenses are left out, and those that have no group binding.
abbrev pub add_expense :
    Folder
    → BTreeMap ExpenseId ExpenseRecord
    → ExpenseId × Stamped ExpenseFields
    → BTreeMap ExpenseId ExpenseRecord
add_expense f expenses (id, version) =
    if contains id f.expense_voided then expenses else elim (get id f.expense_group) [
      | none ↦ expenses
      | some group ↦
          insert id
            (record {
              group = group.value;
              fields = version.value;
              locked = or_default false (value_at id f.expense_locked);
              published = contains id f.expense_published;
            })
            expenses
    ]

abbrev pub add_settlement :
    Folder
    → BTreeMap SettlementId SettlementRecord
    → SettlementId × Stamped SettlementData
    → BTreeMap SettlementId SettlementRecord
add_settlement f settlements (id, s) =
    if contains id f.settlement_voided
    then settlements
    else insert id
        (record {
          group = s.value.group;
          from = s.value.from;
          to = s.value.to;
          amount = s.value.amount;
        })
        settlements

abbrev add_user :
    Folder → BTreeMap UserId UserRecord → UserId × Stamped Bytes → BTreeMap UserId UserRecord
add_user f users (id, s) =
    insert id (record { name = s.value; agreement_pub = value_at id f.agreement_keys }) users

unfoldable pub assemble : Folder → Authority → Projection
assemble f auth = record {
  groups = foldl (add_group f auth) [] (keys f.group_created);
  users = foldl (add_user f) [] f.profiles;
  expenses = foldl (add_expense f) [] f.expense_version;
  settlements = foldl (add_settlement f) [] f.settlements;
  aliases = auth.aliases;
  devices = device_records auth.devices;
  friends = confirmed_friends auth.friend_decls;
}

-- `if authority.entitled(op) { folder.apply(op) }`
unfoldable pub apply_entitled : Authority → Folder → Op → Folder
apply_entitled auth f op = if entitled auth op then apply f op else f

-- The shared `fold`, which is `project`.
unfoldable pub project : List Op → Projection
project ops = let auth = build ops in assemble (foldl (apply_entitled auth) empty_folder ops) auth

-- `Materializer`: the ops retained, by id.
pub record Materializer : Type 0 where
  pub ops : BTreeMap OpId Op

abbrev pub new_materializer : Materializer
new_materializer = record { ops = [] }

-- `entry(op.id).or_insert_with(..)`
unfoldable pub retain_op : Materializer → Op → Materializer
retain_op m op = if contains_key op.id m.ops then m else record { ops = insert op.id op m.ops }

unfoldable pub apply_all : Materializer → List Op → Materializer
unfolding retain_op
apply_all m ops = foldl retain_op m ops

unfoldable pub projection : Materializer → Projection
projection m = project (values m.ops)
