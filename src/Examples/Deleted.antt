-- ===== src/Examples/Deleted.antt =====
-- Runs of a log in which an expense and a payment are deleted.
use splittr.Prelude.{ℕ, true, false, none, List, [], ◌∷◌, ◌++◌, ◌≡◌, refl}
use splittr.Prelude.Int.{pos}
use splittr.Prelude.Ord.{bytes_ord, cmp_bytes}
use splittr.Prelude.Text.{utf8}
use splittr.BTree.{get, insert, insert_unless}
use splittr.Domain.Ids.{UserId}
use splittr.Domain.Expense.{ExpenseFields, new_fields}
use splittr.Crdt.Op.{Op, OpKind, create_expense, void_expense, record_settlement, void_settlement}
use splittr.Crdt.Authorize.{build, entitled, kind_entitled, expense_entitled, settlement_entitled}
use splittr.Crdt.Authorize.Certs.{
  revoked_at, collect_devices, devices_kind, devices_step, identity_of,
}
use splittr.Crdt.Authorize.Stages.{bind_step, bind_kind, founder_step, friend_step}
use splittr.Crdt.Authorize.Rules.{friend_op_ok, parties_of, actor_of}
use splittr.Crdt.Authorize.Alias.{
  resolve_aliases, resolve_graph, components, alias_edges, alias_edge,
}
use splittr.Crdt.Identity.{user_id_for, hex32}
use splittr.Crdt.Materialize.{project}
use splittr.Crdt.Materialize.Voided.{void_expense-stands, void_settlement-stands}
use splittr.Examples.Data.{key, at_ms}

-- The user of the key.
abbrev owner : UserId
owner = utf8 "id:4b"

abbrev lunch : ExpenseFields
lunch = new_fields ((owner, pos 300) ∷ []) (pos 300) (record { user = owner; owed = pos 300 } ∷ [])

abbrev at_time : ℕ → OpKind → Op
at_time t kind = record { id = t ∷ key; hlc = at_ms t; author = key; sig = t ∷ key; kind = kind }

abbrev deletion : Op
deletion = at_time 2 (void_expense (utf8 "l"))

abbrev creation : List Op
creation = at_time 1 (create_expense (utf8 "l") none lunch false) ∷ []

abbrev later_edit : List Op
later_edit = at_time 3 (OpKind.edit_expense (utf8 "l") lunch) ∷ []

deletion-entitled : entitled (build (creation ++ deletion ∷ later_edit)) deletion ≡ true
unfolding build entitled revoked_at get collect_devices kind_entitled expense_entitled bind_step
    friend_op_ok parties_of insert cmp_bytes resolve_aliases resolve_graph components alias_edges
    alias_edge actor_of user_id_for insert_unless devices_kind devices_step identity_of bind_kind
    founder_step friend_step settlement_entitled hex32
deletion-entitled = refl

void_expense-stands_example :
    get (utf8 "l") (project (creation ++ deletion ∷ later_edit)).expenses ≡ none
void_expense-stands_example =
    void_expense-stands creation later_edit deletion (utf8 "l") refl deletion-entitled

abbrev payment : List Op
payment = at_time 1 (record_settlement (utf8 "s") none owner owner (pos 5)) ∷ []

abbrev undoing : Op
undoing = at_time 2 (void_settlement (utf8 "s"))

undoing-entitled : entitled (build (payment ++ undoing ∷ [])) undoing ≡ true
unfolding build entitled revoked_at get collect_devices kind_entitled expense_entitled bind_step
    friend_op_ok parties_of insert cmp_bytes resolve_aliases resolve_graph components alias_edges
    alias_edge actor_of user_id_for insert_unless devices_kind devices_step identity_of bind_kind
    founder_step friend_step settlement_entitled hex32
undoing-entitled = refl

void_settlement-stands_example :
    get (utf8 "s") (project (payment ++ undoing ∷ [])).settlements ≡ none
void_settlement-stands_example =
    void_settlement-stands payment [] undoing (utf8 "s") refl undoing-entitled
