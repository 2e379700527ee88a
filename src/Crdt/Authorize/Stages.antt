-- ===== src/Crdt/Authorize/Stages.antt =====
-- splittr-crdt/src/authorize.rs: the bodies of the loops of `Authority::build`.
use splittr.Prelude.{
  Bool, true, false, Option, none, some, [], ◌∷◌, List, if◌then◌else◌, ◌&&◌, ◌++◌, Ordering,
}
use splittr.Prelude.Ord.{same, less, at_most, bytes_ord, pair_ord, cmp_pair}
use splittr.BTree.{BTreeMap, BTreeSet, get, insert, insert_unless, set_insert, update_entry}
use splittr.Domain.Ids.{UserId, GroupId, ExpenseId, SettlementId}
use splittr.Crdt.Clock.{Hlc, hlc_ord}
use splittr.Crdt.Op.{
  Op, OpKind, Order, order_of, create_group, set_membership, create_expense, record_settlement,
  declare_friend,
}
use splittr.Crdt.Authorize.Certs.{Devices, revoked_at}
use splittr.Crdt.Authorize.Alias.{Aliases, resolve}
use splittr.Crdt.Authorize.Rules.{
  Membership, FriendDecls, actor_of, friend_op_ok, is_member_as_of, parties_of, pair_of,
}

-- Earlier than any real op.
abbrev pub min_order : Order
min_order = (
  record { wall_ms = 0; counter = 0; site = 0 },
  0 ∷ 0 ∷ 0 ∷ 0 ∷ 0 ∷ 0 ∷ 0 ∷ 0 ∷ 0 ∷ 0 ∷ 0 ∷ 0 ∷ 0 ∷ 0 ∷ 0 ∷ 0 ∷ 0 ∷ 0 ∷ 0 ∷ 0 ∷ 0 ∷ 0 ∷ 0 ∷ 0 ∷ 0
      ∷ 0 ∷ 0 ∷ 0 ∷ 0 ∷ 0 ∷ 0 ∷ 0 ∷ [],
)

module _ (devices : Devices) (aliases : Aliases) where
  -- Stage 1.5: a declaration of friendship, by whom and towards whom.
  unfoldable pub friend_decl : OpKind → Op → Option (UserId × UserId)
  friend_decl (declare_friend other) op =
      let actor = actor_of devices aliases op in
      let other' = resolve aliases other in
      if revoked_at devices op
      then none
      else if same actor other'
      then none
      else some (actor, other')
  friend_decl _ op = none

  unfoldable pub friend_step : FriendDecls → Op → FriendDecls
  unfolding friend_decl
  friend_step decls op = elim (friend_decl op.kind op) [
    | none ↦ decls
    | some (a, b) ↦ update_entry a [] (set_insert b) decls
  ]

-- group → the order and the actor of its earliest creation
abbrev pub FounderPick : Type 0
FounderPick = BTreeMap GroupId (Order × UserId)

-- `Some((existing, _)) if *existing <= key`
abbrev pub is_earlier : Order × UserId → Order × UserId → Bool
is_earlier old new = at_most old.0 new.0

module _ (devices : Devices) (aliases : Aliases) where
  -- Stage 2.
  unfoldable pub created : OpKind → Op → Option GroupId
  created (create_group group _) op = if revoked_at devices op then none else some group
  created _ op = none

  unfoldable pub founder_step : FounderPick → Op → FounderPick
  unfolding created
  founder_step pick op = elim (created op.kind op) [
    | none ↦ pick
    | some group ↦ insert_unless is_earlier group (order_of op, actor_of devices aliases op) pick
  ]

abbrev push_event : Order × Bool → List (Order × Bool) → List (Order × Bool)
push_event e events = events ++ e ∷ []

-- `membership.entry(group).or_default().entry(user).or_default().push(e)`
abbrev pub add_event : GroupId → UserId → Order × Bool → Membership → Membership
add_event group user e m = update_entry group [] (update_entry user [] (push_event e)) m

unfoldable pub seed_founder : Membership → GroupId × (Order × UserId) → Membership
seed_founder m (group, (_, founder)) = add_event group founder (min_order, true) m

-- `auth.founders.insert(group, founder)` for each group.
unfoldable pub founders_of : FounderPick → BTreeMap GroupId UserId
founders_of [] = []
founders_of ((group, (_, founder)) ∷ pick) = (group, founder) ∷ founders_of pick

-- Stage 3: the ops that `sort_by_key(order_of)` sorts.
abbrev pub by_order : Op → Op → Ordering
by_order a b = cmp_pair (order_of a) (order_of b)

abbrev pub is_set_membership : OpKind → Bool
is_set_membership (set_membership _ _ _) = true
is_set_membership _ = false

unfoldable pub membership_ops : List Op → List Op
membership_ops [] = []
membership_ops (op ∷ ops) =
    if is_set_membership op.kind then op ∷ membership_ops ops else membership_ops ops

module _ (devices : Devices) (aliases : Aliases) where
  membership_change : OpKind → Membership → Op → Membership
  membership_change (set_membership group user member) m op =
      if revoked_at devices op
      then m
      else if is_member_as_of m group (actor_of devices aliases op) (order_of op)
      then add_event group (resolve aliases user) (order_of op, member) m
      else m
  membership_change _ m op = m

  unfoldable pub membership_step : Membership → Op → Membership
  unfolding membership_change
  membership_step m op = membership_change op.kind m op

-- Stage 4: the group and the parties of each entity, with the clock of the op that bound it.
pub record Bindings : Type 0 where
  pub expense_at : BTreeMap ExpenseId Hlc
  pub expense_group : BTreeMap ExpenseId (Option GroupId)
  pub expense_parties : BTreeMap ExpenseId (BTreeSet UserId)
  pub settlement_at : BTreeMap SettlementId Hlc
  pub settlement_group : BTreeMap SettlementId (Option GroupId)
  pub settlement_parties : BTreeMap SettlementId (BTreeSet UserId)

abbrev pub no_bindings : Bindings
no_bindings = record {
  expense_at = [];
  expense_group = [];
  expense_parties = [];
  settlement_at = [];
  settlement_group = [];
  settlement_parties = [];
}

-- `at.get(id).is_none_or(|h| hlc > *h)`
abbrev pub is_newer : Option Hlc → Hlc → Bool
is_newer none hlc = true
is_newer (some h) hlc = less h hlc

module _ (devices : Devices) (aliases : Aliases) (membership : Membership)
    (decls : FriendDecls) where
  -- `match group { Some(g) => .., None => .. }`
  abbrev pub create_ok : Option GroupId → UserId → BTreeSet UserId → Order → Bool
  create_ok (some g) actor parties at = is_member_as_of membership g actor at
  create_ok none actor parties at = friend_op_ok decls actor parties

  unfoldable pub bind_kind : OpKind → Bindings → Op → Bindings
  bind_kind (create_expense expense group fields _) b op =
      let parties = parties_of aliases fields in
      if create_ok group (actor_of devices aliases op) parties (order_of op)
        && is_newer (get expense b.expense_at) op.hlc
      then record b {
        expense_at = insert expense op.hlc b.expense_at;
        expense_group = insert expense group b.expense_group;
        expense_parties = insert expense parties b.expense_parties;
      }
      else b
  bind_kind (record_settlement settlement group from to _) b op =
      let parties = pair_of (resolve aliases from) (resolve aliases to) in
      if create_ok group (actor_of devices aliases op) parties (order_of op)
        && is_newer (get settlement b.settlement_at) op.hlc
      then record b {
        settlement_at = insert settlement op.hlc b.settlement_at;
        settlement_group = insert settlement group b.settlement_group;
        settlement_parties = insert settlement parties b.settlement_parties;
      }
      else b
  bind_kind _ b op = b

  unfoldable pub bind_step : Bindings → Op → Bindings
  unfolding bind_kind
  bind_step b op = if revoked_at devices op then b else bind_kind op.kind b op
