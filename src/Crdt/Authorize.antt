-- ===== src/Crdt/Authorize.antt =====
-- splittr-crdt/src/authorize.rs: who may do what, as a function of the whole op-set. The children
-- hold the device certificates, the aliases, the rules and the stages of the build.
pub mod Certs
pub mod Alias
pub mod Rules
pub mod Stages
pub mod Commute
pub mod Linear
pub mod Bind
use splittr.Prelude.{
  Bool, true, false, Option, none, some, [], ◌∷◌, List, foldl, if◌then◌else◌, ◌||◌,
}
use splittr.Prelude.Ord.{same, bytes_ord, cmp_bytes}
use splittr.Prelude.Lists.{sort_by}
use splittr.BTree.{BTreeMap, BTreeSet, get, set_insert}
use splittr.Domain.Ids.{UserId, GroupId, ExpenseId, SettlementId}
use splittr.Crdt.Clock.{hlc_ord}
use splittr.Crdt.Identity.{user_id_for, is_placeholder}
use splittr.Crdt.Op.{
  Op, OpKind, Order, order_of, create_group, set_group_name, set_group_currency, set_membership,
  create_expense, edit_expense, publish_expense, void_expense, set_expense_lock, set_closed_period,
  record_settlement, void_settlement, add_alias, declare_friend, upsert_profile, set_agreement_key,
  authorize_device, revoke_device,
}
use Certs.{Devices, collect_devices, identity_of, revoked_at}
use Alias.{Aliases, alias_authorized, alias_edges, resolve_aliases, resolve}
use Rules.{Membership, FriendDecls, actor_of, friend_op_ok, is_member_as_of, parties_of, pair_of}
use Stages.{
  FounderPick, Bindings, friend_step, founder_step, seed_founder, founders_of, by_order,
  membership_ops, membership_step, bind_step, no_bindings,
}

pub record Authority : Type 0 where
  pub devices : Devices
  pub aliases : Aliases
  pub founders : BTreeMap GroupId UserId
  pub membership : Membership
  pub bindings : Bindings
  pub friend_decls : FriendDecls

-- `Authority::build`. Each stage is a loop over the ops and reads what the stages before it wrote.
unfoldable pub build : List Op → Authority
build ops =
    let devices = collect_devices ops in
    let aliases = resolve_aliases (alias_edges devices ops) in
    let friend_decls = foldl (friend_step devices aliases) [] ops in
    let founder_pick = foldl (founder_step devices aliases) [] ops in
    let seeded = foldl seed_founder [] founder_pick in
    let membership =
      foldl (membership_step devices aliases) seeded (sort_by by_order (membership_ops ops)) in
    record {
      devices = devices;
      aliases = aliases;
      founders = founders_of founder_pick;
      membership = membership;
      bindings = foldl (bind_step devices aliases membership friend_decls) no_bindings ops;
      friend_decls = friend_decls;
    }

module _ (auth : Authority) where
  abbrev pub actor : Op → UserId
  actor op = actor_of auth.devices auth.aliases op

  abbrev pub member_at : GroupId → UserId → Order → Bool
  member_at group user at = is_member_as_of auth.membership group user at

  abbrev pub friendly : UserId → BTreeSet UserId → Bool
  friendly user parties = friend_op_ok auth.friend_decls user parties

  -- The binding of an expense or settlement: its group, and the parties where it has none.
  bound_entitled : Option (Option GroupId) → Option (BTreeSet UserId) → UserId → Order → Bool
  bound_entitled none parties user at = false
  bound_entitled (some (some group)) parties user at = member_at group user at
  bound_entitled (some none) none user at = false
  bound_entitled (some none) (some parties) user at = friendly user parties

  unfoldable pub expense_entitled : ExpenseId → UserId → Order → Bool
  unfolding bound_entitled
  expense_entitled expense user at =
      bound_entitled (get expense auth.bindings.expense_group)
        (get expense auth.bindings.expense_parties) user at

  unfoldable pub settlement_entitled : SettlementId → UserId → Order → Bool
  unfolding bound_entitled
  settlement_entitled settlement user at =
      bound_entitled (get settlement auth.bindings.settlement_group)
        (get settlement auth.bindings.settlement_parties) user at

  abbrev is_founder : Option UserId → UserId → Bool
  is_founder none user = false
  is_founder (some founder) user = same founder user

  -- The rule for each kind, for an op by `user` at `at` whose author is not revoked; `raw` is the
  -- author's identity before aliases are resolved.
  unfoldable pub kind_entitled : OpKind → UserId → UserId → Order → Bool
  kind_entitled (create_group group _) raw user at = is_founder (get group auth.founders) user
  kind_entitled (set_group_name group _) raw user at = member_at group user at
  kind_entitled (set_group_currency group _) raw user at = member_at group user at
  kind_entitled (set_closed_period group _) raw user at = member_at group user at
  kind_entitled (set_membership _ _ _) raw user at = false
  kind_entitled (create_expense _ (some g) _ _) raw user at = member_at g user at
  kind_entitled (create_expense _ none fields _) raw user at =
      friendly user (parties_of auth.aliases fields)
  kind_entitled (edit_expense expense _) raw user at = expense_entitled expense user at
  kind_entitled (publish_expense expense) raw user at = expense_entitled expense user at
  kind_entitled (void_expense expense) raw user at = expense_entitled expense user at
  kind_entitled (set_expense_lock expense _) raw user at = expense_entitled expense user at
  kind_entitled (record_settlement _ (some g) _ _ _) raw user at = member_at g user at
  kind_entitled (record_settlement _ none from to _) raw user at =
      friendly user (pair_of (resolve auth.aliases from) (resolve auth.aliases to))
  kind_entitled (void_settlement settlement) raw user at = settlement_entitled settlement user at
  kind_entitled (declare_friend _) raw user at = false
  kind_entitled (add_alias alias canonical) raw user at = alias_authorized raw alias canonical
  kind_entitled (upsert_profile named _) raw user at =
      let target = resolve auth.aliases named in same user target || is_placeholder target
  kind_entitled (set_agreement_key named _) raw user at = same user (resolve auth.aliases named)
  kind_entitled (authorize_device _ _ _) raw user at = false
  kind_entitled (revoke_device _ _) raw user at = false

  unfoldable pub entitled : Op → Bool
  entitled op =
      if revoked_at auth.devices op
      then false
      else kind_entitled op.kind (user_id_for (identity_of auth.devices op.author)) (actor op)
          (order_of op)
