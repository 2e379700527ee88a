-- ===== src/Ffi/Engine.antt =====
-- splittr-ffi/src/api.rs: the methods of the engine that pass a call on to the application and turn
-- its answer into the types of the border.
use splittr.Prelude.{ℕ, Bool, Option, none, some, List, map}
use splittr.Prelude.Int.{ℤ}
use splittr.Prelude.Ord.{Bytes}
use splittr.Domain.Ids.{UserId, GroupId, ExpenseId, SettlementId}
use splittr.Domain.Money.{Cents}
use splittr.Crdt.Identity.{hex32}
use splittr.Crdt.Op.{Crypto}
use splittr.Store.OpStore.{OpStore}
use splittr.App.Identity.{Seeds, root_unlocked, device_public}
use splittr.App.Commands.{
  App, set_my_name, add_person, claim_person, merge_people, add_friend, rename_group,
  set_group_currency, add_member, remove_member, publish_expense, set_closed_period, delete_expense,
  delete_settlement,
}
use splittr.App.Groups.{
  lock_expense, unlock_expense, record_settlement, record_non_group_settlement,
}
use splittr.App.Session.{
  lock_root, my_name, my_agreement_public, my_confirmed_friends, my_groups, my_overall_net,
  my_group_detail, my_friends, my_friend_detail, my_activity, my_devices,
}
use splittr.Ffi.Dto.{
  GroupSummaryDto, GroupDetailDto, FriendBalanceDto, FriendDetailDto, ActivityEntryDto,
  DeviceViewDto,
}
use splittr.Ffi.Convert.{
  group_summary_dto, group_detail_dto, friend_balance_dto, friend_detail_dto, activity_dto,
  device_dto,
}
use splittr.Ffi.Api.{Reply, reply}

-- `map(..)` of an option.
abbrev pub option_map : {A B : Type 0} → (A → B) → Option A → Option B
option_map f none = none
option_map f (some a) = some (f a)

module _ (crypto : Crypto) (seeds : Seeds crypto) (S : Type 0) ⦃log : OpStore S⦄ where
  abbrev pub Engine : Type 0
  Engine = App crypto seeds S

  unfoldable pub engine_set_my_name : (t u : ℕ) → Engine → Bytes → Reply crypto seeds S (Unit {0})
  unfolding set_my_name
  engine_set_my_name t u engine name =
      reply crypto seeds S (set_my_name crypto seeds S t u engine name)

  unfoldable pub engine_add_person : ℕ → Engine → (fresh name : Bytes) → Reply crypto seeds S UserId
  unfolding add_person
  engine_add_person now engine fresh name =
      reply crypto seeds S (add_person crypto seeds S now engine fresh name)

  unfoldable pub engine_claim_person : ℕ → Engine → UserId → Reply crypto seeds S (Unit {0})
  unfolding claim_person
  engine_claim_person now engine placeholder =
      reply crypto seeds S (claim_person crypto seeds S now engine placeholder)

  unfoldable pub engine_merge_people :
      ℕ → Engine → (duplicate keep : UserId) → Reply crypto seeds S (Unit {0})
  unfolding merge_people
  engine_merge_people now engine dup keep =
      reply crypto seeds S (merge_people crypto seeds S now engine dup keep)

  unfoldable pub engine_add_friend : ℕ → Engine → UserId → Reply crypto seeds S (Unit {0})
  unfolding add_friend
  engine_add_friend now engine user =
      reply crypto seeds S (add_friend crypto seeds S now engine user)

  unfoldable pub engine_rename_group :
      ℕ → Engine → GroupId → Bytes → Reply crypto seeds S (Unit {0})
  unfolding rename_group
  engine_rename_group now engine group name =
      reply crypto seeds S (rename_group crypto seeds S now engine group name)

  unfoldable pub engine_set_group_currency :
      ℕ → Engine → GroupId → Bytes → Reply crypto seeds S (Unit {0})
  unfolding set_group_currency
  engine_set_group_currency now engine group currency =
      reply crypto seeds S (set_group_currency crypto seeds S now engine group currency)

  unfoldable pub engine_add_member : ℕ → Engine → GroupId → UserId → Reply crypto seeds S (Unit {0})
  unfolding add_member
  engine_add_member now engine group user =
      reply crypto seeds S (add_member crypto seeds S now engine group user)

  unfoldable pub engine_remove_member :
      ℕ → Engine → GroupId → UserId → Reply crypto seeds S (Unit {0})
  unfolding remove_member
  engine_remove_member now engine group user =
      reply crypto seeds S (remove_member crypto seeds S now engine group user)

  unfoldable pub engine_publish_expense : ℕ → Engine → ExpenseId → Reply crypto seeds S (Unit {0})
  unfolding publish_expense
  engine_publish_expense now engine expense =
      reply crypto seeds S (publish_expense crypto seeds S now engine expense)

  unfoldable pub engine_set_closed_period :
      ℕ → Engine → GroupId → ℤ → Reply crypto seeds S (Unit {0})
  unfolding set_closed_period
  engine_set_closed_period now engine group until_ms =
      reply crypto seeds S (set_closed_period crypto seeds S now engine group until_ms)

  unfoldable pub engine_delete_expense : ℕ → Engine → ExpenseId → Reply crypto seeds S (Unit {0})
  unfolding delete_expense
  engine_delete_expense now engine expense =
      reply crypto seeds S (delete_expense crypto seeds S now engine expense)

  unfoldable pub engine_lock_expense : ℕ → Engine → ExpenseId → Reply crypto seeds S (Unit {0})
  unfolding lock_expense
  engine_lock_expense now engine expense =
      reply crypto seeds S (lock_expense crypto seeds S now engine expense)

  unfoldable pub engine_unlock_expense : ℕ → Engine → ExpenseId → Reply crypto seeds S (Unit {0})
  unfolding unlock_expense
  engine_unlock_expense now engine expense =
      reply crypto seeds S (unlock_expense crypto seeds S now engine expense)

  unfoldable pub engine_record_settlement :
      ℕ
      → Engine
      → (fresh : Bytes) → GroupId
      → (from to : UserId) → Cents
      → Reply crypto seeds S SettlementId
  unfolding record_settlement
  engine_record_settlement now engine fresh group from to amount =
      reply crypto seeds S (record_settlement crypto seeds S now engine fresh group from to amount)

  unfoldable pub engine_record_non_group_settlement :
      ℕ → Engine → (fresh : Bytes) → (from to : UserId) → Cents → Reply crypto seeds S SettlementId
  unfolding record_non_group_settlement
  engine_record_non_group_settlement now engine fresh from to amount =
      reply crypto seeds S
        (record_non_group_settlement crypto seeds S now engine fresh from to amount)

  unfoldable pub engine_delete_settlement :
      ℕ → Engine → SettlementId → Reply crypto seeds S (Unit {0})
  unfolding delete_settlement
  engine_delete_settlement now engine settlement =
      reply crypto seeds S (delete_settlement crypto seeds S now engine settlement)

  abbrev pub engine_lock_root : Engine → Engine
  engine_lock_root engine = lock_root crypto seeds S engine

  abbrev pub is_root_unlocked : Engine → Bool
  is_root_unlocked engine = root_unlocked crypto seeds engine.identity

  abbrev pub identity_public : Engine → Bytes
  identity_public engine = hex32 engine.identity.identity_pub

  abbrev pub my_device_public : Engine → Bytes
  my_device_public engine = hex32 (device_public crypto seeds engine.identity)

  -- A query with its answer turned into a type of the border.
  abbrev pub shown : {A B : Type 0} → (A → B) → Engine × A → Engine × B
  shown f (engine, a) = (engine, f a)

  abbrev pub engine_my_name : Engine → Engine × Option Bytes
  engine_my_name engine = my_name crypto seeds S engine

  abbrev pub engine_agreement_public : Engine → Engine × Option Bytes
  engine_agreement_public engine =
      shown (option_map hex32) (my_agreement_public crypto seeds S engine)

  abbrev pub engine_confirmed_friends : Engine → Engine × List UserId
  engine_confirmed_friends engine = my_confirmed_friends crypto seeds S engine

  abbrev pub engine_groups : Engine → Engine × Option (List GroupSummaryDto)
  engine_groups engine =
      shown (option_map (map group_summary_dto)) (my_groups crypto seeds S engine)

  abbrev pub overall_net_cents : Engine → Engine × Option ℤ
  overall_net_cents engine = my_overall_net crypto seeds S engine

  abbrev pub engine_group_detail : Engine → GroupId → Engine × Option (Option GroupDetailDto)
  engine_group_detail engine group =
      shown (option_map (option_map group_detail_dto)) (my_group_detail crypto seeds S engine group)

  abbrev pub engine_friends : Engine → Engine × Option (List FriendBalanceDto)
  engine_friends engine =
      shown (option_map (map friend_balance_dto)) (my_friends crypto seeds S engine)

  abbrev pub engine_friend_detail : Engine → UserId → Engine × Option (Option FriendDetailDto)
  engine_friend_detail engine user =
      shown (option_map (option_map friend_detail_dto))
        (my_friend_detail crypto seeds S engine user)

  abbrev pub engine_activity : Engine → Engine × Option (List ActivityEntryDto)
  engine_activity engine = shown (option_map (map activity_dto)) (my_activity crypto seeds S engine)

  abbrev pub list_devices : Engine → Engine × List DeviceViewDto
  list_devices engine = shown (map device_dto) (my_devices crypto seeds S engine)
