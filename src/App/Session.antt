-- ===== src/App/Session.antt =====
-- splittr-app/src/app.rs: opening the application, the root key, and what is read through it.
pub mod Commits
use splittr.Prelude.{
  ℕ, Bool, true, false, Option, none, some, List, [], Result, ok, err, if◌then◌else◌, ◌>>=◌,
}
use splittr.Prelude.Ord.{Bytes, bytes_ord}
use splittr.Prelude.Text.{utf8}
use splittr.BTree.{get, get_or, contains_key, keys}
use splittr.Domain.Ids.{UserId, GroupId}
use splittr.Domain.Money.{Cents}
use splittr.Crdt.Clock.{SiteId}
use splittr.Crdt.Identity.{PublicKey}
use splittr.Crdt.Op.{OpKind, Op, Crypto}
use splittr.Crdt.Projection.{Projection, UserRecord}
use splittr.Crypto.Invite.{Invite, create_invite_with}
use splittr.Store.OpStore.{OpStore, StoreError}
use splittr.Store.Repository.{Repository, open_repository}
use splittr.App.Clock.{new_generator}
use splittr.App.Identity.{
  Seeds, Identity, unlock, lock, root_unlocked, device_public, agreement_public, root_key,
}
use splittr.App.Error.{AppError, not_authorized, root_locked, store_failed}
use splittr.App.Commands.{App, Answer, me, look, commit_as_root}
use splittr.App.Query.Views.{
  GroupSummary, GroupDetail, FriendBalance, FriendDetail, DeviceView, groups, overall_net,
  group_detail, friends, friend_detail, devices,
}
use splittr.App.Query.Activity.{ActivityEntry, activity}

module _ (crypto : Crypto) (seeds : Seeds crypto) (S : Type 0) ⦃log : OpStore S⦄ where
  -- The rest of `ensure_device_authorized`, by whether the device is enrolled.
  abbrev pub enrol : Bool → ℕ → App crypto seeds S → SiteId → Answer crypto seeds S (Unit {0})
  enrol true now app site = (app, ok tt)
  enrol false now app site =
      if root_unlocked crypto seeds app.identity
      then commit_as_root crypto seeds S now app (
          OpKind.authorize_device app.identity.identity_pub
            (device_public crypto seeds app.identity) site)
      else (app, err root_locked)

  unfoldable pub ensure_device_authorized :
      ℕ → App crypto seeds S → SiteId → Answer crypto seeds S (Unit {0})
  ensure_device_authorized now app site =
      let (app', p) = look crypto seeds S app in
      enrol (contains_key (device_public crypto seeds app.identity) p.devices) now app' site

  abbrev pub opened : Answer crypto seeds S (Unit {0}) → Result AppError (App crypto seeds S)
  opened (app, err e) = err e
  opened (app, ok _) = ok app

  -- `App::new`
  unfoldable pub new_app :
      ℕ → Identity crypto seeds → S → SiteId → Result AppError (App crypto seeds S)
  unfolding open_repository ensure_device_authorized new_generator
  new_app now identity store site = elim (open_repository store) [
    | err e ↦ err (store_failed e)
    | ok repo ↦ opened (
        ensure_device_authorized now
          (record { identity = identity; repo = repo; clock = new_generator site }) site)
  ]

  unfoldable pub unlock_root : App crypto seeds S → Bytes → Answer crypto seeds S (Unit {0})
  unfolding unlock
  unlock_root app identity_seed =
      let (identity, opens) = unlock crypto seeds app.identity identity_seed in
      (
        record app { identity = identity },
        (if opens
            then ok tt
            else err (not_authorized (utf8 "recovery seed does not match this identity"))),
      )

  unfoldable pub lock_root : App crypto seeds S → App crypto seeds S
  unfolding lock
  lock_root app = record app { identity = lock crypto seeds app.identity }

  -- A value read from the projection for the local user; the read may fill the memo.
  abbrev pub ask :
      {A : Type 0} → App crypto seeds S → (Projection → UserId → A) → App crypto seeds S × A
  ask app f = let (app', p) = look crypto seeds S app in (app', f p (me crypto seeds S app))

  abbrev pub published_key : Option UserRecord → Option Bytes
  published_key none = none
  published_key (some u) = u.agreement_pub

  unfoldable pub my_agreement_public : App crypto seeds S → App crypto seeds S × Option Bytes
  my_agreement_public app = elim (agreement_public crypto seeds app.identity) [
    | none ↦ ask app (λ p user. published_key (get user p.users))
    | some key ↦ (app, some key)
  ]

  unfoldable pub my_name : App crypto seeds S → App crypto seeds S × Option Bytes
  my_name app = ask app (λ p user. elim (get user p.users) [ none ↦ none | some r ↦ some r.name ])

  -- `confirmed_friends`
  unfoldable pub my_confirmed_friends : App crypto seeds S → App crypto seeds S × List UserId
  my_confirmed_friends app =
      ask app (λ p user. keys (get_or (get_or user user p.aliases) [] p.friends))

  -- With the random nonce.
  unfoldable pub create_invite :
      App crypto seeds S → (context nonce : Bytes) → (expiry_ms : ℕ) → Result AppError Invite
  unfolding create_invite_with
  create_invite app context nonce expiry_ms = elim (root_key crypto seeds app.identity) [
    | none ↦ err root_locked
    | some key ↦ ok (create_invite_with crypto key context nonce expiry_ms)
  ]

  -- The queries.
  abbrev pub my_groups : App crypto seeds S → App crypto seeds S × Option (List GroupSummary)
  my_groups app = ask app groups

  abbrev pub my_overall_net : App crypto seeds S → App crypto seeds S × Option Cents
  my_overall_net app = ask app overall_net

  abbrev pub my_group_detail :
      App crypto seeds S → GroupId → App crypto seeds S × Option (Option GroupDetail)
  my_group_detail app group = ask app (λ p user. group_detail p user group)

  abbrev pub my_friends : App crypto seeds S → App crypto seeds S × Option (List FriendBalance)
  my_friends app = ask app friends

  abbrev pub my_friend_detail :
      App crypto seeds S → UserId → App crypto seeds S × Option (Option FriendDetail)
  my_friend_detail app friend = ask app (λ p user. friend_detail p user friend)

  -- `unwrap_or_default`
  abbrev pub or_nothing : Result StoreError (List Op) → List Op
  or_nothing (err _) = []
  or_nothing (ok ops) = ops

  abbrev pub my_activity : App crypto seeds S → App crypto seeds S × Option (List ActivityEntry)
  my_activity app = ask app (activity (or_nothing (log.ops app.repo.store)))

  abbrev pub my_devices : App crypto seeds S → App crypto seeds S × List DeviceView
  my_devices app =
      ask app (λ p _. devices p app.identity.identity_pub (device_public crypto seeds app.identity))
