-- ===== src/App/Groups.antt =====
-- splittr-app/src/app.rs: the commands made of other commands.
use splittr.Prelude.{ℕ, Bool, true, false, none, some, List, [], ◌∷◌, ◌++◌, ok}
use splittr.Prelude.Ord.{Bytes}
use splittr.Prelude.Text.{utf8}
use splittr.Domain.Ids.{UserId, GroupId, ExpenseId, SettlementId}
use splittr.Domain.Money.{Cents}
use splittr.Crdt.Op.{OpKind, Crypto}
use splittr.Store.OpStore.{OpStore}
use splittr.App.Identity.{Seeds}
use splittr.App.Commands.{App, Answer, ◌then?◌, me, commit, set_expense_lock, create_settlement}

module _ (crypto : Crypto) (seeds : Seeds crypto) (S : Type 0) ⦃log : OpStore S⦄ where
  -- `set_membership`
  abbrev pub commit_membership :
      ℕ → App crypto seeds S → GroupId → UserId → Bool → Answer crypto seeds S (Unit {0})
  commit_membership now app group user member =
      commit crypto seeds S now app (OpKind.set_membership group user member)

  -- The loop over the other members, each with the wall time of its op.
  unfoldable pub add_members :
      App crypto seeds S → GroupId → List (ℕ × UserId) → Answer crypto seeds S (Unit {0})
  add_members app group [] = (app, ok tt)
  add_members app group ((now, user) ∷ rest) =
      ◌then?◌ crypto seeds S (commit_membership now app group user true)
        (λ app' _. add_members app' group rest)

  -- With the fresh name after "group:" and the wall times of the first two ops.
  unfoldable pub create_group :
      (t u : ℕ)
      → App crypto seeds S
      → (fresh name : Bytes) → List (ℕ × UserId)
      → Answer crypto seeds S GroupId
  unfolding add_members
  create_group t u app fresh name members =
      let group = utf8 "group:" ++ fresh in
      ◌then?◌ crypto seeds S (commit crypto seeds S t app (OpKind.create_group group name))
        (λ app' _.
          ◌then?◌ crypto seeds S (commit_membership u app' group (me crypto seeds S app') true)
            (λ a _. ◌then?◌ crypto seeds S (add_members a group members) (λ a' _. (a', ok group))))

  unfoldable pub lock_expense :
      ℕ → App crypto seeds S → ExpenseId → Answer crypto seeds S (Unit {0})
  unfolding set_expense_lock
  lock_expense now app expense = set_expense_lock crypto seeds S now app expense true

  unfoldable pub unlock_expense :
      ℕ → App crypto seeds S → ExpenseId → Answer crypto seeds S (Unit {0})
  unfolding set_expense_lock
  unlock_expense now app expense = set_expense_lock crypto seeds S now app expense false

  unfoldable pub record_settlement :
      ℕ
      → App crypto seeds S
      → (fresh : Bytes) → GroupId
      → (from to : UserId) → Cents
      → Answer crypto seeds S SettlementId
  unfolding create_settlement
  record_settlement now app fresh group from to amount =
      create_settlement crypto seeds S now app fresh (some group) from to amount

  unfoldable pub record_non_group_settlement :
      ℕ
      → App crypto seeds S
      → (fresh : Bytes) → (from to : UserId) → Cents
      → Answer crypto seeds S SettlementId
  unfolding create_settlement
  record_non_group_settlement now app fresh from to amount =
      create_settlement crypto seeds S now app fresh none from to amount
