-- ===== src/App/Commands.antt =====
-- splittr-app/src/app.rs: the facade. A command takes the wall time of the moment and the random
-- names that it uses, and gives the application after it with its answer.
pub mod Guards
use splittr.Prelude.{
  ℕ, Bool, true, false, Option, none, some, ◌++◌, Result, ok, err, if◌then◌else◌, ◌&&◌,
}
use splittr.Prelude.Int.{ℤ, pos, leb_ℤ, ltb_ℤ}
use splittr.Prelude.Ord.{Bytes, same, bytes_ord}
use splittr.Prelude.Text.{utf8}
use splittr.BTree.{get, get_or, contains, contains_key}
use splittr.Domain.Ids.{UserId, GroupId, ExpenseId, SettlementId}
use splittr.Domain.Money.{Cents}
use splittr.Domain.Expense.{ExpenseFields}
use splittr.Crdt.Identity.{PublicKey}
use splittr.Crdt.Op.{
  OpKind, Crypto, signed, set_group_name, set_membership, create_expense, void_expense,
  record_settlement, void_settlement, declare_friend, upsert_profile, set_agreement_key,
}
use splittr.Crdt.Projection.{Projection, GroupRecord, ExpenseRecord}
use splittr.Store.OpStore.{OpStore, StoreError}
use splittr.Store.Repository.{Repository, Applied, rejected, append_op, read_projection}
use splittr.App.Clock.{HlcGenerator, next}
use splittr.App.Identity.{Seeds, Identity, root_key, agreement_public}
use splittr.App.Error.{AppError, validation, not_authorized, not_found, root_locked, store_failed}
use splittr.App.Fields.{ExpenseFieldsInput, build_fields}

-- A new expense, where it goes, and whether it is a draft.
pub record ExpenseDraft : Type 0 where
  pub fields : ExpenseFieldsInput
  pub group : Option GroupId
  pub draft : Bool

module _ (crypto : Crypto) (seeds : Seeds crypto) (S : Type 0) ⦃log : OpStore S⦄ where
  pub record App : Type 0 where
    pub identity : Identity crypto seeds
    pub repo : Repository S
    pub clock : HlcGenerator

  abbrev pub Answer : Type 0 → Type 0
  Answer A = App × Result AppError A

  -- `?`: the rest of a command runs if there was no error.
  infixl 5 ◌then?◌
  abbrev pub ◌then?◌ : {A B : Type 0} → Answer A → (App → A → Answer B) → Answer B
  (app, err e) then? rest = (app, err e)
  (app, ok a) then? rest = rest app a

  abbrev pub me : App → UserId
  me app = app.identity.user_id

  -- `self.repo.projection()`, which may fill the memo.
  abbrev pub look : App → App × Projection
  look app = let (repo, p) = read_projection app.repo in (record app { repo = repo }, p)

  -- `match self.repo.append(&op)? { .. }`
  abbrev pub answer_of : Result StoreError Applied → Result AppError (Unit {0})
  answer_of (err e) = err (store_failed e)
  answer_of (ok rejected) = err (validation (utf8 "op failed verification"))
  answer_of (ok _) = ok tt

  -- The clock has advanced when the root turns out to be locked.
  abbrev pub commit_with : Option crypto.SigningKey → ℕ → App → OpKind → Answer (Unit {0})
  commit_with key now app kind =
      let (clock, hlc) = next app.clock now in
      elim key [
        | none ↦ (record app { clock = clock }, err root_locked)
        | some k ↦
            let (repo, applied) = append_op crypto app.repo (signed crypto hlc k kind) in
            (record app { clock = clock; repo = repo }, answer_of applied)
      ]

  -- `commit_signed`
  unfoldable pub commit_signed : ℕ → App → OpKind → Bool → Answer (Unit {0})
  commit_signed now app kind as_root =
      commit_with (if as_root then root_key crypto seeds app.identity else some app.identity.device)
        now app kind

  abbrev pub commit : ℕ → App → OpKind → Answer (Unit {0})
  commit now app kind = commit_signed now app kind false

  abbrev pub commit_as_root : ℕ → App → OpKind → Answer (Unit {0})
  commit_as_root now app kind = commit_signed now app kind true

  -- `require_member`
  abbrev pub member_answer : UserId → GroupId → Option GroupRecord → Result AppError (Unit {0})
  member_answer user group none = err (not_found (utf8 "group " ++ group))
  member_answer user group (some g) =
      if contains user g.members
      then ok tt
      else err (not_authorized (utf8 "not a member of group " ++ group))

  unfoldable pub require_member : App → GroupId → Answer (Unit {0})
  require_member app group =
      let (app', p) = look app in (app', member_answer (me app) group (get group p.groups))

  -- `if let Some(group) = .. { self.require_member(group)?; }`
  abbrev pub require_member_of : App → Option GroupId → Answer (Unit {0})
  require_member_of app none = (app, ok tt)
  require_member_of app (some group) = require_member app group

  -- The group's closed period, or 0.
  abbrev pub closed_until : Projection → Option GroupId → ℤ
  closed_until p none = pos 0
  closed_until p (some group) = elim (get group p.groups) [
    | none ↦ pos 0
    | some g ↦ g.closed_until_ms
  ]

  abbrev pub editable_answer :
      Projection → ExpenseId → Option ExpenseRecord → Result AppError (Unit {0})
  editable_answer p expense none = err (not_found (utf8 "expense " ++ expense))
  editable_answer p expense (some e) =
      if e.locked
      then err (validation (utf8 "expense is locked"))
      else if ltb_ℤ (pos 0) (closed_until p e.group)
          && leb_ℤ e.fields.date_ms (closed_until p e.group)
      then err (validation (utf8 "expense is in a closed period"))
      else ok tt

  unfoldable pub require_editable : App → ExpenseId → Answer (Unit {0})
  require_editable app expense =
      let (app', p) = look app in (app', editable_answer p expense (get expense p.expenses))

  -- A no-op where the root is locked.
  unfoldable pub publish_agreement_key : ℕ → App → Answer (Unit {0})
  publish_agreement_key now app = elim (agreement_public crypto seeds app.identity) [
    | none ↦ (app, ok tt)
    | some key ↦ commit now app (set_agreement_key (me app) key)
  ]

  unfoldable pub set_my_name : (t u : ℕ) → App → Bytes → Answer (Unit {0})
  unfolding publish_agreement_key
  set_my_name t u app name =
      commit t app (upsert_profile (me app) name) then? λ app' _. publish_agreement_key u app'

  -- `add_person`, with the fresh name after "user:".
  unfoldable pub add_person : ℕ → App → (fresh : Bytes) → Bytes → Answer UserId
  add_person now app fresh name =
      let user = utf8 "user:" ++ fresh in
      commit now app (upsert_profile user name) then? λ app' _. (app', ok user)

  unfoldable pub add_alias : ℕ → App → UserId → UserId → Answer (Unit {0})
  add_alias now app alias canonical =
      if same alias canonical
      then (app, err (validation (utf8 "cannot alias an id to itself")))
      else commit now app (OpKind.add_alias alias canonical)

  unfoldable pub claim_person : ℕ → App → UserId → Answer (Unit {0})
  unfolding add_alias
  claim_person now app placeholder = add_alias now app placeholder (me app)

  unfoldable pub merge_people : ℕ → App → (duplicate keep : UserId) → Answer (Unit {0})
  unfolding add_alias
  merge_people now app dup keep = add_alias now app dup keep

  unfoldable pub add_friend : ℕ → App → UserId → Answer (Unit {0})
  add_friend now app other =
      if same other (me app)
      then (app, err (validation (utf8 "cannot befriend yourself")))
      else commit now app (declare_friend other)

  -- A guard and then one op.
  abbrev pub as_member : ℕ → App → GroupId → OpKind → Answer (Unit {0})
  as_member now app group kind = require_member app group then? λ app' _. commit now app' kind

  unfoldable pub rename_group : ℕ → App → GroupId → Bytes → Answer (Unit {0})
  rename_group now app group name = as_member now app group (set_group_name group name)

  unfoldable pub set_group_currency : ℕ → App → GroupId → Bytes → Answer (Unit {0})
  set_group_currency now app group currency =
      as_member now app group (OpKind.set_group_currency group currency)

  unfoldable pub add_member : ℕ → App → GroupId → UserId → Answer (Unit {0})
  add_member now app group user = as_member now app group (set_membership group user true)

  unfoldable pub remove_member : ℕ → App → GroupId → UserId → Answer (Unit {0})
  remove_member now app group user = as_member now app group (set_membership group user false)

  unfoldable pub set_closed_period : ℕ → App → GroupId → ℤ → Answer (Unit {0})
  set_closed_period now app group until_ms =
      as_member now app group (OpKind.set_closed_period group until_ms)

  -- The answer of `build_fields` within a command; `none` is its panic.
  abbrev pub with_fields :
      {A : Type 0} → App → ExpenseFieldsInput → (ExpenseFields → Answer A) → Option (Answer A)
  with_fields app input rest = elim (build_fields input) [
    | none ↦ none
    | some (err e) ↦ some (app, err e)
    | some (ok f) ↦ some (rest f)
  ]

  unfoldable pub add_expense : ℕ → App → (fresh : Bytes) → ExpenseDraft → Option (Answer ExpenseId)
  add_expense now app fresh draft =
      let (app', checked) = require_member_of app draft.group in
      elim checked [
        | err e ↦ some (app', err e)
        | ok _ ↦ with_fields app' draft.fields (λ fields.
            let expense = utf8 "expense:" ++ fresh in
            commit now app' (create_expense expense draft.group fields draft.draft) then? λ app'' _.
            (app'', ok expense))
      ]

  unfoldable pub edit_expense :
      ℕ → App → ExpenseId → ExpenseFieldsInput → Option (Answer (Unit {0}))
  edit_expense now app expense input =
      let (app', checked) = require_editable app expense in
      elim checked [
        | err e ↦ some (app', err e)
        | ok _ ↦
            with_fields app' input (λ fields. commit now app' (OpKind.edit_expense expense fields))
      ]

  unfoldable pub delete_expense : ℕ → App → ExpenseId → Answer (Unit {0})
  delete_expense now app expense =
      require_editable app expense then? λ app' _. commit now app' (void_expense expense)

  unfoldable pub publish_expense : ℕ → App → ExpenseId → Answer (Unit {0})
  publish_expense now app expense =
      let (app', p) = look app in
      if contains_key expense p.expenses
      then commit now app' (OpKind.publish_expense expense)
      else (app', err (not_found (utf8 "expense " ++ expense)))

  unfoldable pub set_expense_lock : ℕ → App → ExpenseId → Bool → Answer (Unit {0})
  set_expense_lock now app expense locked =
      let (app', p) = look app in
      elim (get expense p.expenses) [
        | none ↦ (app', err (not_found (utf8 "expense " ++ expense)))
        | some e ↦ require_member_of app' e.group then? λ app'' _.
            commit now app'' (OpKind.set_expense_lock expense locked)
      ]

  unfoldable pub create_settlement :
      ℕ → App → (fresh : Bytes) → Option GroupId → (from to : UserId) → Cents → Answer SettlementId
  create_settlement now app fresh group from to amount = require_member_of app group then? λ app' _.
      let (app'', p) = look app' in
      if same (get_or from from p.aliases) (get_or to to p.aliases)
      then (app'', err (validation (utf8 "payer and payee must differ")))
      else if leb_ℤ amount (pos 0)
      then (app'', err (validation (utf8 "amount must be positive")))
      else (let settlement = utf8 "settlement:" ++ fresh in
          commit now app'' (record_settlement settlement group from to amount) then? λ app''' _.
          (app''', ok settlement))

  unfoldable pub delete_settlement : ℕ → App → SettlementId → Answer (Unit {0})
  delete_settlement now app settlement = commit now app (void_settlement settlement)

  unfoldable pub authorize_device : ℕ → App → PublicKey → ℕ → Answer (Unit {0})
  authorize_device now app device site =
      commit_as_root now app (OpKind.authorize_device app.identity.identity_pub device site)

  unfoldable pub revoke_device : ℕ → App → PublicKey → Answer (Unit {0})
  revoke_device now app device =
      commit_as_root now app (OpKind.revoke_device app.identity.identity_pub device)
