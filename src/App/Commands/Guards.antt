-- ===== src/App/Commands/Guards.antt =====
-- What the guards of the commands (splittr-app/src/app.rs) keep out of the log.
use splittr.Prelude.{
  ℕ, Bool, true, false, Option, none, some, Result, ok, err, ◌≡◌, ◌⊎◌, inl, inr, refl, arith,
  if◌then◌else◌, ◌++◌,
}
use splittr.Prelude.Int.{ℤ, pos, ◌≤ℤ◌, ◌<ℤ◌, leb_ℤ}
use splittr.Prelude.Ord.{same, bytes_ord, Bytes}
use splittr.Prelude.Text.{utf8}
use splittr.BTree.{get, get_or}
use splittr.Domain.Ids.{UserId, GroupId, ExpenseId, SettlementId}
use splittr.Domain.Money.{Cents}
use splittr.Crdt.Op.{Crypto, void_expense, record_settlement, OpKind}
use splittr.Crdt.Projection.{Projection, ExpenseRecord, GroupRecord}
use splittr.Store.OpStore.{OpStore}
use splittr.App.Error.{AppError, validation}
use splittr.App.Fields.{ExpenseFieldsInput}
use splittr.App.Identity.{Seeds}
use splittr.App.Commands.{
  App, Answer, ◌then?◌, look, closed_until, editable_answer, require_editable, require_member_of,
  commit, edit_expense, delete_expense, create_settlement, with_fields,
}

module _ (crypto : Crypto) (seeds : Seeds crypto) (S : Type 0) ⦃log : OpStore S⦄ where
  -- The date is after what a group has closed, if it has closed anything.
  abbrev pub IsPast : GroupRecord → ℤ → Type 0
  IsPast g date_ms = (g.closed_until_ms ≤ℤ pos 0) ⊎ (g.closed_until_ms <ℤ date_ms)

  abbrev pub IsOpenIn : Option GroupRecord → ℤ → Type 0
  IsOpenIn none date_ms = Unit
  IsOpenIn (some g) date_ms = IsPast g date_ms

  -- The date is open in the group, where the read model has one.
  abbrev pub IsOpen : Projection → Option GroupId → ℤ → Type 0
  IsOpen p none date_ms = Unit
  IsOpen p (some group) date_ms = IsOpenIn (get group p.groups) date_ms

  -- The expense is there, not locked, and not dated within the closed period of its group.
  abbrev pub IsEditable : Projection → ExpenseId → Type 0
  IsEditable p expense =
      (e : ExpenseRecord) × (get expense p.expenses ≡ some e)
      × (e.locked ≡ false)
      × IsOpen p e.group e.fields.date_ms

  -- The code's test of the closed period keeps to the record of the group.
  closed_until-IsOpen :
      (p : Projection) (group : Option GroupId) (date_ms : ℤ)
      → (closed_until crypto seeds S p group ≤ℤ pos 0)
        ⊎ (closed_until crypto seeds S p group <ℤ date_ms)
      → IsOpen p group date_ms
  closed_until-IsOpen p none date_ms h = tt
  closed_until-IsOpen p (some group) date_ms h = on_group (get group p.groups) h
    where
      on_group :
          (o : Option GroupRecord)
          → (elim o as (λ _. ℤ) [ none ↦ pos 0 | some g ↦ g.closed_until_ms ] ≤ℤ pos 0)
            ⊎ (elim o as (λ _. ℤ) [ none ↦ pos 0 | some g ↦ g.closed_until_ms ] <ℤ date_ms)
          → IsOpenIn o date_ms
      on_group none h = tt
      on_group (some g) h = h

  editable_answer-IsEditable :
      (p : Projection) (expense : ExpenseId) (o : Option ExpenseRecord)
      → get expense p.expenses ≡ o
      → editable_answer crypto seeds S p expense o ≡ ok tt
      → IsEditable p expense
  editable_answer-IsEditable p expense none found h = cc
  editable_answer-IsEditable p expense (some e) found h =
      let c = closed_until crypto seeds S p e.group in
      (e, found, ground arith, closed_until-IsOpen p e.group e.fields.date_ms (ground arith))

  edit_expense-IsEditable :
      (now : ℕ) (app after : App crypto seeds S) (expense : ExpenseId) (input : ExpenseFieldsInput)
      → edit_expense crypto seeds S now app expense input ≡ some (after, ok tt)
      → IsEditable (look crypto seeds S app).1 expense
  unfolding edit_expense require_editable
  edit_expense-IsEditable now app after expense input h =
      on_answer (editable_answer crypto seeds S p expense (get expense p.expenses)) refl h
    where
      p : Projection
      p = (look crypto seeds S app).1

      app' : App crypto seeds S
      app' = (look crypto seeds S app).0

      on_answer :
          (r : Result AppError (Unit {0}))
          → editable_answer crypto seeds S p expense (get expense p.expenses) ≡ r
          → elim r [
            | err e ↦ some (app', err e)
            | ok _ ↦
                with_fields crypto seeds S app' input
                  (λ fields. commit crypto seeds S now app' (OpKind.edit_expense expense fields))
          ]
            ≡ some (after, ok tt)
          → IsEditable p expense
      on_answer (err e) checked h = cc
      on_answer (ok _) checked h =
          editable_answer-IsEditable p expense (get expense p.expenses) refl checked

  delete_expense-IsEditable :
      (now : ℕ) (app after : App crypto seeds S) (expense : ExpenseId)
      → delete_expense crypto seeds S now app expense ≡ (after, ok tt)
      → IsEditable (look crypto seeds S app).1 expense
  unfolding delete_expense require_editable
  delete_expense-IsEditable now app after expense h =
      on_answer (editable_answer crypto seeds S p expense (get expense p.expenses)) refl h
    where
      p : Projection
      p = (look crypto seeds S app).1

      app' : App crypto seeds S
      app' = (look crypto seeds S app).0

      on_answer :
          (r : Result AppError (Unit {0}))
          → editable_answer crypto seeds S p expense (get expense p.expenses) ≡ r
          → ◌then?◌ crypto seeds S
              (app', r)
              (λ app' _. commit crypto seeds S now app' (void_expense expense))
            ≡ (after, ok tt)
          → IsEditable p expense
      on_answer (err e) checked h = cc
      on_answer (ok _) checked h =
          editable_answer-IsEditable p expense (get expense p.expenses) refl checked

  -- An edit or a deletion that is answered with success was of an expense that was there, not
  -- locked, and dated after the period that the record of its group has closed, if it has closed
  -- one.
  pub changed-IsEditable :
      (now : ℕ) (app after : App crypto seeds S) (expense : ExpenseId) (input : ExpenseFieldsInput)
      → (edit_expense crypto seeds S now app expense input ≡ some (after, ok tt))
        ⊎ (delete_expense crypto seeds S now app expense ≡ (after, ok tt))
      → IsEditable (look crypto seeds S app).1 expense
  changed-IsEditable now app after expense input (inl edited) =
      edit_expense-IsEditable now app after expense input edited
  changed-IsEditable now app after expense input (inr deleted) =
      delete_expense-IsEditable now app after expense deleted

  passed :
      (b low : Bool) (e f : AppError) (app after : App crypto seeds S)
      (rest : Answer crypto seeds S SettlementId) (id : SettlementId)
      → (if b then (app, err e) else if low then (app, err f) else rest) ≡ (after, ok id)
      → (b ≡ false) × (low ≡ false)
  passed true low e f app after rest id h = cc
  passed false true e f app after rest id h = cc
  passed false false e f app after rest id h = (refl, refl)

  -- The application and the read model that `create_settlement` tests its parties against.
  abbrev pub tested : App crypto seeds S → Option GroupId → App crypto seeds S × Projection
  tested app group = look crypto seeds S (require_member_of crypto seeds S app group).0

  -- A settlement that was recorded with success is of a positive amount and between two ids that
  -- stand for different users, whatever aliases there are at the time.
  pub create_settlement-distinct :
      (now : ℕ) (app after : App crypto seeds S) (fresh : Bytes) (group : Option GroupId)
      (from to : UserId) (amount : Cents) (id : SettlementId)
      → create_settlement crypto seeds S now app fresh group from to amount ≡ (after, ok id)
      → (same
            (get_or from from (tested app group).1.aliases)
            (get_or to to (tested app group).1.aliases)
          ≡ false)
        × (pos 0 <ℤ amount)
  unfolding create_settlement
  create_settlement-distinct now app after fresh group from to amount id h =
      on_member (require_member_of crypto seeds S app group) h
    where
      same_user : Projection → Bool
      same_user p = same (get_or from from p.aliases) (get_or to to p.aliases)

      body : App crypto seeds S → Unit {0} → Answer crypto seeds S SettlementId
      body app' _ =
          let (app'', p) = look crypto seeds S app' in
          if same_user p
          then (app'', err (validation (utf8 "payer and payee must differ")))
          else if leb_ℤ amount (pos 0)
          then (app'', err (validation (utf8 "amount must be positive")))
          else (let settlement = utf8 "settlement:" ++ fresh in
              ◌then?◌ crypto seeds S
                (commit crypto seeds S now app''
                  (record_settlement settlement group from to amount))
                (λ last _. (last, ok settlement)))

      on_member :
          (m : Answer crypto seeds S (Unit {0}))
          → ◌then?◌ crypto seeds S m body ≡ (after, ok id)
          → (same_user (look crypto seeds S m.0).1 ≡ false) × (pos 0 <ℤ amount)
      on_member (app', err e) h = cc
      on_member (app', ok _) h =
          let (differ, high) =
            passed (same_user (look crypto seeds S app').1) (leb_ℤ amount (pos 0)) _ _ _ after _ id
              h in
          (differ, ground arith)
