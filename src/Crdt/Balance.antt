-- ===== src/Crdt/Balance.antt =====
-- splittr-crdt/src/balance.rs: balances and settle-up suggestions from a projection. `none` is a
-- panic of `Cents` arithmetic on overflow.
pub mod Posting
pub mod Exact
pub mod ByGroup
use splittr.Prelude.{
  Bool, true, false, Option, none, some, [], ◌∷◌, List, if◌then◌else◌, ◌>>=◌, not,
}
use splittr.Prelude.Ord.{Bytes, same, bytes_ord, cmp_bytes}
use splittr.Prelude.Int.{ℤ, pos}
use splittr.BTree.{BTreeMap, get, get_or, insert, retain, values}
use splittr.Domain.Ids.{UserId, GroupId}
use splittr.Domain.Money.{Cents, add, sub, is_zero}
use splittr.Domain.Split.{Split}
use splittr.Domain.Expense.{ExpenseFields}
use splittr.Domain.Debt.{Transfer, simplify_debts}
use splittr.Crdt.Authorize.Alias.{Aliases, resolve}
use splittr.Crdt.Projection.{ExpenseRecord, SettlementRecord, Projection, for_group}

abbrev pub Net : Type 0
Net = BTreeMap UserId Cents

-- `*net.entry(k).or_default() += c`, at any key.
unfoldable pub entry_add : Bytes → Cents → BTreeMap Bytes Cents → Option (BTreeMap Bytes Cents)
entry_add k c net = add (get_or k (pos 0) net) c >>= λ v. some (insert k v net)

-- `*net.entry(k).or_default() -= c`
unfoldable pub entry_sub : Bytes → Cents → BTreeMap Bytes Cents → Option (BTreeMap Bytes Cents)
entry_sub k c net = sub (get_or k (pos 0) net) c >>= λ v. some (insert k v net)

-- A loop whose body may panic.
abbrev pub for_each : {A S : Type 0} → (S → A → Option S) → List A → S → Option S
for_each body [] s = some s
for_each body (x ∷ xs) s = body s x >>= λ s'. for_each body xs s'

abbrev pub nonzero_only : BTreeMap Bytes Cents → BTreeMap Bytes Cents
nonzero_only net = retain (λ _ c. not (is_zero c)) net

module _ (aliases : Aliases) where
  unfoldable pub add_payer : Net → UserId × Cents → Option Net
  add_payer net (payer, paid) = entry_add (resolve aliases payer) paid net

  unfoldable pub sub_split : Net → Split → Option Net
  sub_split net s = entry_sub (resolve aliases s.user) s.owed net

  -- The two loops over the payers and the splits of one expense.
  unfoldable pub net_of_fields : ExpenseFields → Net → Option Net
  net_of_fields fields net =
      for_each add_payer fields.paid_by net >>= λ net'. for_each sub_split fields.splits net'

  -- Drafts don't affect balances.
  unfoldable pub net_expense : Net → ExpenseRecord → Option Net
  net_expense net e = if e.published then net_of_fields e.fields net else some net

  unfoldable pub net_settlement : Net → SettlementRecord → Option Net
  net_settlement net s = entry_add (resolve aliases s.from) s.amount net >>= λ net'.
      entry_sub (resolve aliases s.to) s.amount net'

unfoldable pub net_balances : Projection → Option Net
net_balances p = for_each (net_expense p.aliases) (values p.expenses) [] >>= λ net.
    for_each (net_settlement p.aliases) (values p.settlements) net >>= λ net'.
    some (nonzero_only net')

unfoldable pub settle_up : Projection → Option (List Transfer)
settle_up p = net_balances p >>= λ net. some (simplify_debts net)

-- The parts of `my_net_by_group`: what one expense is to `me`.
module _ (aliases : Aliases) (me : UserId) where
  unfoldable pub delta_payer : Cents → UserId × Cents → Option Cents
  delta_payer delta (payer, paid) =
      if same (resolve aliases payer) me then add delta paid else some delta

  unfoldable pub delta_split : Cents → Split → Option Cents
  delta_split delta s = if same (resolve aliases s.user) me then sub delta s.owed else some delta

  unfoldable pub delta_of : ExpenseFields → Option Cents
  delta_of fields = for_each delta_payer fields.paid_by (pos 0) >>= λ delta.
      for_each delta_split fields.splits delta

  -- `continue` where the expense has no group or is a draft.
  unfoldable pub group_expense :
      BTreeMap GroupId Cents → ExpenseRecord → Option (BTreeMap GroupId Cents)
  group_expense out e = elim e.group [
    | none ↦ some out
    | some group ↦
        if e.published
        then (delta_of e.fields >>= λ delta.
            if is_zero delta then some out else entry_add group delta out)
        else some out
  ]

  unfoldable pub group_settlement :
      BTreeMap GroupId Cents → SettlementRecord → Option (BTreeMap GroupId Cents)
  group_settlement out s = elim s.group [
    | none ↦ some out
    | some group ↦
        if same (resolve aliases s.from) me
        then entry_add group s.amount out
        else if same (resolve aliases s.to) me
        then entry_sub group s.amount out
        else some out
  ]

unfoldable pub my_net_by_group : Projection → UserId → Option (BTreeMap GroupId Cents)
my_net_by_group p user =
    let me = resolve p.aliases user in
    for_each (group_expense p.aliases me) (values p.expenses) [] >>= λ out.
    for_each (group_settlement p.aliases me) (values p.settlements) out >>= λ out'.
    some (nonzero_only out')

-- The parts of `pairwise_with`.
module _ (aliases : Aliases) (me : UserId) where
  unfoldable pub pair_transfer : Net → Transfer → Option Net
  pair_transfer owed t =
      if same t.to me
      then entry_add t.from t.amount owed
      else if same t.from me
      then entry_sub t.to t.amount owed
      else some owed

  unfoldable pub pair_expense : Net → ExpenseRecord → Option Net
  pair_expense owed e =
      if e.published
      then (net_of_fields aliases e.fields [] >>= λ net.
          for_each pair_transfer (simplify_debts (nonzero_only net)) owed)
      else some owed

  -- Someone who paid `me` owes `me` less; whom `me` paid owes `me` more.
  unfoldable pub pair_settlement : Net → SettlementRecord → Option Net
  pair_settlement owed s =
      if same (resolve aliases s.to) me
      then entry_sub (resolve aliases s.from) s.amount owed
      else if same (resolve aliases s.from) me
      then entry_add (resolve aliases s.to) s.amount owed
      else some owed

unfoldable pub pairwise_with : Projection → UserId → Option Net
pairwise_with p user =
    let me = resolve p.aliases user in
    for_each (pair_expense p.aliases me) (values p.expenses) [] >>= λ owed.
    for_each (pair_settlement p.aliases me) (values p.settlements) owed >>= λ owed'.
    some (nonzero_only owed')
