-- ===== src/Domain/Debt.antt =====
-- splittr-domain/src/debt.rs: the suggested payments that settle a set of balances.
pub mod Settle
pub mod Balances
use splittr.Prelude.{
  ℕ, zero, suc, ◌+◌, ◌^◌, Bool, true, false, List, [], ◌∷◌, if◌then◌else◌, Ordering,
}
use splittr.Prelude.Int.{ℤ, pos, ◌-ℤ◌, neg_ℤ, cmp_ℤ, ltb_ℤ, leb_ℤ, is_zero_ℤ, wrap_i64}
use splittr.Prelude.Ord.{then_with, cmp_bytes}
use splittr.Prelude.Lists.{length, sort_by}
use splittr.BTree.{BTreeMap}
use splittr.Domain.Ids.{UserId}
use splittr.Domain.Money.{Cents}

pub record Transfer : Type 0 where
  pub from : UserId
  pub to : UserId
  pub amount : Cents

abbrev pub by_amount_desc : UserId × ℤ → UserId × ℤ → Ordering
by_amount_desc a b = then_with (cmp_ℤ b.1 a.1) (cmp_bytes a.0 b.0)

unfoldable pub creditors_of : BTreeMap UserId Cents → List (UserId × ℤ)
creditors_of [] = []
creditors_of ((u, c) ∷ m) = if ltb_ℤ (pos 0) c then (u, c) ∷ creditors_of m else creditors_of m

unfoldable pub debtors_of : BTreeMap UserId Cents → List (UserId × ℤ)
debtors_of [] = []
debtors_of ((u, c) ∷ m) =
    if ltb_ℤ c (pos 0) then (u, wrap_i64 (neg_ℤ c)) ∷ debtors_of m else debtors_of m

-- `a.min(b)`
abbrev pub min_ℤ : ℤ → ℤ → ℤ
min_ℤ a b = if leb_ℤ a b then a else b

-- What is left of the list from an index on, once `pay` is taken from its first amount.
abbrev pub advance : UserId → ℤ → List (UserId × ℤ) → List (UserId × ℤ)
advance u left rest = if is_zero_ℤ left then rest else (u, left) ∷ rest

-- The `while`, over `debtors[d..]` and `creditors[c..]`. Each round moves an index, so the lengths
-- together are fuel enough.
unfoldable pub settle : ℕ → List (UserId × ℤ) → List (UserId × ℤ) → List Transfer
settle zero ds cs = []
settle (suc fuel) [] cs = []
settle (suc fuel) (d ∷ ds) [] = []
settle (suc fuel) ((u, a) ∷ ds) ((v, b) ∷ cs) =
    let pay = min_ℤ a b in
    let rest =
      settle fuel (advance u (wrap_i64 (a -ℤ pay)) ds) (advance v (wrap_i64 (b -ℤ pay)) cs) in
    if ltb_ℤ (pos 0) pay then record { from = u; to = v; amount = pay } ∷ rest else rest

unfoldable pub simplify_debts : BTreeMap UserId Cents → List Transfer
unfolding creditors_of debtors_of settle sort_by cmp_bytes
simplify_debts balances =
    let creditors = sort_by by_amount_desc (creditors_of balances) in
    let debtors = sort_by by_amount_desc (debtors_of balances) in
    settle (length debtors + length creditors) debtors creditors
