-- ===== src/Domain/Expense.antt =====
-- splittr-domain/src/expense.rs: the versioned fields of an expense.
pub mod Balanced
use splittr.Prelude.{
  Bool, true, false, Option, none, some, List, [], ◌∷◌, map, if◌then◌else◌, ◌>>=◌,
}
use splittr.Prelude.Int.{ℤ, pos, int_ord}
use splittr.Prelude.Ord.{Bytes, same, bytes_ord}
use splittr.Prelude.Text.{utf8}
use splittr.BTree.{BTreeMap, insert, values}
use splittr.Domain.Ids.{UserId}
use splittr.Domain.Money.{Cents, fold_add}
use splittr.Domain.Currency.{OriginalAmount}
use splittr.Domain.Split.{Split, owed_amounts}

pub record ExpenseFields : Type 0 where
  pub description : Bytes
  pub paid_by : BTreeMap UserId Cents
  pub total : Cents
  pub splits : List Split
  pub date_ms : ℤ
  pub category : Bytes
  pub notes : Option Bytes
  pub original : Option OriginalAmount

-- `ExpenseFields::new`
abbrev pub new_fields : BTreeMap UserId Cents → Cents → List Split → ExpenseFields
new_fields paid_by total splits = record {
  description = [];
  paid_by = paid_by;
  total = total;
  splits = splits;
  date_ms = pos 0;
  category = utf8 "general";
  notes = none;
  original = none;
}

unfoldable pub single_payer : UserId → Cents → List Split → ExpenseFields
unfolding insert
single_payer payer total splits = new_fields (insert payer total []) total splits

unfoldable pub total_paid : ExpenseFields → Option Cents
unfolding fold_add
total_paid f = fold_add (pos 0) (values f.paid_by)

unfoldable pub total_owed : ExpenseFields → Option Cents
unfolding fold_add
total_owed f = fold_add (pos 0) (owed_amounts f.splits)

-- The second test is made only if the first holds.
unfoldable pub is_balanced : ExpenseFields → Option Bool
unfolding total_paid total_owed
is_balanced f = total_paid f >>= λ paid.
    if same paid f.total then (total_owed f >>= λ owed. some (same owed f.total)) else some false
