-- ===== src/Domain/Expense/Balanced.antt =====
-- The test `is_balanced` of an expense's fields (splittr-domain/src/expense.rs) against exact sums.
use splittr.Prelude.{
  true, false, Option, none, some, ◌≡◌, sym, ◌∙◌, arith, if◌then◌else◌, ◌>>=◌, >>=-eq-some,
}
use splittr.Prelude.Int.{ℤ, pos, ◌+ℤ◌, eq_of_int, int_ord, int_laws}
use splittr.Prelude.Ord.{same}
use splittr.BTree.{values}
use splittr.Domain.Money.Laws.{sum, fold_add-eq-some}
use splittr.Domain.Split.{owed_amounts}
use splittr.Domain.Expense.{ExpenseFields, total_paid, total_owed, is_balanced}

zero_first : (v : ℤ) → pos 0 +ℤ v ≡ v
zero_first v = omega int_laws

paid-eq-some : (f : ExpenseFields) (c : ℤ) → total_paid f ≡ some c → c ≡ sum (values f.paid_by)
unfolding total_paid
paid-eq-some f c h =
    fold_add-eq-some (pos 0) (values f.paid_by) c h ∙ zero_first (sum (values f.paid_by))

owed-eq-some : (f : ExpenseFields) (c : ℤ) → total_owed f ≡ some c → c ≡ sum (owed_amounts f.splits)
unfolding total_owed
owed-eq-some f c h =
    fold_add-eq-some (pos 0) (owed_amounts f.splits) c h ∙ zero_first (sum (owed_amounts f.splits))

-- Fields that pass the test have payments and shares that both sum, exactly, to the total.
pub is_balanced-sums :
    (f : ExpenseFields)
    → is_balanced f ≡ some true
    → (sum (values f.paid_by) ≡ f.total) × (sum (owed_amounts f.splits) ≡ f.total)
unfolding is_balanced
is_balanced-sums f h =
    let (paid, e, rest) =
      >>=-eq-some (total_paid f)
        (λ (paid : ℤ).
          if same paid f.total
          then (total_owed f >>= λ owed. some (same owed f.total))
          else some false)
        h in
    let facts = split_owed paid rest in
    (sym (paid-eq-some f paid e) ∙ facts.0, sym (owed-eq-some f f.total facts.1))
  where
    owed_test :
        (o : Option ℤ) → (o >>= λ owed. some (same owed f.total)) ≡ some true → o ≡ some f.total
    owed_test none e = ground arith
    owed_test (some owed) e = ground (arith, eq_of_int owed f.total)

    split_owed :
        (paid : ℤ)
        → (if same paid f.total
            then (total_owed f >>= λ owed. some (same owed f.total))
            else some false)
          ≡ some true
        → (paid ≡ f.total) × (total_owed f ≡ some f.total)
    split_owed paid e = ground (arith, eq_of_int paid f.total, owed_test (total_owed f))
