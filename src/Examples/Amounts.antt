-- ===== src/Examples/Amounts.antt =====
-- Runs of the domain and of the balances.
use splittr.Prelude.{◌<◌, ◌≤◌, ◌^◌, ◌-◌, true, none, some, List, [], ◌∷◌, ◌≡◌, refl, arith, ok}
use splittr.Prelude.Int.{
  pos, negsuc, pos_part, neg_part, neg_ℤ, div_euclid, ◌+ℤ◌, ◌-ℤ◌, ◌*ℤ◌, ◌<ℤ◌, wrap,
}
use splittr.Prelude.Ord.{cmp_bytes, bytes_ord}
use splittr.Prelude.Lists.{length, get_elem?}
use splittr.Prelude.Folds.{All}
use splittr.Prelude.Text.{utf8}
use splittr.BTree.{BTreeMap, get_or, values}
use splittr.BTree.Sorted.{IsSorted}
use splittr.Domain.Ids.{UserId}
use splittr.Domain.Money.{Cents, fold_add, add}
use splittr.Domain.Money.Laws.{sum}
use splittr.Domain.Split.{
  Split, equal, weighted, owed_amounts, split_equal, equal_shares, split_by_weights, compute,
}
use splittr.Domain.Split.Equal.{split_equal-sum, IsNear}
use splittr.Domain.Split.Plan.{compute-ok}
use splittr.Domain.Split.Fair.{IsFair, split_by_weights-IsFair}
use splittr.Domain.Expense.{ExpenseFields, is_balanced, total_paid, total_owed}
use splittr.Domain.Expense.Balanced.{is_balanced-sums}
use splittr.Domain.Debt.{Transfer, simplify_debts}
use splittr.Domain.Debt.Settle.{paid_by_user, received_by, total_moved}
use splittr.Domain.Debt.Balances.{
  IsLedger, IsNegatable, simplify_debts-settles, simplify_debts-few, total_debit, nonzero,
}
use splittr.Crdt.Balance.{Net, net_balances, settle_up}
use splittr.Crdt.Balance.Posting.{posted, posted_in_all, volume}
use splittr.Crdt.Balance.Exact.{postings, net_balances-exact, settle_up-settles}
use splittr.App.Fields.{
  ExpenseFieldsInput, wrapping_sum, build_fields, build_fields-IsAccepted, IsAccepted, fields_of,
}
use splittr.Examples.Data.{alice, bob, dinner, shared}

split_equal-sum_example :
    (sum (owed_amounts (split_equal (pos 1000) (alice ∷ bob ∷ alice ∷ []))) ≡ pos 1000)
    × All (IsNear (div_euclid (pos 1000) 3)) (split_equal (pos 1000) (alice ∷ bob ∷ alice ∷ []))
split_equal-sum_example =
    split_equal-sum (pos 1000) alice (bob ∷ alice ∷ []) (omega arith, omega arith) (omega arith)

-- Ten euros by weights 1 and 2: Bob's share is 666 cents, or 667.
split_by_weights-IsFair_example :
    (splits : List Split) × (split_by_weights (pos 1000) ((alice, 1) ∷ (bob, 2) ∷ []) ≡ ok splits)
    × (s : Split) × (get_elem? splits 1 ≡ some s)
    × IsFair 1000 3 bob 2 s
split_by_weights-IsFair_example =
    split_by_weights-IsFair 1000 (alice, 1) ((bob, 2) ∷ []) (omega arith)
      (omega arith, (omega arith, tt)) (omega arith) (omega arith) 1 bob 2 refl

compute-ok_example :
    (splits : List Split) × (compute (weighted ((alice, 1) ∷ (bob, 2) ∷ [])) (pos 1000)
      ≡ some (ok splits))
    × (sum (owed_amounts splits) ≡ pos 1000)
compute-ok_example =
    compute-ok (weighted ((alice, 1) ∷ (bob, 2) ∷ [])) 1000 (omega arith)
      ((omega arith, (omega arith, tt)), omega arith, omega arith)

abbrev due : BTreeMap UserId Cents
due = (alice, pos 300) ∷ (bob, negsuc 299) ∷ []

due-IsLedger : IsLedger due
unfolding ◌+ℤ◌ cmp_bytes
due-IsLedger = record {
  sorted = ((refl, tt), (tt, tt));
  in_range = ((omega arith, omega arith), ((omega arith, omega arith), tt));
  zero_sum = refl;
}

simplify_debts-settles_example :
    (paid_by_user bob (simplify_debts due) ≡ neg_part (get_or bob (pos 0) due))
    × (received_by bob (simplify_debts due) ≡ pos_part (get_or bob (pos 0) due))
    × (total_moved (simplify_debts due) ≡ total_debit due)
simplify_debts-settles_example = simplify_debts-settles due due-IsLedger bob

simplify_debts-few_example :
    (length (simplify_debts due) ≤ nonzero due - 1)
    × All (λ t. 0 < pos_part t.amount) (simplify_debts due)
simplify_debts-few_example = simplify_debts-few due due-IsLedger

dinner-balanced : is_balanced dinner ≡ some true
unfolding is_balanced total_paid total_owed fold_add add ◌+ℤ◌
dinner-balanced = refl

is_balanced-sums_example :
    (sum (values dinner.paid_by) ≡ dinner.total) × (sum (owed_amounts dinner.splits) ≡ dinner.total)
is_balanced-sums_example = is_balanced-sums dinner dinner-balanced

small : volume (postings shared) < 2 ^ 63
unfolding neg_ℤ
small = omega arith

net_balances-exact_example :
    (net : Net) × (net_balances shared ≡ some net)
    × ((q : UserId) → get_or q (pos 0) net ≡ posted q (postings shared))
    × (sum (values net) ≡ posted_in_all (postings shared))
    × IsSorted net
    × All IsNegatable net
net_balances-exact_example = net_balances-exact shared small

settle_up-settles_example :
    (ts : List Transfer) × (settle_up shared ≡ some ts)
    × ((q : UserId)
        → (paid_by_user q ts ≡ neg_part (posted q (postings shared)))
          × (received_by q ts ≡ pos_part (posted q (postings shared))))
settle_up-settles_example = settle_up-settles shared ((λ _. dinner-balanced), tt) small

abbrev typed : ExpenseFieldsInput
typed = record {
  description = utf8 "Dinner";
  paid_by = (alice, pos 1000) ∷ [];
  total = pos 1000;
  split = equal (alice ∷ bob ∷ []);
  category = utf8 "food";
  notes = some (utf8 "late");
  date_ms = pos 5;
  original = none;
}

abbrev built : ExpenseFields
built =
    fields_of typed
      (record { user = alice; owed = pos 500 } ∷ record { user = bob; owed = pos 500 } ∷ [])

typed-built : build_fields typed ≡ some (ok built)
unfolding build_fields wrapping_sum wrap ◌+ℤ◌ compute is_balanced add split_equal equal_shares ◌-ℤ◌
    ◌*ℤ◌
typed-built = refl

build_fields-IsAccepted_example : (pos 0 <ℤ pos 1000) × IsAccepted typed built
build_fields-IsAccepted_example = build_fields-IsAccepted typed built typed-built
