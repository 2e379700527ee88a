-- ===== src/Domain/Debt/Balances.antt =====
-- `simplify_debts` (splittr-domain/src/debt.rs) on a whole map of balances.
use splittr.Prelude.{
  ℕ, zero, suc, ◌+◌, ◌-◌, ◌^◌, ◌≤◌, ◌<◌, ◌≡◌, refl, ◌∙◌, List, [], ◌∷◌, arith, Ordering,
}
use Prim.Native.Nat.{min}
use splittr.Prelude.Int.{ℤ, pos, negsuc, pos_part, neg_part, neg_ℤ, wrap_i64, wrap, int_laws}
use splittr.Prelude.Ord.{bytes_ord, eq_of_bytes}
use splittr.Prelude.Lists.{length, sort_by, insert_by, length-sort_by, All-sort_by}
use splittr.Prelude.Folds.{All}
use splittr.BTree.{BTreeMap, get, get_or, values}
use splittr.BTree.Sorted.{IsSorted, Above, get-Above, Above-trans}
use splittr.Domain.Ids.{UserId}
use splittr.Domain.Money.{Cents}
use splittr.Domain.Money.Laws.{sum}
use splittr.Domain.Debt.{creditors_of, debtors_of, simplify_debts, by_amount_desc}
use splittr.Domain.Debt.Settle.{
  IsDue, total_due, due_of, paid_by_user, received_by, total_moved, settle-exact, settle-length,
  settle-positive,
}

module _ (cmp : UserId × ℤ → UserId × ℤ → Ordering) where
  due_of-insert_by :
      (q : UserId) (x : UserId × ℤ) (l : List (UserId × ℤ))
      → due_of q (insert_by cmp x l) ≡ due_of q (x ∷ l)
  unfolding insert_by
  due_of-insert_by q x [] = refl
  due_of-insert_by q x (y ∷ l) = ground (arith, due_of-insert_by q x l)

  due_of-sort_by : (q : UserId) (l : List (UserId × ℤ)) → due_of q (sort_by cmp l) ≡ due_of q l
  unfolding sort_by
  due_of-sort_by q [] = refl
  due_of-sort_by q (x ∷ l) =
      ground (arith, due_of-insert_by q x (sort_by cmp l), due_of-sort_by q l)

  total_due-insert_by :
      (x : UserId × ℤ) (l : List (UserId × ℤ)) → total_due (insert_by cmp x l) ≡ total_due (x ∷ l)
  unfolding insert_by
  total_due-insert_by x [] = refl
  total_due-insert_by x (y ∷ l) = ground (arith, total_due-insert_by x l)

  total_due-sort_by : (l : List (UserId × ℤ)) → total_due (sort_by cmp l) ≡ total_due l
  unfolding sort_by
  total_due-sort_by [] = refl
  total_due-sort_by (x ∷ l) =
      ground (arith, total_due-insert_by x (sort_by cmp l), total_due-sort_by l)

-- Every balance and its negation is in the range of an `i64`.
abbrev pub IsNegatable : UserId × ℤ → Type 0
IsNegatable (_, z) = (pos_part z < 2 ^ 63) × (neg_part z < 2 ^ 63)

abbrev pub total_credit : BTreeMap UserId Cents → ℕ
total_credit [] = 0
total_credit ((_, z) ∷ m) = pos_part z + total_credit m

abbrev pub total_debit : BTreeMap UserId Cents → ℕ
total_debit [] = 0
total_debit ((_, z) ∷ m) = neg_part z + total_debit m

-- How many members have a balance that is not zero.
abbrev pub nonzero : BTreeMap UserId Cents → ℕ
nonzero [] = 0
nonzero ((_, pos n) ∷ m) = min n 1 + nonzero m
nonzero ((_, negsuc _) ∷ m) = suc (nonzero m)

negated : (n : ℕ) → suc n < 2 ^ 63 → wrap_i64 (neg_ℤ (negsuc n)) ≡ pos (suc n)
unfolding wrap neg_ℤ
negated n h = ground arith

sum-values :
    (m : BTreeMap UserId Cents)
    → pos_part (sum (values m)) + total_debit m ≡ neg_part (sum (values m)) + total_credit m
sum-values [] = refl
sum-values ((u, z) ∷ m) = omega (int_laws, sum-values m)

creditors_of-facts :
    (m : BTreeMap UserId Cents)
    → All IsNegatable m
    → All IsDue (creditors_of m) × (total_due (creditors_of m) ≡ total_credit m)
unfolding creditors_of
creditors_of-facts [] h = (tt, refl)
creditors_of-facts ((u, pos zero) ∷ m) h = ground (arith, creditors_of-facts m h.1)
creditors_of-facts ((u, pos (suc n)) ∷ m) h = ground (arith, creditors_of-facts m h.1)
creditors_of-facts ((u, negsuc n) ∷ m) h = ground (arith, creditors_of-facts m h.1)

debtors_of-facts :
    (m : BTreeMap UserId Cents)
    → All IsNegatable m
    → All IsDue (debtors_of m) × (total_due (debtors_of m) ≡ total_debit m)
unfolding debtors_of
debtors_of-facts [] h = (tt, refl)
debtors_of-facts ((u, pos n) ∷ m) h = ground (arith, debtors_of-facts m h.1)
debtors_of-facts ((u, negsuc n) ∷ m) h =
    rw (negated n h.0.1) (ground (arith, debtors_of-facts m h.1))

parties : (m : BTreeMap UserId Cents) → length (debtors_of m) + length (creditors_of m) ≡ nonzero m
unfolding debtors_of creditors_of
parties [] = refl
parties ((u, pos zero) ∷ m) = ground (arith, parties m)
parties ((u, pos (suc n)) ∷ m) = ground (arith, parties m)
parties ((u, negsuc n) ∷ m) = ground (arith, parties m)

credit_Above : (q : UserId) (m : BTreeMap UserId Cents) → Above q m → due_of q (creditors_of m) ≡ 0
unfolding creditors_of
credit_Above q [] h = refl
credit_Above q ((u, z) ∷ m) h = ground (arith, credit_Above q m h.1)

debit_Above : (q : UserId) (m : BTreeMap UserId Cents) → Above q m → due_of q (debtors_of m) ≡ 0
unfolding debtors_of
debit_Above q [] h = refl
debit_Above q ((u, z) ∷ m) h = ground (arith, debit_Above q m h.1)

-- What a user is listed for as a creditor is the positive part of the balance.
due_of-creditors_of :
    (q : UserId) (m : BTreeMap UserId Cents)
    → IsSorted m
    → due_of q (creditors_of m) ≡ pos_part (get_or q (pos 0) m)
unfolding creditors_of get
due_of-creditors_of q [] s = refl
due_of-creditors_of q ((u, z) ∷ m) s = ground (
  arith,
  due_of-creditors_of q m s.1,
  credit_Above q m,
  Above-trans q u m,
  get-Above q m,
  eq_of_bytes q u,
)

due_of-debtors_of :
    (q : UserId) (m : BTreeMap UserId Cents)
    → IsSorted m
    → All IsNegatable m
    → due_of q (debtors_of m) ≡ neg_part (get_or q (pos 0) m)
unfolding debtors_of get
due_of-debtors_of q [] s h = refl
due_of-debtors_of q ((u, pos n) ∷ m) s h = ground (
  arith,
  due_of-debtors_of q m s.1 h.1,
  debit_Above q m,
  Above-trans q u m,
  get-Above q m,
  eq_of_bytes q u,
)
due_of-debtors_of q ((u, negsuc n) ∷ m) s h = rw (negated n h.0.1) (
    ground (
      arith,
      due_of-debtors_of q m s.1 h.1,
      debit_Above q m,
      Above-trans q u m,
      get-Above q m,
      eq_of_bytes q u,
    ))

-- Balances of a ledger: sorted, in range, and of sum zero.
pub record IsLedger (balances : BTreeMap UserId Cents) : Type 0 where
  pub sorted : IsSorted balances
  pub in_range : All IsNegatable balances
  pub zero_sum : sum (values balances) ≡ pos 0

module _ (balances : BTreeMap UserId Cents) (ledger : IsLedger balances) where
  ds : List (UserId × ℤ)
  ds = sort_by by_amount_desc (debtors_of balances)

  cs : List (UserId × ℤ)
  cs = sort_by by_amount_desc (creditors_of balances)

  credit_is_debit : total_credit balances ≡ total_debit balances
  credit_is_debit = ground (arith, ledger.zero_sum, sum-values balances)

  same_total : total_due ds ≡ total_due cs
  unfolding ds cs
  same_total = omega (
    arith,
    total_due-sort_by by_amount_desc (debtors_of balances),
    total_due-sort_by by_amount_desc (creditors_of balances),
    (debtors_of-facts balances ledger.in_range).1,
    (creditors_of-facts balances ledger.in_range).1,
    credit_is_debit,
  )

  -- For balances of a ledger (sorted, negatable, of sum zero): once everybody has made and received the suggested payments, each balance is settled: a user
  -- pays out exactly what the user owes and receives exactly what the user is owed; and the
  -- payments together move exactly the sum of what is owed.
  pub simplify_debts-settles :
      (q : UserId)
      → (paid_by_user q (simplify_debts balances) ≡ neg_part (get_or q (pos 0) balances))
        × (received_by q (simplify_debts balances) ≡ pos_part (get_or q (pos 0) balances))
        × (total_moved (simplify_debts balances) ≡ total_debit balances)
  unfolding simplify_debts ds cs
  simplify_debts-settles q =
      let (pays, gets, moves) =
        settle-exact (length ds + length cs) ds cs q
          (All-sort_by by_amount_desc IsDue _ (debtors_of-facts balances ledger.in_range).0)
          (All-sort_by by_amount_desc IsDue _ (creditors_of-facts balances ledger.in_range).0)
          same_total (omega arith) in
      (
        pays
            ∙ due_of-sort_by by_amount_desc q (debtors_of balances)
            ∙ due_of-debtors_of q balances ledger.sorted ledger.in_range,
        gets
            ∙ due_of-sort_by by_amount_desc q (creditors_of balances)
            ∙ due_of-creditors_of q balances ledger.sorted,
        moves
            ∙ total_due-sort_by by_amount_desc (debtors_of balances)
            ∙ (debtors_of-facts balances ledger.in_range).1,
      )

  -- For balances of a ledger: the payments are one fewer than the members with a balance that is not zero, at most; each is
  -- of a positive amount.
  pub simplify_debts-few :
      (length (simplify_debts balances) ≤ nonzero balances - 1)
      × All (λ t. 0 < pos_part t.amount) (simplify_debts balances)
  unfolding simplify_debts ds cs
  simplify_debts-few = (
    omega (
      arith,
      settle-length (length ds + length cs) ds cs
          (All-sort_by by_amount_desc IsDue _ (debtors_of-facts balances ledger.in_range).0)
          (All-sort_by by_amount_desc IsDue _ (creditors_of-facts balances ledger.in_range).0)
          same_total (omega arith),
      parties balances,
      length-sort_by by_amount_desc (debtors_of balances),
      length-sort_by by_amount_desc (creditors_of balances),
    ),
    settle-positive (length ds + length cs) ds cs,
  )
