-- ===== src/Domain/Split/Plan.antt =====
-- `SplitPlan::compute` (splittr-domain/src/split.rs): what it gives when it succeeds.
use splittr.Prelude.{
  ℕ, ◌^◌, ◌≤◌, ◌<◌, ◌≡◌, refl, sym, ap, List, [], ◌∷◌, arith, ◌∙◌, some, ok, true,
}
use splittr.Prelude.Int.{ℤ, pos, ◌+ℤ◌, int_laws, int_ord}
use splittr.Prelude.Ord.{same}
use splittr.Prelude.Lists.{length}
use splittr.BTree.{BTreeMap, values}
use splittr.Domain.Ids.{UserId}
use splittr.Domain.Money.{Cents, fold_add}
use splittr.Domain.Money.Laws.{sum, fold_add-eq-some}
use splittr.Domain.Split.{
  Split, SplitPlan, equal, exact, weighted, owed_amounts, exact_splits, compute,
}
use splittr.Domain.Split.Equal.{split_equal-sum}
use splittr.Domain.Split.Floored.{AreU64, total_of}
use splittr.Domain.Split.Weighted.{split_by_weights-sum}

-- A plan that can divide `t` cents: it has participants, at most 2^62 of them; exact amounts add up
-- to `t` with no overflow on the way; weights are `u64`s, not all zero.
abbrev pub IsUsable : ℕ → SplitPlan → Type 0
IsUsable t (equal us) = (0 < length us) × (length us ≤ 2 ^ 62)
IsUsable t (exact m) = (0 < length m) × (fold_add (pos 0) (values m) ≡ some (pos t))
IsUsable t (weighted ws) = AreU64 ws × (0 < total_of ws) × (total_of ws < 2 ^ 127)

exact_splits-amounts : (m : BTreeMap UserId Cents) → owed_amounts (exact_splits m) ≡ values m
exact_splits-amounts [] = refl
exact_splits-amounts (e ∷ m) = ap (◌∷◌ e.1) (exact_splits-amounts m)

same_self : (z : ℤ) → same z z ≡ true
same_self z = ground arith

zero_plus : (z : ℤ) → pos 0 +ℤ z ≡ z
zero_plus z = omega int_laws

-- A usable plan divides every amount that is not negative and fits an `i64`, and the shares add up
-- to the amount.
pub compute-ok :
    (plan : SplitPlan) (t : ℕ)
    → t < 2 ^ 63
    → IsUsable t plan
    → (splits : List Split) × (compute plan (pos t) ≡ some (ok splits))
      × (sum (owed_amounts splits) ≡ pos t)
unfolding compute
compute-ok (equal []) t h u = absurd (omega arith)
compute-ok (equal (x ∷ xs)) t h u =
    (_, refl, (split_equal-sum (pos t) x xs (omega arith) (omega arith)).0)
compute-ok (exact []) t h u = absurd (omega arith)
compute-ok (exact (e ∷ es)) t h u = (
  exact_splits (e ∷ es),
  rw (u.1, same_self (pos t)),
  ap sum (exact_splits-amounts (e ∷ es))
      ∙ sym (fold_add-eq-some (pos 0) (values (e ∷ es)) (pos t) u.1 ∙ zero_plus _),
)
compute-ok (weighted []) t h u = absurd (omega arith)
compute-ok (weighted (e ∷ es)) t h u =
    let (splits, done, total) = split_by_weights-sum t e es h u.0 u.2 u.1 in
    (splits, ap some done, total)
