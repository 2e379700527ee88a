-- ===== src/Domain/Split.antt =====
-- splittr-domain/src/split.rs: dividing an amount among participants.
pub mod Equal
pub mod Floored
pub mod Weighted
pub mod Plan
pub mod Rounds
pub mod Fair
use splittr.Prelude.{
  ℕ, zero, suc, ◌+◌, ◌-◌, ◌*◌, ◌%◌, ◌^◌, Bool, true, false, Option, none, some, List, [], ◌∷◌,
  if◌then◌else◌, ltb, ◌==◌, ◌>>=◌, Ordering, Result, ok, err,
}
use splittr.Prelude.Int.{
  ℤ, pos, pos_part, ◌+ℤ◌, ◌-ℤ◌, ◌*ℤ◌, ltb_ℤ, div_euclid, quot_ℤ, rem_ℤ, wrap_i64, wrap_i128,
  as_u128, int_ord,
}
use splittr.Prelude.Ord.{same, bytes_ord, then_with, nat_ord, cmp_bytes}
use splittr.Prelude.Lists.{length, get_elem?, sort_by}
use splittr.BTree.{BTreeMap, values}
use splittr.Domain.Ids.{UserId}
use splittr.Domain.Money.{Cents, fold_add}
use Prim.Native.Nat.{compare}

pub record Split : Type 0 where
  pub user : UserId
  pub owed : Cents

abbrev pub owed_amounts : List Split → List Cents
owed_amounts [] = []
owed_amounts (s ∷ ss) = s.owed ∷ owed_amounts ss

-- The body of the `map` over `users.iter().enumerate()`, from index `i` on.
unfoldable pub equal_shares : ℤ → ℤ → ℕ → List UserId → List Split
equal_shares base remainder i [] = []
equal_shares base remainder i (u ∷ us) =
    let extra = if ltb_ℤ (pos i) remainder then pos 1 else pos 0 in
    record { user = u; owed = wrap_i64 (base +ℤ extra) } ∷ equal_shares base remainder (suc i) us

unfoldable pub split_equal : Cents → List UserId → List Split
split_equal total users =
    let n = length users in
    let base = div_euclid total n in
    let remainder = wrap_i64 (total -ℤ wrap_i64 (base *ℤ pos n)) in
    if n == 0 then [] else equal_shares base remainder 0 users

pub data SplitPlan : Type 0 where
  equal : List UserId → SplitPlan
  exact : BTreeMap UserId Cents → SplitPlan
  weighted : BTreeMap UserId ℕ → SplitPlan

pub data SplitError : Type 0 where
  empty : SplitError
  zero_weight : SplitError
  unbalanced : (expected actual : Cents) → SplitError

-- One entry of `shares`: the floored share and its remainder.
pub record Share : Type 0 where
  pub user : UserId
  pub floored : ℤ
  pub remainder : ℕ

-- `weights.values().map(|w| *w as u128).sum()`
unfoldable pub sum_weights : List ℕ → ℕ
sum_weights [] = 0
sum_weights (w ∷ ws) = (w + sum_weights ws) % 2 ^ 128

-- The body of the loop over the weights.
unfoldable pub floored_share : Cents → ℕ → UserId × ℕ → Share
floored_share total total_weight (u, weight) =
    let numerator = wrap_i128 (total *ℤ pos weight) in
    record {
      user = u;
      floored = wrap_i64 (quot_ℤ numerator total_weight);
      remainder = as_u128 (rem_ℤ numerator total_weight);
    }

unfoldable pub floored_shares : Cents → ℕ → BTreeMap UserId ℕ → List Share
floored_shares total total_weight [] = []
floored_shares total total_weight (e ∷ ws) =
    floored_share total total_weight e ∷ floored_shares total total_weight ws

-- `distributed`, after the loop.
unfoldable pub distribute : ℤ → List Share → ℤ
distribute acc [] = acc
distribute acc (s ∷ ss) = distribute (wrap_i64 (acc +ℤ s.floored)) ss

-- The order of `shares[a]` and `shares[b]`; an index out of bounds would panic, and none is.
abbrev pub by_remainder_desc : List Share → ℕ → ℕ → Ordering
by_remainder_desc shares a b = elim (get_elem? shares a) [
  | none ↦ Ordering.eq
  | some sa ↦ elim (get_elem? shares b) [
    | none ↦ Ordering.eq
    | some sb ↦ then_with (compare sb.remainder sa.remainder) (cmp_bytes sa.user sb.user)
  ]
]

-- `(i..i + n).collect()`
abbrev pub indices : ℕ → ℕ → List ℕ
indices i zero = []
indices i (suc n) = i ∷ indices (suc i) n

-- `shares[i].1 += 1`
unfoldable pub add_cent : ℕ → List Share → List Share
add_cent i [] = []
add_cent zero (s ∷ ss) = record s { floored = wrap_i64 (s.floored +ℤ pos 1) } ∷ ss
add_cent (suc i) (s ∷ ss) = s ∷ add_cent i ss

-- The `while`: `leftover` rounds are left, and round `i` gives a cent to `order[i % order.len()]`.
unfoldable pub hand_out : ℕ → ℕ → List ℕ → List Share → List Share
hand_out zero i order shares = shares
hand_out (suc leftover) i order shares =
    hand_out leftover (suc i) order
      (elim (get_elem? order (i % length order)) [ none ↦ shares | some j ↦ add_cent j shares ])

abbrev pub to_splits : List Share → List Split
to_splits [] = []
to_splits (s ∷ ss) = record { user = s.user; owed = s.floored } ∷ to_splits ss

-- From the first loop on. A `while leftover > 0` that counts down runs `leftover` times, and not at
-- all below 1.
unfoldable pub weighted_shares : Cents → ℕ → BTreeMap UserId ℕ → List Split
weighted_shares total total_weight weights =
    let shares = floored_shares total total_weight weights in
    let order = sort_by (by_remainder_desc shares) (indices 0 (length shares)) in
    let leftover = wrap_i64 (total -ℤ distribute (pos 0) shares) in
    to_splits (hand_out (pos_part leftover) 0 order shares)

unfoldable pub split_by_weights : Cents → BTreeMap UserId ℕ → Result SplitError (List Split)
split_by_weights total [] = err empty
split_by_weights total (e ∷ es) =
    let total_weight = sum_weights (values (e ∷ es)) in
    if total_weight == 0 then err zero_weight else ok (weighted_shares total total_weight (e ∷ es))

abbrev pub entry_split : UserId × Cents → Split
entry_split (u, c) = record { user = u; owed = c }

abbrev pub exact_splits : BTreeMap UserId Cents → List Split
exact_splits [] = []
exact_splits (e ∷ es) = entry_split e ∷ exact_splits es

-- `SplitPlan::compute`; `none` is an overflow of the sum of exact amounts.
unfoldable pub compute : SplitPlan → Cents → Option (Result SplitError (List Split))
compute (equal []) total = some (err empty)
compute (equal (u ∷ us)) total = some (ok (split_equal total (u ∷ us)))
compute (exact []) total = some (err empty)
compute (exact (e ∷ es)) total = fold_add (pos 0) (values (e ∷ es)) >>= λ actual.
    some (if same actual total then ok (exact_splits (e ∷ es)) else err (unbalanced total actual))
compute (weighted weights) total = some (split_by_weights total weights)
