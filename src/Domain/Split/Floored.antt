-- ===== src/Domain/Split/Floored.antt =====
-- The shares of `split_by_weights` (splittr-domain/src/split.rs), rounded down, before the cents
-- left over are handed out.
use splittr.Prelude.{ℕ, ◌+◌, ◌*◌, ◌/◌, ◌%◌, ◌^◌, ◌≤◌, ◌<◌, ◌≡◌, refl, List, [], ◌∷◌, arith}
use splittr.Prelude.Int.{pos, pos_part, neg_part, ◌*ℤ◌, as_u128, wrap_i64-IsI64, wrap_i128-small}
use splittr.Prelude.Lists.{length}
use splittr.Prelude.Folds.{All}
use splittr.BTree.{BTreeMap, values}
use splittr.Domain.Ids.{UserId}
use splittr.Domain.Split.{Share, sum_weights, floored_share, floored_shares}

-- The sum of the floored shares.
abbrev pub cents : List Share → ℕ
cents [] = 0
cents (s ∷ ss) = pos_part s.floored + cents ss

abbrev pub remainders : List Share → ℕ
remainders [] = 0
remainders (s ∷ ss) = s.remainder + remainders ss

abbrev pub NonNegative : Share → Type 0
NonNegative s = neg_part s.floored ≡ 0

abbrev pub total_of : BTreeMap UserId ℕ → ℕ
total_of [] = 0
total_of ((_, w) ∷ ws) = w + total_of ws

-- Each weight is a `u64`.
abbrev pub AreU64 : BTreeMap UserId ℕ → Type 0
AreU64 [] = Unit
AreU64 ((_, w) ∷ ws) = (w < 2 ^ 64) × AreU64 ws

pub sum_weights-eq :
    (ws : BTreeMap UserId ℕ) → total_of ws < 2 ^ 127 → sum_weights (values ws) ≡ total_of ws
unfolding sum_weights
sum_weights-eq [] h = refl
sum_weights-eq ((u, w) ∷ ws) h = rw (sum_weights-eq ws (omega arith)) (omega arith)

pub times_pos : (a b : ℕ) → pos a *ℤ pos b ≡ pos (a * b)
unfolding ◌*ℤ◌
times_pos a b = ground arith

product_bound : (t w : ℕ) → t < 2 ^ 63 → w < 2 ^ 64 → t * w < 2 ^ 127
product_bound t w h k = grind arith

quotient_bound : (t w total : ℕ) → 0 < total → w ≤ total → t * w / total ≤ t
quotient_bound t w total p h = grind arith

module _ (t total : ℕ) (t_fits : t < 2 ^ 63) (positive : 0 < total)
    (total_fits : total < 2 ^ 127) where
  -- With no wrap-around, a share is the quotient and the remainder of a division.
  pub floored_share-eq :
      (u : UserId) (w : ℕ)
      → w < 2 ^ 64
      → w ≤ total
      → floored_share (pos t) total (u, w)
        ≡ record { user = u; floored = pos (t * w / total); remainder = t * w % total }
  unfolding floored_share
  floored_share-eq u w h k =
      let b = product_bound t w t_fits h in
      let q = quotient_bound t w total positive k in
      let r : t * w % total < total = grind arith in
      rw (times_pos t w, wrap_i128-small (pos (t * w)) b (omega arith))
        (rw (wrap_i64-IsI64 (pos (t * w / total)) (omega (arith, q)))
          (let e : as_u128 (pos (t * w % total)) ≡ t * w % total = omega (arith, r) in rw e refl))

  pub floored_shares-facts :
      (ws : BTreeMap UserId ℕ)
      → AreU64 ws
      → total_of ws ≤ total
      → All NonNegative (floored_shares (pos t) total ws)
        × (cents (floored_shares (pos t) total ws) * total
              + remainders (floored_shares (pos t) total ws)
            ≡ t * total_of ws)
        × (length (floored_shares (pos t) total ws) ≡ length ws)
  unfolding floored_shares
  floored_shares-facts [] h k = (tt, omega arith, refl)
  floored_shares-facts ((u, w) ∷ ws) h k =
      let (ih, e, l) = floored_shares-facts ws h.1 (omega arith) in
      let d : t * w / total * total + t * w % total ≡ t * w = grind arith in
      rw (floored_share-eq u w h.0 (omega arith))
        ((refl, ih), omega (arith, e, d), omega (arith, l))
