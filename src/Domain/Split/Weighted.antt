-- ===== src/Domain/Split/Weighted.antt =====
-- `split_by_weights` (splittr-domain/src/split.rs): what its divisions and the cents left over
-- come to.
use splittr.Prelude.{
  ℕ, zero, suc, ◌+◌, ◌-◌, ◌*◌, ◌%◌, ◌^◌, ◌≤◌, ◌<◌, ◌≡◌, refl, ap, List, [], ◌∷◌, arith, ◌∙◌, some,
  ok, ◌==◌, false,
}
use splittr.Prelude.Int.{pos, pos_part, ◌+ℤ◌, ◌-ℤ◌, wrap_i64, wrap_i64-IsI64, int_laws}
use splittr.Prelude.Lists.{length, get_elem?, sort_by, length-sort_by, All-sort_by}
use splittr.Prelude.Folds.{All}
use splittr.BTree.{BTreeMap}
use splittr.Domain.Ids.{UserId}
use splittr.Domain.Money.Laws.{sum}
use splittr.Domain.Split.{
  Split, Share, owed_amounts, floored_shares, distribute, by_remainder_desc, indices, add_cent,
  hand_out, to_splits, weighted_shares, split_by_weights,
}
use splittr.Domain.Split.Floored.{
  cents, remainders, NonNegative, total_of, AreU64, floored_shares-facts, sum_weights-eq,
}

-- `distributed` is the sum of the shares, where that is in range.
distribute-eq :
    (acc : ℕ) (ss : List Share)
    → All NonNegative ss
    → acc + cents ss < 2 ^ 63
    → distribute (pos acc) ss ≡ pos (acc + cents ss)
unfolding distribute
distribute-eq acc [] h k = ap pos (omega arith)
distribute-eq acc (s ∷ ss) h k =
    let e : pos acc +ℤ s.floored ≡ pos (acc + pos_part s.floored) = omega (int_laws, h.0) in
    rw (e, wrap_i64-IsI64 (pos (acc + pos_part s.floored)) (omega arith))
      (distribute-eq (acc + pos_part s.floored) ss h.1 (omega arith) ∙ ap pos (omega arith))

-- A cent for one share.
pub add_cent-facts :
    (j : ℕ) (ss : List Share)
    → All NonNegative ss
    → j < length ss
    → cents ss + 1 < 2 ^ 63
    → All NonNegative (add_cent j ss)
      × (cents (add_cent j ss) ≡ cents ss + 1)
      × (length (add_cent j ss) ≡ length ss)
unfolding add_cent
add_cent-facts j [] h lt k = absurd (omega arith)
add_cent-facts zero (s ∷ ss) h lt k =
    let e : s.floored +ℤ pos 1 ≡ pos (pos_part s.floored + 1) = omega (int_laws, h.0) in
    rw (e, wrap_i64-IsI64 (pos (pos_part s.floored + 1)) (omega arith))
      ((refl, h.1), omega arith, refl)
add_cent-facts (suc j) (s ∷ ss) h lt k =
    let (ih, e, l) = add_cent-facts j ss h.1 (omega arith) (omega arith) in
    ((h.0, ih), omega (arith, e), omega (arith, l))

pub get_elem?-All :
    (P : ℕ → Type 0) (xs : List ℕ) (i : ℕ)
    → All P xs
    → i < length xs
    → (j : ℕ) × (get_elem? xs i ≡ some j) × P j
get_elem?-All P [] i h lt = absurd (omega arith)
get_elem?-All P (x ∷ xs) zero h lt = (x, refl, h.0)
get_elem?-All P (x ∷ xs) (suc i) h lt = get_elem?-All P xs i h.1 (omega arith)

-- Each round gives out one cent.
hand_out-facts :
    (n i : ℕ) (order : List ℕ) (ss : List Share)
    → All NonNegative ss
    → All (λ j. j < length ss) order
    → 0 < length order
    → cents ss + n < 2 ^ 63
    → All NonNegative (hand_out n i order ss) × (cents (hand_out n i order ss) ≡ cents ss + n)
unfolding hand_out
hand_out-facts zero i order ss h o p k = (h, omega arith)
hand_out-facts (suc n) i order ss h o p k =
    let (j, e, small) =
      get_elem?-All (λ j. j < length ss) order (i % length order) o (grind arith) in
    let (keeps, more, same) = add_cent-facts j ss h small (omega arith) in
    let (rest, all) =
      hand_out-facts n (suc i) order (add_cent j ss) keeps (rw same o) p (omega (arith, more)) in
    rw e (rest, omega (arith, all, more))

pub indices-below : (m i n : ℕ) → i + n ≤ m → All (λ j. j < m) (indices i n)
indices-below m i zero h = tt
indices-below m i (suc n) h = (omega arith, indices-below m (suc i) n (omega arith))

pub length-indices : (i n : ℕ) → length (indices i n) ≡ n
length-indices i zero = refl
length-indices i (suc n) = ap suc (length-indices (suc i) n)

sum-to_splits :
    (ss : List Share) → All NonNegative ss → sum (owed_amounts (to_splits ss)) ≡ pos (cents ss)
sum-to_splits [] h = refl
sum-to_splits (s ∷ ss) h = rw (sum-to_splits ss h.1) (omega (int_laws, h.0))

pub cancel : (f t w r : ℕ) → 0 < w → f * w + r ≡ t * w → f ≤ t
cancel f t w r p h = grind arith

not_zero : (n : ℕ) → 0 < n → (n == 0) ≡ false
not_zero n h = ground arith

-- What a successful division is: shares that add up to the total, one for each participant.
module _ (t : ℕ) (e : UserId × ℕ) (es : BTreeMap UserId ℕ) (t_fits : t < 2 ^ 63)
    (u64 : AreU64 (e ∷ es)) (bounded : total_of (e ∷ es) < 2 ^ 127)
    (positive : 0 < total_of (e ∷ es)) where
  ws : BTreeMap UserId ℕ
  ws = e ∷ es

  shares : List Share
  shares = floored_shares (pos t) (total_of (e ∷ es)) (e ∷ es)

  order : List ℕ
  order = sort_by (by_remainder_desc shares) (indices 0 (length shares))

  facts :
      All NonNegative shares
      × (cents shares * total_of (e ∷ es) + remainders shares ≡ t * total_of (e ∷ es))
      × (length shares ≡ suc (length es))
  unfolding shares
  facts =
      floored_shares-facts t (total_of (e ∷ es)) t_fits positive bounded (e ∷ es) u64 (omega arith)

  cents-le : cents shares ≤ t
  cents-le = cancel (cents shares) t (total_of (e ∷ es)) (remainders shares) positive facts.1

  leftover-eq : wrap_i64 (pos t -ℤ distribute (pos 0) shares) ≡ pos (t - cents shares)
  leftover-eq = rw (distribute-eq 0 shares facts.0 (omega (arith, cents-le))) (
      let s : pos t -ℤ pos (0 + cents shares) ≡ pos (t - cents shares) =
        omega (int_laws, cents-le) in
      rw s (wrap_i64-IsI64 (pos (t - cents shares)) (omega arith)))

  handed : List Share
  handed = hand_out (t - cents shares) 0 order shares

  handed-facts : All NonNegative handed × (cents handed ≡ cents shares + (t - cents shares))
  unfolding handed order
  handed-facts =
      hand_out-facts (t - cents shares) 0 order shares facts.0
        (All-sort_by (by_remainder_desc shares) (λ j. j < length shares) _
          (indices-below (length shares) 0 (length shares) (omega arith)))
        (omega (
          arith,
          length-sort_by (by_remainder_desc shares) (indices 0 (length shares)),
          length-indices 0 (length shares),
          facts.2,
        ))
        (omega (arith, cents-le))

  weighted_shares-eq : weighted_shares (pos t) (total_of (e ∷ es)) (e ∷ es) ≡ to_splits handed
  unfolding weighted_shares handed order shares
  weighted_shares-eq = rw leftover-eq

  -- The shares come to the total, as `compute-ok` needs it for weights.
  pub split_by_weights-sum :
      (splits : List Split) × (split_by_weights (pos t) (e ∷ es) ≡ ok splits)
      × (sum (owed_amounts splits) ≡ pos t)
  unfolding split_by_weights
  split_by_weights-sum = (
    to_splits handed,
    rw (sum_weights-eq (e ∷ es) bounded, not_zero (total_of (e ∷ es)) positive, weighted_shares-eq),
    sum-to_splits handed handed-facts.0 ∙ ap pos (omega (arith, handed-facts.1, cents-le)),
  )

  -- The division gives the floored shares after the rounds that hand out what is left over.
  pub split_by_weights-handed :
      let floored = floored_shares (pos t) (total_of (e ∷ es)) (e ∷ es) in
      split_by_weights (pos t) (e ∷ es)
      ≡ ok (
          to_splits (
            hand_out
              (t - cents floored)
              0
              (sort_by (by_remainder_desc floored) (indices 0 (length floored)))
              floored))
  unfolding split_by_weights handed order shares
  split_by_weights-handed =
      rw
        (sum_weights-eq (e ∷ es) bounded, not_zero (total_of (e ∷ es)) positive, weighted_shares-eq)
