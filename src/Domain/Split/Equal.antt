-- ===== src/Domain/Split/Equal.antt =====
-- `split_equal` (splittr-domain/src/split.rs): the shares add up to the total and differ by a cent
-- at most.
use splittr.Prelude.{
  ℕ, suc, ◌+◌, ◌-◌, ◌*◌, ◌/◌, ◌%◌, ◌^◌, ◌≤◌, ◌<◌, ◌≡◌, List, [], ◌∷◌, arith, if◌then◌else◌, ◌==◌,
  false, ◌∙◌,
}
use Prim.Native.Nat.{min}
use splittr.Prelude.Int.{
  ltb_ℤ, ℤ, pos, negsuc, neg_part, ◌+ℤ◌, ◌-ℤ◌, ◌*ℤ◌, ◌≤ℤ◌, *ℤ-suc, div_euclid, IsI64, wrap_i64,
  wrap_i64-IsI64, int_laws,
}
use native.Mathlib.Decide.{dec_lt}
use splittr.Prelude.Lists.{length}
use splittr.Prelude.Folds.{All}
use splittr.Domain.Ids.{UserId}
use splittr.Domain.Money.{Cents}
use splittr.Domain.Money.Laws.{sum}
use splittr.Domain.Split.{Split, owed_amounts, equal_shares, split_equal}

-- A share of `base` or of one cent more.
abbrev pub IsNear : ℤ → Split → Type 0
IsNear base s = (base ≤ℤ s.owed) × (s.owed ≤ℤ base +ℤ pos 1)

plus_zero : (b : ℤ) → b +ℤ pos 0 ≡ b
plus_zero b = omega int_laws

times_zero : (b : ℤ) (n : ℕ) → pos 0 ≡ b *ℤ pos 0 +ℤ pos (min n 0)
unfolding ◌*ℤ◌ ◌+ℤ◌
times_zero b n = ground arith

module _ (base : ℤ) (r : ℕ) (fits : IsI64 base) (fits_more : 0 < r → IsI64 (base +ℤ pos 1)) where
  share_with_cent : (i : ℕ) → i < r → wrap_i64 (base +ℤ pos 1) ≡ base +ℤ pos 1
  share_with_cent i h = wrap_i64-IsI64 (base +ℤ pos 1) (fits_more (omega arith))

  share_without : wrap_i64 (base +ℤ pos 0) ≡ base
  share_without = let e : base +ℤ pos 0 ≡ base = omega int_laws in rw e (wrap_i64-IsI64 base fits)

  -- Share `i` has the extra cent if `i` is below the remainder.
  share :
      (i : ℕ)
      → wrap_i64 (base +ℤ (if ltb_ℤ (pos i) (pos r) then pos 1 else pos 0))
        ≡ base +ℤ pos (min (r - i) 1)
  share i = elim (dec_lt i r) [
    | yes h ↦ let e : min (r - i) 1 ≡ 1 = omega arith in rw e (ground (arith, share_with_cent i h))
    | no h ↦
        let e : min (r - i) 1 ≡ 0 = omega arith in
        rw e (ground (arith, share_without, plus_zero base))
  ]

  equal_shares-sum :
      (i : ℕ) (us : List UserId)
      → sum (owed_amounts (equal_shares base (pos r) i us))
        ≡ base *ℤ pos (length us) +ℤ pos (min (r - i) (length us))
  unfolding equal_shares
  equal_shares-sum i [] = times_zero base (r - i)
  equal_shares-sum i (u ∷ us) =
      rw (share i, equal_shares-sum (suc i) us, *ℤ-suc base (length us)) (omega int_laws)

  equal_shares-IsNear :
      (i : ℕ) (us : List UserId) → All (IsNear base) (equal_shares base (pos r) i us)
  unfolding equal_shares
  equal_shares-IsNear i [] = tt
  equal_shares-IsNear i (u ∷ us) = (rw (share i) (omega int_laws), equal_shares-IsNear (suc i) us)

-- The remainder of the division by `n` participants.
module _ (total : Cents) (n : ℕ) where
  abbrev base : ℤ
  base = div_euclid total (suc n)

  -- With `base` rounded down, what is left is less than one cent for each participant.
  record IsDivision (r : ℕ) : Type 0 where
    below : r < suc n
    exact : base *ℤ pos (suc n) +ℤ pos r ≡ total
    base_fits : IsI64 base
    base_fits_more : 0 < r → IsI64 (base +ℤ pos 1)
    product_fits : IsI64 (base *ℤ pos (suc n))

nat_division :
    (t n : ℕ)
    → (t / suc n * suc n + t % suc n ≡ t) × (t % suc n < suc n) × (t / suc n ≤ t / suc n * suc n)
nat_division t n = (grind arith, grind arith, grind arith)

times_pos : (q n : ℕ) → pos q *ℤ pos n ≡ pos (q * n)
unfolding ◌*ℤ◌
times_pos q n = ground arith

times_negsuc : (q n : ℕ) → negsuc q *ℤ pos (suc n) ≡ negsuc (q * suc n + n)
unfolding ◌*ℤ◌
times_negsuc q n = ground arith

pos_more : (q : ℕ) → suc q < 2 ^ 63 → IsI64 (pos q +ℤ pos 1)
unfolding ◌+ℤ◌
pos_more q h = ground arith

negsuc_more : (q : ℕ) → suc q ≤ 2 ^ 63 → IsI64 (negsuc q +ℤ pos 1)
unfolding ◌+ℤ◌
negsuc_more q h = ground arith

not_zero : (n : ℕ) → (suc n == 0) ≡ false
not_zero n = ground arith

division :
    (total : Cents) (n : ℕ)
    → IsI64 total
    → neg_part total + suc n ≤ 2 ^ 63
    → (r : ℕ) × IsDivision total n r
division (pos t) n h k =
    let (e, small, le) = nat_division t n in
    (
      t % suc n,
      record {
        below = small;
        exact = rw (times_pos (t / suc n) (suc n)) (omega (int_laws, e));
        base_fits = omega (arith, e, le);
        base_fits_more = λ p. pos_more (t / suc n) (omega (arith, e, le));
        product_fits = rw (times_pos (t / suc n) (suc n)) (omega (arith, e));
      },
    )
division (negsuc t) n h k =
    let (e, small, le) = nat_division t n in
    (
      n - t % suc n,
      record {
        below = omega arith;
        exact = rw (times_negsuc (t / suc n) n) (omega (int_laws, e, small));
        base_fits = omega (arith, e, le);
        base_fits_more = λ p. negsuc_more (t / suc n) (omega (arith, e, le));
        product_fits = rw (times_negsuc (t / suc n) n) (omega (arith, e));
      },
    )

sub_of_add : (p r t : ℤ) → p +ℤ r ≡ t → t -ℤ p ≡ r
sub_of_add p r t e = rw (← e) (omega int_laws)

module _ (total : Cents) (u : UserId) (us : List UserId) (fits : IsI64 total)
    (room : neg_part total + suc (length us) ≤ 2 ^ 63) where
  remainder-eq :
      (r : ℕ)
      → IsDivision total (length us) r
      → wrap_i64 (total -ℤ wrap_i64 (base total (length us) *ℤ pos (suc (length us)))) ≡ pos r
  remainder-eq r d =
      let product = base total (length us) *ℤ pos (suc (length us)) in
      rw (wrap_i64-IsI64 product d.product_fits, sub_of_add product (pos r) total d.exact)
        (wrap_i64-IsI64 (pos r) (omega (arith, d.below)))

  -- For a total that an `i64` holds, and participants of whom there is at least one and so few that
  -- a debt below zero grows by less than the range: the shares add up to the total, and each is the
  -- rounded-down quotient or one cent more, so no share differs from another by more than a cent.
  pub split_equal-sum :
      (sum (owed_amounts (split_equal total (u ∷ us))) ≡ total)
      × All (IsNear (div_euclid total (suc (length us)))) (split_equal total (u ∷ us))
  unfolding split_equal
  split_equal-sum =
      let (r, d) = division total (length us) fits room in
      let all_given : min (r - 0) (suc (length us)) ≡ r = omega (arith, d.below) in
      rw (not_zero (length us), remainder-eq r d)
        (
          equal_shares-sum (base total (length us)) r d.base_fits d.base_fits_more 0 (u ∷ us)
              ∙ rw all_given d.exact,
          equal_shares-IsNear (base total (length us)) r d.base_fits d.base_fits_more 0 (u ∷ us),
        )
