-- ===== src/Domain/Money.antt =====
-- splittr-domain/src/money.rs: an amount in minor units, kept in an `i64`. An operator that panics
-- on overflow returns `none` there.
pub mod Laws
use splittr.Prelude.{
  ℕ, zero, suc, ◌+◌, ◌/◌, ◌%◌, ◌^◌, Bool, true, false, Option, none, some, List, [], ◌∷◌, ◌++◌,
  ◌==◌, if◌then◌else◌, ◌>>=◌,
}
use splittr.Prelude.Int.{
  ℤ, pos, negsuc, pos_part, neg_part, ◌+ℤ◌, ◌-ℤ◌, neg_ℤ, in_i64, ltb_ℤ, is_zero_ℤ,
}
use splittr.Prelude.Ord.{Bytes}
use splittr.Prelude.Text.{decimal, pad_zeros}

abbrev pub Cents : Type 0
Cents = ℤ

abbrev pub i64_max : ℤ
i64_max = pos 9_223_372_036_854_775_807

abbrev pub i64_min : ℤ
i64_min = negsuc 9_223_372_036_854_775_807

abbrev pub is_zero : Cents → Bool
is_zero c = is_zero_ℤ c

abbrev pub checked : ℤ → Option Cents
checked z = if in_i64 z then some z else none

unfoldable pub checked_add : Cents → Cents → Option Cents
checked_add a b = checked (a +ℤ b)

unfoldable pub checked_sub : Cents → Cents → Option Cents
checked_sub a b = checked (a -ℤ b)

unfoldable pub saturating_add : Cents → Cents → Cents
saturating_add a b =
    let s = a +ℤ b in if ltb_ℤ s i64_min then i64_min else if ltb_ℤ i64_max s then i64_max else s

-- `impl Add`, `impl Sub` and `impl Neg`, which panic on overflow.
unfoldable pub add : Cents → Cents → Option Cents
unfolding checked_add
add a b = checked_add a b

unfoldable pub sub : Cents → Cents → Option Cents
unfolding checked_sub
sub a b = checked_sub a b

unfoldable pub neg : Cents → Option Cents
neg a = checked (neg_ℤ a)

-- `iter().fold(acc, |acc, c| acc + c)`
unfoldable pub fold_add : Cents → List Cents → Option Cents
fold_add acc [] = some acc
fold_add acc (c ∷ cs) = add acc c >>= λ acc'. fold_add acc' cs

-- `i64::unsigned_abs`
abbrev pub unsigned_abs : Cents → ℕ
unsigned_abs c = pos_part c + neg_part c

-- The digits before the sign is put in front; `none` is the division by a scale that wrapped to 0.
format_body : ℕ → ℕ → Option Bytes
format_body mag zero = some (decimal mag)
format_body mag (suc d) =
    let scale = 10 ^ suc d % 2 ^ 64 in
    if scale == 0
    then none
    else some (decimal (mag / scale) ++ b'.' ∷ pad_zeros (suc d) (decimal (mag % scale)))

unfoldable pub format_units : Cents → ℕ → Option Bytes
unfolding format_body
format_units (pos n) minor_units = format_body n minor_units
format_units (negsuc n) minor_units = format_body (suc n) minor_units >>= λ body. some (b'-' ∷ body)
