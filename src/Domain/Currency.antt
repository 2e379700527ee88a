-- ===== src/Domain/Currency.antt =====
-- splittr-domain/src/currency.rs: minor units of a currency, and the integer conversion.
use splittr.Prelude.{ℕ, ◌*◌, ◌/◌, ◌^◌, Bool, false, List, [], ◌∷◌, ◌||◌, if◌then◌else◌}
use splittr.Prelude.Int.{ℤ, pos, ◌+ℤ◌, ◌*ℤ◌, neg_ℤ, leb_ℤ, quot_ℤ, wrap_i64, wrap_i128}
use splittr.Prelude.Ord.{Bytes, same, bytes_ord, cmp_bytes}
use splittr.Prelude.Text.{utf8, to_ascii_uppercase}
use splittr.Domain.Money.{Cents}

pub record OriginalAmount : Type 0 where
  pub currency : Bytes
  pub amount : Cents
  pub rate_micro : ℕ

one_of : Bytes → List Bytes → Bool
unfolding cmp_bytes
one_of code [] = false
one_of code (c ∷ cs) = same code c || one_of code cs

unfoldable pub minor_units : Bytes → ℕ
unfolding one_of
minor_units code =
    let upper = to_ascii_uppercase code in
    if one_of upper (
      utf8 "JPY" ∷ utf8 "KRW" ∷ utf8 "CLP" ∷ utf8 "ISK" ∷ utf8 "VND" ∷ utf8 "XAF" ∷ utf8 "XOF" ∷ [])
    then 0
    else if one_of upper (
        utf8 "BHD"
        ∷ utf8 "KWD"
        ∷ utf8 "OMR"
        ∷ utf8 "TND"
        ∷ utf8 "IQD"
        ∷ utf8 "JOD"
        ∷ utf8 "LYD"
        ∷ [])
    then 3
    else 2

-- The divisor is positive; the arithmetic is that of `i128`.
unfoldable pub round_div : ℤ → ℕ → ℤ
round_div num den =
    let half = pos (den / 2) in
    if leb_ℤ (pos 0) num
    then quot_ℤ (wrap_i128 (num +ℤ half)) den
    else neg_ℤ (quot_ℤ (wrap_i128 (wrap_i128 (neg_ℤ num) +ℤ half)) den)

unfoldable pub convert : Cents → ℕ → ℕ → ℕ → Cents
convert amount rate_micro from_minor to_minor =
    let num = wrap_i128 (wrap_i128 (amount *ℤ pos rate_micro) *ℤ pos (10 ^ to_minor)) in
    let den = 1_000_000 * 10 ^ from_minor in wrap_i64 (round_div num den)
