-- ===== src/App/Fields.antt =====
-- splittr-app/src/app.rs: `build_fields`, which validates the editable content of an expense.
use splittr.Prelude.{
  suc, Bool, true, false, Option, some, List, [], ◌∷◌, ◌++◌, ◌≡◌, refl, arith, Result, ok, err,
  if◌then◌else◌, ◌>>=◌, >>=-eq-some, ◌⊎◌, inl, inr,
}
use mathlib.Core.Path.{subst}
use splittr.Prelude.Int.{ℤ, pos, negsuc, leb_ℤ, ◌<ℤ◌, ◌+ℤ◌, wrap_i64, int_ord}
use splittr.Prelude.Ord.{Bytes, same}
use splittr.Prelude.Text.{utf8, decimal}
use splittr.BTree.{BTreeMap, values}
use splittr.Domain.Ids.{UserId}
use splittr.Domain.Money.{Cents}
use splittr.Domain.Currency.{OriginalAmount}
use splittr.Domain.Split.{Split, SplitPlan, SplitError, empty, zero_weight, unbalanced, compute}
use splittr.Domain.Expense.{ExpenseFields, new_fields, is_balanced}
use splittr.App.Error.{AppError, validation}

pub record ExpenseFieldsInput : Type 0 where
  pub description : Bytes
  pub paid_by : BTreeMap UserId Cents
  pub total : Cents
  pub split : SplitPlan
  pub category : Bytes
  pub notes : Option Bytes
  pub date_ms : ℤ
  pub original : Option OriginalAmount

-- `paid_by.values().map(|c| c.0).sum()`, which wraps around.
unfoldable pub wrapping_sum : List Cents → ℤ
wrapping_sum [] = pos 0
wrapping_sum (c ∷ cs) = wrap_i64 (c +ℤ wrapping_sum cs)

abbrev pub fields_of : ExpenseFieldsInput → List Split → ExpenseFields
fields_of input splits = record (new_fields input.paid_by input.total splits) {
  description = input.description;
  category = input.category;
  notes = input.notes;
  date_ms = input.date_ms;
  original = input.original;
}

abbrev pub is_empty : BTreeMap UserId Cents → Bool
is_empty [] = true
is_empty (_ ∷ _) = false

-- An `i64` as text.
abbrev pub show_i64 : ℤ → Bytes
show_i64 (pos n) = decimal n
show_i64 (negsuc n) = b'-' ∷ decimal (suc n)

-- `SplitError::to_string`
unfoldable pub describe : SplitError → Bytes
describe empty = utf8 "no participants"
describe zero_weight = utf8 "weights must not all be zero"
describe (unbalanced expected actual) =
    utf8 "amounts sum to " ++ show_i64 actual ++ utf8 " but the total is " ++ show_i64 expected

unfoldable pub unequal : ℤ → ℤ → Bytes
unequal paid total =
    utf8 "payments ("
    ++ show_i64 paid
    ++ utf8 ") must equal the total ("
    ++ show_i64 total
    ++ utf8 ")"

-- The last test, on the fields assembled.
abbrev pub balanced_or_refused : ExpenseFields → Bool → Result AppError ExpenseFields
balanced_or_refused f true = ok f
balanced_or_refused f false = err (validation (utf8 "splits must sum to the total"))

abbrev pub from_splits :
    ExpenseFieldsInput → Result SplitError (List Split) → Option (Result AppError ExpenseFields)
from_splits input (err e) = some (err (validation (describe e)))
from_splits input (ok splits) = is_balanced (fields_of input splits) >>= λ balanced.
    some (balanced_or_refused (fields_of input splits) balanced)

-- `none` is a panic of `Cents` arithmetic on overflow.
unfoldable pub build_fields : ExpenseFieldsInput → Option (Result AppError ExpenseFields)
build_fields input =
    let paid = wrapping_sum (values input.paid_by) in
    if leb_ℤ input.total (pos 0)
    then some (err (validation (utf8 "total must be positive")))
    else if is_empty input.paid_by
    then some (err (validation (utf8 "an expense needs a payer")))
    else if same paid input.total
    then (compute input.split input.total >>= λ splits. from_splits input splits)
    else some (err (validation (unequal paid input.total)))

-- What is asked of accepted content.
abbrev pub IsAccepted : ExpenseFieldsInput → ExpenseFields → Type 0
IsAccepted input f =
    (is_balanced f ≡ some true)
    × (compute input.split input.total ≡ some (ok f.splits))
    × (f.total ≡ input.total)
    × (f.paid_by ≡ input.paid_by)
    × (f.description ≡ input.description)
    × (f.category ≡ input.category)
    × (f.notes ≡ input.notes)
    × (f.date_ms ≡ input.date_ms)
    × (f.original ≡ input.original)

on_balanced :
    (input : ExpenseFieldsInput) (f g : ExpenseFields) (b : Bool)
    → IsAccepted input g ⊎ (b ≡ false)
    → some (balanced_or_refused g b) ≡ some (ok f)
    → IsAccepted input f
on_balanced input f g false a h = cc
on_balanced input f g true (inr e) h = cc
on_balanced input f g true (inl a) h = subst (IsAccepted input) (same_fields h) a
  where
    same_fields : some (balanced_or_refused g true) ≡ some (ok f) → g ≡ f
    same_fields e = ground arith

from_splits-IsAccepted :
    (input : ExpenseFieldsInput) (f : ExpenseFields) (r : Result SplitError (List Split))
    → compute input.split input.total ≡ some r
    → from_splits input r ≡ some (ok f)
    → IsAccepted input f
from_splits-IsAccepted input f (err e) computed h = cc
from_splits-IsAccepted input f (ok splits) computed h =
    let (b, tested, rest) =
      >>=-eq-some (is_balanced (fields_of input splits))
        (λ (balanced : Bool). some (balanced_or_refused (fields_of input splits) balanced)) h in
    on_balanced input f (fields_of input splits) b (on_test b tested) rest
  where
    on_test :
        (b : Bool)
        → is_balanced (fields_of input splits) ≡ some b
        → IsAccepted input (fields_of input splits) ⊎ (b ≡ false)
    on_test true e = inl (e, computed, refl, refl, refl, refl, refl, refl, refl)
    on_test false e = inr refl

-- Content that `build_fields` accepts passes the test `is_balanced` and has a positive total. Its
-- splits are what `compute` gives for the plan and the total of the input; its total, payments,
-- description, category, notes, date and original amount are those of the input.
pub build_fields-IsAccepted :
    (input : ExpenseFieldsInput) (f : ExpenseFields)
    → build_fields input ≡ some (ok f)
    → (pos 0 <ℤ input.total) × IsAccepted input f
unfolding build_fields
build_fields-IsAccepted input f h =
    on_tests (leb_ℤ input.total (pos 0)) (is_empty input.paid_by)
      (same (wrapping_sum (values input.paid_by)) input.total) refl h
  where
    after : Bool → Bool → Bool → Option (Result AppError ExpenseFields)
    after low nobody exact =
        if low
        then some (err (validation (utf8 "total must be positive")))
        else if nobody
        then some (err (validation (utf8 "an expense needs a payer")))
        else if exact
        then (compute input.split input.total >>= λ splits. from_splits input splits)
        else some (err (validation (unequal (wrapping_sum (values input.paid_by)) input.total)))

    on_tests :
        (low nobody exact : Bool)
        → leb_ℤ input.total (pos 0) ≡ low
        → after low nobody exact ≡ some (ok f)
        → (pos 0 <ℤ input.total) × IsAccepted input f
    on_tests true nobody exact e h = cc
    on_tests false true exact e h = cc
    on_tests false false false e h = cc
    on_tests false false true e h =
        let (r, computed, rest) =
          >>=-eq-some (compute input.split input.total)
            (λ (splits : Result SplitError (List Split)). from_splits input splits) h in
        (ground arith, from_splits-IsAccepted input f r computed rest)
