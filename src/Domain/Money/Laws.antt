-- ===== src/Domain/Money/Laws.antt =====
-- Checked arithmetic of `Cents`: exact inside the range of an `i64`, and a panic outside of it.
use splittr.Prelude.{◌≡◌, some, List, [], ◌∷◌, arith, >>=-eq-some}
use splittr.Prelude.Int.{ℤ, pos, ◌+ℤ◌, ◌-ℤ◌, IsI64, int_laws}
use splittr.Domain.Money.{Cents, checked, add, sub, fold_add}

-- The sum of a list as an integer, with no bound.
abbrev pub sum : List ℤ → ℤ
sum [] = pos 0
sum (z ∷ zs) = z +ℤ sum zs

-- A result that is there is the exact value, and in range.
pub checked-eq-some : (z c : ℤ) → checked z ≡ some c → (c ≡ z) × IsI64 z
checked-eq-some z c h = ground arith

pub checked-IsI64 : (z : ℤ) → IsI64 z → checked z ≡ some z
checked-IsI64 z h = ground arith

pub add-eq-some : (a b c : Cents) → add a b ≡ some c → c ≡ a +ℤ b
unfolding add
add-eq-some a b c h = (checked-eq-some (a +ℤ b) c h).0

pub sub-eq-some : (a b c : Cents) → sub a b ≡ some c → c ≡ a -ℤ b
unfolding sub
sub-eq-some a b c h = (checked-eq-some (a -ℤ b) c h).0

pub fold_add-eq-some :
    (acc : Cents) (cs : List Cents) (c : Cents) → fold_add acc cs ≡ some c → c ≡ acc +ℤ sum cs
unfolding fold_add
fold_add-eq-some acc [] c h = grind int_laws
fold_add-eq-some acc (x ∷ xs) c h =
    let (s, added, rest) = >>=-eq-some (add acc x) (λ s. fold_add s xs) h in
    rw (fold_add-eq-some s xs c rest, add-eq-some acc x s added) (omega int_laws)
