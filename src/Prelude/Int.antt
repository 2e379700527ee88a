-- ===== src/Prelude/Int.antt =====
-- Signed integers over the native numbers, the ranges of the machine integers, and the wrap-around
-- of an arithmetic result to a signed width.
use splittr.Prelude.{
  ℕ, suc, ◌+◌, ◌-◌, ◌*◌, ◌/◌, ◌%◌, ◌^◌, ◌≤◌, ◌<◌, ◌≡◌, ◌≢◌, refl, Bool, true, false, ◌&&◌, Option,
  none, some, arith, ltb, leb, if◌then◌else◌, Ordering, List, [], ◌∷◌,
}
use splittr.Prelude.Ord.{Ord, flip}
use Prim.Native.Nat.{compare}
use Prim.Native.Nat.Ordering.{lt, eq}

-- `negsuc n` is -(n + 1).
pub data ℤ : Type 0 where
  pos : ℕ → ℤ
  negsuc : ℕ → ℤ

abbrev pub pos_part : ℤ → ℕ
pos_part (pos n) = n
pos_part (negsuc _) = 0

abbrev pub neg_part : ℤ → ℕ
neg_part (pos _) = 0
neg_part (negsuc n) = suc n

-- The integer a - b.
abbrev pub sub_ℕ : ℕ → ℕ → ℤ
sub_ℕ a b = if leb b a then pos (a - b) else negsuc (b - a - 1)

infixl 65 ◌+ℤ◌ ◌-ℤ◌
infixl 70 ◌*ℤ◌
infix 50 ◌≤ℤ◌ ◌<ℤ◌
unfoldable pub ◌+ℤ◌ : ℤ → ℤ → ℤ
a +ℤ b = sub_ℕ (pos_part a + pos_part b) (neg_part a + neg_part b)

unfoldable pub ◌-ℤ◌ : ℤ → ℤ → ℤ
a -ℤ b = sub_ℕ (pos_part a + neg_part b) (neg_part a + pos_part b)

unfoldable pub ◌*ℤ◌ : ℤ → ℤ → ℤ
a *ℤ b =
    sub_ℕ (pos_part a * pos_part b + neg_part a * neg_part b)
      (pos_part a * neg_part b + neg_part a * pos_part b)

unfoldable pub neg_ℤ : ℤ → ℤ
neg_ℤ a = sub_ℕ (neg_part a) (pos_part a)

abbrev pub ◌≤ℤ◌ : ℤ → ℤ → Type 0
a ≤ℤ b = pos_part a + neg_part b ≤ pos_part b + neg_part a

abbrev pub ◌<ℤ◌ : ℤ → ℤ → Type 0
a <ℤ b = pos_part a + neg_part b < pos_part b + neg_part a

abbrev pub cmp_ℤ : ℤ → ℤ → Ordering
cmp_ℤ a b = compare (pos_part a + neg_part b) (pos_part b + neg_part a)

abbrev pub ltb_ℤ : ℤ → ℤ → Bool
ltb_ℤ a b = ltb (pos_part a + neg_part b) (pos_part b + neg_part a)

abbrev pub leb_ℤ : ℤ → ℤ → Bool
leb_ℤ a b = leb (pos_part a + neg_part b) (pos_part b + neg_part a)

abbrev pub is_zero_ℤ : ℤ → Bool
is_zero_ℤ (pos n) = leb n 0
is_zero_ℤ (negsuc _) = false

-- `a / n` and `a % n` of Rust, for a positive `n`: the quotient is rounded towards zero.
abbrev pub quot_ℤ : ℤ → ℕ → ℤ
quot_ℤ (pos a) n = pos (a / n)
quot_ℤ (negsuc a) n = sub_ℕ 0 (suc a / n)

abbrev pub rem_ℤ : ℤ → ℕ → ℤ
rem_ℤ (pos a) n = pos (a % n)
rem_ℤ (negsuc a) n = sub_ℕ 0 (suc a % n)

-- `a.div_euclid(n)` for a positive `n`: the quotient is rounded down.
abbrev pub div_euclid : ℤ → ℕ → ℤ
div_euclid (pos a) n = pos (a / n)
div_euclid (negsuc a) n = negsuc (a / n)

-- The value of a result kept in a signed integer of range -half ≤ z < half.
unfoldable pub wrap : ℕ → ℤ → ℤ
wrap half z =
    let u = (pos_part z + (2 * half - neg_part z % (2 * half))) % (2 * half) in
    if ltb u half then pos u else negsuc (2 * half - 1 - u)

abbrev pub wrap_i64 : ℤ → ℤ
wrap_i64 = wrap (2 ^ 63)

abbrev pub wrap_i128 : ℤ → ℤ
wrap_i128 = wrap (2 ^ 127)

-- A `u128` from an `i128`.
abbrev pub as_u128 : ℤ → ℕ
as_u128 z = (pos_part z + (2 ^ 128 - neg_part z % 2 ^ 128)) % 2 ^ 128

abbrev pub IsI64 : ℤ → Type 0
IsI64 z = (pos_part z < 2 ^ 63) × (neg_part z ≤ 2 ^ 63)

abbrev pub in_i64 : ℤ → Bool
in_i64 z = ltb (pos_part z) (2 ^ 63) && leb (neg_part z) (2 ^ 63)

pub wrap_i64-IsI64 : (z : ℤ) → IsI64 z → wrap_i64 z ≡ z
unfolding wrap
wrap_i64-IsI64 z h = ground arith

pub wrap_i128-small : (z : ℤ) → pos_part z < 2 ^ 127 → neg_part z ≤ 2 ^ 127 → wrap_i128 z ≡ z
unfolding wrap
wrap_i128-small z h k = ground arith

pub +ℤ_parts :
    (a b : ℤ)
    → pos_part (a +ℤ b) + neg_part a + neg_part b ≡ neg_part (a +ℤ b) + pos_part a + pos_part b
unfolding ◌+ℤ◌
+ℤ_parts a b = ground arith

pub -ℤ_parts :
    (a b : ℤ)
    → pos_part (a -ℤ b) + neg_part a + pos_part b ≡ neg_part (a -ℤ b) + pos_part a + neg_part b
unfolding ◌-ℤ◌
-ℤ_parts a b = ground arith

pub neg_ℤ_parts : (a : ℤ) → pos_part (neg_ℤ a) + pos_part a ≡ neg_part (neg_ℤ a) + neg_part a
unfolding neg_ℤ
neg_ℤ_parts a = ground arith

pub eq_of_parts : (a b : ℤ) → pos_part a + neg_part b ≡ pos_part b + neg_part a → a ≡ b
eq_of_parts a b h = ground arith

-- With these `omega` and `grind` work with the operations shut.
pub ruleset int_laws = (arith, +ℤ_parts, -ℤ_parts, neg_ℤ_parts, eq_of_parts)

-- One of the parts of an integer is zero.
pub one_part : (a : ℤ) → (pos_part a ≡ 0 → ⊥) → neg_part a ≡ 0
one_part a h = ground arith

pub *ℤ-suc : (a : ℤ) (n : ℕ) → a *ℤ pos (suc n) ≡ a +ℤ a *ℤ pos n
unfolding ◌*ℤ◌ ◌+ℤ◌
*ℤ-suc (pos a) n = ground arith
*ℤ-suc (negsuc a) n = ground arith

pub int_self : (a : ℤ) → cmp_ℤ a a ≡ eq
int_self a = ground arith

pub eq_of_int : (a b : ℤ) → cmp_ℤ a b ≡ eq → a ≡ b
eq_of_int a b = ground arith

pub int_flip : (a b : ℤ) → cmp_ℤ b a ≡ flip (cmp_ℤ a b)
int_flip a b = ground arith

pub int_trans : (a b c : ℤ) → cmp_ℤ a b ≡ lt → cmp_ℤ b c ≡ lt → cmp_ℤ a c ≡ lt
int_trans a b c = ground arith

instance abbrev pub int_ord : Ord ℤ
int_ord = record {
  cmp = cmp_ℤ;
  cmp_self = int_self;
  eq_of_cmp = eq_of_int;
  cmp_flip = int_flip;
  lt_trans = int_trans;
}
