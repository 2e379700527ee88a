-- ===== src/Prelude/Ord.antt =====
-- `Ord` of the Rust standard library: a lawful three-way comparison, with the instances for
-- numbers, byte strings and tuples that the keys of the program's maps are built from.
use Prim.Native.Nat.{ℕ, compare, Ordering}
use Prim.Native.Nat.Ordering.{lt, eq, gt}
use mathlib.Core.Path.{◌≡◌, refl}
use mathlib.Core.Bool.{Bool, true, false}
use mathlib.Core.List.{List, [], ◌∷◌}
use native.Mathlib.Omega.{arith}

abbrev pub flip : Ordering → Ordering
flip lt = gt
flip eq = eq
flip gt = lt

-- `Ordering::then`
abbrev pub then_with : Ordering → Ordering → Ordering
then_with eq second = second
then_with first _ = first

pub record Ord {ℓ} (K : Type ℓ) : Type ℓ where
  pub cmp : K → K → Ordering
  pub cmp_self : (a : K) → cmp a a ≡ eq
  pub eq_of_cmp : (a b : K) → cmp a b ≡ eq → a ≡ b
  pub cmp_flip : (a b : K) → cmp b a ≡ flip (cmp a b)
  pub lt_trans : (a b c : K) → cmp a b ≡ lt → cmp b c ≡ lt → cmp a c ≡ lt

module _ {ℓ} {K : Type ℓ} ⦃o : Ord K⦄ where
  -- `a == b`
  abbrev pub same : K → K → Bool
  same a b = elim (o.cmp a b) [ eq ↦ true | _ ↦ false ]

  -- `a < b`
  abbrev pub less : K → K → Bool
  less a b = elim (o.cmp a b) [ lt ↦ true | _ ↦ false ]

  -- `a <= b`
  abbrev pub at_most : K → K → Bool
  at_most a b = elim (o.cmp a b) [ gt ↦ false | _ ↦ true ]

pub compare_self : (a : ℕ) → compare a a ≡ eq
compare_self a = ground arith

pub eq_of_compare : (a b : ℕ) → compare a b ≡ eq → a ≡ b
eq_of_compare a b = ground arith

pub compare-flip : (a b : ℕ) → compare b a ≡ flip (compare a b)
compare-flip a b = ground arith

pub compare_trans : (a b c : ℕ) → compare a b ≡ lt → compare b c ≡ lt → compare a c ≡ lt
compare_trans a b c = ground arith

instance abbrev pub nat_ord : Ord ℕ
nat_ord = record {
  cmp = compare;
  cmp_self = compare_self;
  eq_of_cmp = eq_of_compare;
  cmp_flip = compare-flip;
  lt_trans = compare_trans;
}

module _ {ℓ κ} {A : Type ℓ} {B : Type κ} ⦃a : Ord A⦄ ⦃b : Ord B⦄ where
  abbrev pub cmp_pair : A × B → A × B → Ordering
  cmp_pair x y = then_with (a.cmp x.0 y.0) (b.cmp x.1 y.1)

  pub pair_self : (x : A × B) → cmp_pair x x ≡ eq
  pair_self x = simp (a.cmp_self, b.cmp_self)

  pub eq_of_pair : (x y : A × B) → cmp_pair x y ≡ eq → x ≡ y
  eq_of_pair x y = ground (arith, a.eq_of_cmp x.0 y.0, b.eq_of_cmp x.1 y.1)

  pub pair_flip : (x y : A × B) → cmp_pair y x ≡ flip (cmp_pair x y)
  pair_flip x y = ground (arith, a.cmp_flip x.0 y.0, b.cmp_flip x.1 y.1)

  pub pair_trans : (x y z : A × B) → cmp_pair x y ≡ lt → cmp_pair y z ≡ lt → cmp_pair x z ≡ lt
  pair_trans x y z = grind (arith, a.eq_of_cmp x.0 y.0, a.eq_of_cmp y.0 z.0, a.lt_trans, b.lt_trans)

  -- Tuples compare lexicographically.
  instance abbrev pub pair_ord : Ord (A × B)
  pair_ord = record {
    cmp = cmp_pair;
    cmp_self = pair_self;
    eq_of_cmp = eq_of_pair;
    cmp_flip = pair_flip;
    lt_trans = pair_trans;
  }

-- The bytes of a `String` or of a `[u8; 32]`.
abbrev pub Bytes : Type 0
Bytes = List ℕ

unfoldable pub cmp_bytes : Bytes → Bytes → Ordering
cmp_bytes [] [] = eq
cmp_bytes [] (_ ∷ _) = lt
cmp_bytes (_ ∷ _) [] = gt
cmp_bytes (x ∷ xs) (y ∷ ys) = then_with (compare x y) (cmp_bytes xs ys)

pub bytes_self : (a : Bytes) → cmp_bytes a a ≡ eq
unfolding cmp_bytes
bytes_self [] = refl
bytes_self (x ∷ xs) = ground (arith, bytes_self xs)

pub eq_of_bytes : (a b : Bytes) → cmp_bytes a b ≡ eq → a ≡ b
unfolding cmp_bytes
eq_of_bytes [] [] h = refl
eq_of_bytes [] (y ∷ ys) h = ground arith
eq_of_bytes (x ∷ xs) [] h = ground arith
eq_of_bytes (x ∷ xs) (y ∷ ys) h = ground (arith, eq_of_bytes xs ys)

pub bytes_flip : (a b : Bytes) → cmp_bytes b a ≡ flip (cmp_bytes a b)
unfolding cmp_bytes
bytes_flip [] [] = refl
bytes_flip [] (y ∷ ys) = refl
bytes_flip (x ∷ xs) [] = refl
bytes_flip (x ∷ xs) (y ∷ ys) = ground (arith, bytes_flip xs ys)

pub bytes_trans : (a b c : Bytes) → cmp_bytes a b ≡ lt → cmp_bytes b c ≡ lt → cmp_bytes a c ≡ lt
unfolding cmp_bytes
bytes_trans [] [] c h k = ground arith
bytes_trans (x ∷ xs) [] c h k = ground arith
bytes_trans [] (y ∷ ys) [] h k = ground arith
bytes_trans [] (y ∷ ys) (z ∷ zs) h k = refl
bytes_trans (x ∷ xs) (y ∷ ys) [] h k = ground arith
bytes_trans (x ∷ xs) (y ∷ ys) (z ∷ zs) h k = ground (arith, bytes_trans xs ys zs)

instance abbrev pub bytes_ord : Ord Bytes
bytes_ord = record {
  cmp = cmp_bytes;
  cmp_self = bytes_self;
  eq_of_cmp = eq_of_bytes;
  cmp_flip = bytes_flip;
  lt_trans = bytes_trans;
}

pub dual_eq {ℓ} : {K : Type ℓ} (o : Ord K) (a b : K) → o.cmp b a ≡ eq → o.cmp a b ≡ eq
dual_eq o a b h = ground (arith, o.cmp_flip b a)

-- The order turned round.
abbrev pub dual {ℓ} : {K : Type ℓ} → Ord K → Ord K
dual o = record {
  cmp = λ a b. o.cmp b a;
  cmp_self = o.cmp_self;
  eq_of_cmp = λ a b h. o.eq_of_cmp a b (dual_eq o a b h);
  cmp_flip = λ a b. o.cmp_flip b a;
  lt_trans = λ a b c h k. o.lt_trans c b a k h;
}
