-- ===== src/Prelude/Lists.antt =====
-- Lists measured and indexed by native numbers, under the library's names, and the stable sort of
-- the Rust standard library.
use splittr.Prelude.{
  ℕ, zero, suc, ◌≡◌, refl, Option, none, some, Bool, true, false, List, [], ◌∷◌, arith,
  if◌then◌else◌, Ordering,
}
use splittr.Prelude.Folds.{All}
use Prim.Native.Nat.Ordering.{lt, eq, gt}

module _ {ℓ} {A : Type ℓ} where
  abbrev pub length : List A → ℕ
  length [] = 0
  length (x ∷ xs) = suc (length xs)

  abbrev pub get_elem? : List A → ℕ → Option A
  get_elem? [] i = none
  get_elem? (x ∷ xs) zero = some x
  get_elem? (x ∷ xs) (suc i) = get_elem? xs i

  -- `iter().filter(..)`
  abbrev pub filter_by : (A → Bool) → List A → List A
  filter_by p [] = []
  filter_by p (x ∷ xs) = if p x then x ∷ filter_by p xs else filter_by p xs

  -- `iter().all(..)`
  abbrev pub all_of : (A → Bool) → List A → Bool
  all_of p [] = true
  all_of p (x ∷ xs) = if p x then all_of p xs else false

  -- One step of a stable sort: `x` goes before the first element that is not less than it.
  unfoldable pub insert_by : (A → A → Ordering) → A → List A → List A
  insert_by cmp x [] = x ∷ []
  insert_by cmp x (y ∷ ys) = elim (cmp x y) [
    | gt ↦ y ∷ insert_by cmp x ys
    | eq ↦ x ∷ y ∷ ys
    | lt ↦ x ∷ y ∷ ys
  ]

  -- `sort_by`
  unfoldable pub sort_by : (A → A → Ordering) → List A → List A
  unfolding insert_by
  sort_by cmp [] = []
  sort_by cmp (x ∷ xs) = insert_by cmp x (sort_by cmp xs)

  module _ (cmp : A → A → Ordering) where
    pub length-insert_by : (x : A) (ys : List A) → length (insert_by cmp x ys) ≡ suc (length ys)
    unfolding insert_by
    length-insert_by x [] = refl
    length-insert_by x (y ∷ ys) = ground (arith, length-insert_by x ys)

    pub length-sort_by : (xs : List A) → length (sort_by cmp xs) ≡ length xs
    unfolding sort_by
    length-sort_by [] = refl
    length-sort_by (x ∷ xs) = ground (arith, length-insert_by x (sort_by cmp xs), length-sort_by xs)

    module _ {κ} (P : A → Type κ) where
      All-insert_by : (x : A) (ys : List A) → P x → All P ys → All P (insert_by cmp x ys)
      unfolding insert_by
      All-insert_by x [] p h = (p, tt)
      All-insert_by x (y ∷ ys) p h = ground (arith, All-insert_by x ys p)

      pub All-sort_by : (xs : List A) → All P xs → All P (sort_by cmp xs)
      unfolding sort_by
      All-sort_by [] h = tt
      All-sort_by (x ∷ xs) h = All-insert_by x (sort_by cmp xs) h.0 (All-sort_by xs h.1)
