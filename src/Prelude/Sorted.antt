-- ===== src/Prelude/Sorted.antt =====
-- What the stable sort of the Rust standard library gives: the same elements, in order.
use splittr.Prelude.{
  Bool, true, ◌≡◌, ◌≢◌, refl, ap, ◌∙◌, arith, List, [], ◌∷◌, Ordering, if◌then◌else◌,
}
use Prim.Native.Nat.Ordering.{lt, eq, gt}
use mathlib.Core.List.{Permᴰ}
use mathlib.Core.List.Permᴰ
use splittr.Prelude.Lists.{insert_by, sort_by, filter_by}

module _ {A : Type 0} (cmp : A → A → Ordering) where
  -- No element is greater than the one after it.
  abbrev pub IsOrdered : List A → Type 0
  IsOrdered [] = Unit
  IsOrdered (x ∷ []) = Unit
  IsOrdered (x ∷ y ∷ ys) = (cmp x y ≢ gt) × IsOrdered (y ∷ ys)

  module _ (total : (x y : A) → cmp x y ≡ gt → cmp y x ≢ gt) where
    tail-IsOrdered : (x : A) (xs : List A) → IsOrdered (x ∷ xs) → IsOrdered xs
    tail-IsOrdered x [] h = tt
    tail-IsOrdered x (y ∷ ys) h = h.1

    -- In front of an ordered list of which the first, if any, is not less.
    insert_by-after :
        (w x : A) (ys : List A)
        → cmp w x ≢ gt
        → IsOrdered (w ∷ ys)
        → IsOrdered (insert_by cmp x ys)
        → IsOrdered (w ∷ insert_by cmp x ys)
    unfolding insert_by
    insert_by-after w x [] below h k = (below, tt)
    insert_by-after w x (y ∷ ys) below h k = split (cmp x y) k
      where
        split :
            (c : Ordering)
            → IsOrdered (elim c [ gt ↦ y ∷ insert_by cmp x ys | eq ↦ x ∷ y ∷ ys | lt ↦ x ∷ y ∷ ys ])
            → IsOrdered
                (w ∷ (elim c [ gt ↦ y ∷ insert_by cmp x ys | eq ↦ x ∷ y ∷ ys | lt ↦ x ∷ y ∷ ys ]))
        split lt o = (below, o)
        split eq o = (below, o)
        split gt o = (h.0, o)

    insert_by-IsOrdered : (x : A) (ys : List A) → IsOrdered ys → IsOrdered (insert_by cmp x ys)
    unfolding insert_by
    insert_by-IsOrdered x [] h = tt
    insert_by-IsOrdered x (y ∷ ys) h =
        split (cmp x y) refl (insert_by-IsOrdered x ys (tail-IsOrdered y ys h))
      where
        split :
            (c : Ordering)
            → cmp x y ≡ c
            → IsOrdered (insert_by cmp x ys)
            → IsOrdered (elim c [ gt ↦ y ∷ insert_by cmp x ys | eq ↦ x ∷ y ∷ ys | lt ↦ x ∷ y ∷ ys ])
        split lt e rest = ((λ g. absurd (cc)), h)
        split eq e rest = ((λ g. absurd (cc)), h)
        split gt e rest = insert_by-after y x ys (total x y e) h rest

    pub sort_by-IsOrdered : (xs : List A) → IsOrdered (sort_by cmp xs)
    unfolding sort_by
    sort_by-IsOrdered [] = tt
    sort_by-IsOrdered (x ∷ xs) = insert_by-IsOrdered x (sort_by cmp xs) (sort_by-IsOrdered xs)

  insert_by-Permᴰ : (x : A) (ys : List A) → Permᴰ (x ∷ ys) (insert_by cmp x ys)
  unfolding insert_by
  insert_by-Permᴰ x [] = Permᴰ.refl (x ∷ [])
  insert_by-Permᴰ x (y ∷ ys) = split (cmp x y) (insert_by-Permᴰ x ys)
    where
      split :
          (c : Ordering)
          → Permᴰ (x ∷ ys) (insert_by cmp x ys)
          → Permᴰ
              (x ∷ y ∷ ys)
              (elim c [ gt ↦ y ∷ insert_by cmp x ys | eq ↦ x ∷ y ∷ ys | lt ↦ x ∷ y ∷ ys ])
      split lt rest = Permᴰ.refl (x ∷ y ∷ ys)
      split eq rest = Permᴰ.refl (x ∷ y ∷ ys)
      split gt rest = Permᴰ.trans (Permᴰ.swap refl refl) (Permᴰ.cons refl rest)

  pub sort_by-Permᴰ : (xs : List A) → Permᴰ xs (sort_by cmp xs)
  unfolding sort_by
  sort_by-Permᴰ [] = Permᴰ.nil
  sort_by-Permᴰ (x ∷ xs) =
      Permᴰ.trans (Permᴰ.cons refl (sort_by-Permᴰ xs)) (insert_by-Permᴰ x (sort_by cmp xs))

-- A relation holds of each two neighbours.
abbrev pub Neighbours : {A : Type 0} → (A → A → Type 0) → List A → Type 0
Neighbours R [] = Unit
Neighbours R (x ∷ []) = Unit
Neighbours R (x ∷ y ∷ ys) = R x y × Neighbours R (y ∷ ys)

pub IsOrdered-Neighbours :
    {A : Type 0} (cmp : A → A → Ordering) (R : A → A → Type 0)
    → ((x y : A) → cmp x y ≢ gt → R x y)
    → (xs : List A) → IsOrdered cmp xs
    → Neighbours R xs
IsOrdered-Neighbours cmp R holds [] h = tt
IsOrdered-Neighbours cmp R holds (x ∷ []) h = tt
IsOrdered-Neighbours cmp R holds (x ∷ y ∷ ys) h =
    (holds x y h.0, IsOrdered-Neighbours cmp R holds (y ∷ ys) h.1)

-- The sort is stable: elements of a class, none of which is greater than another, keep their order.
module _ {A : Type 0} (cmp : A → A → Ordering) (p : A → Bool)
    (tied : (x y : A) → p x ≡ true → p y ≡ true → cmp x y ≢ gt) where
  insert_by-stable : (x : A) (ys : List A) → filter_by p (insert_by cmp x ys) ≡ filter_by p (x ∷ ys)
  unfolding insert_by
  insert_by-stable x [] = refl
  insert_by-stable x (y ∷ ys) = ground (arith, insert_by-stable x ys, tied x y)

  pub sort_by-stable : (xs : List A) → filter_by p (sort_by cmp xs) ≡ filter_by p xs
  unfolding sort_by
  sort_by-stable [] = refl
  sort_by-stable (x ∷ xs) =
      insert_by-stable x (sort_by cmp xs) ∙ ap (λ l. if p x then x ∷ l else l) (sort_by-stable xs)
