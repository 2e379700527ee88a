-- ===== src/Prelude/Folds.antt =====
-- Folds whose steps commute do not see the order of their list.
use mathlib.Core.Path.{◌≡◌, refl, sym, ◌∙◌, ap, ap₂, subst, subst₂}
use mathlib.Core.List.{List, [], ◌∷◌, foldl, Permᴰ}

module _ {ℓ} {A : Type ℓ} where
  abbrev pub All {κ} : (A → Type κ) → List A → Type κ
  All P [] = Unit
  All P (x ∷ xs) = P x × All P xs

  -- `R` holds of every two elements at different places.
  abbrev pub Apart {κ} : (A → A → Type κ) → List A → Type κ
  Apart R [] = Unit
  Apart R (x ∷ xs) = All (R x) xs × Apart R xs

module _ {ℓ κ} {A : Type ℓ} (P : A → Type κ) where
  pub All-perm : {xs ys : List A} → Permᴰ xs ys → All P xs → All P ys
  All-perm Permᴰ.nil h = h
  All-perm (Permᴰ.cons e p) (hx, h) = (subst P e hx, All-perm p h)
  All-perm (Permᴰ.swap e d) (ha, (hb, h)) = (subst P d hb, (subst P e ha, h))
  All-perm (Permᴰ.trans p q) h = All-perm q (All-perm p h)

module _ {ℓ κ} {A : Type ℓ} (R : A → A → Type κ) (R_sym : (a b : A) → R a b → R b a) where
  pub Apart-perm : {xs ys : List A} → Permᴰ xs ys → Apart R xs → Apart R ys
  Apart-perm Permᴰ.nil h = h
  Apart-perm (Permᴰ.cons {l₂ = ys} e p) (hx, h) =
      (subst (λ a. All (R a) ys) e (All-perm _ p hx), Apart-perm p h)
  Apart-perm (Permᴰ.swap {a} {b} {l} e d) ((ab, ha), (hb, h)) = (
    (subst₂ R d e (R_sym a b ab), subst (λ x. All (R x) l) d hb),
    (subst (λ x. All (R x) l) e ha, h),
  )
  Apart-perm (Permᴰ.trans p q) h = Apart-perm q (Apart-perm p h)

  module _ {ν} {S : Type ν} (step : S → A → S)
      (commutes : (s : S) (a b : A) → R a b → step (step s a) b ≡ step (step s b) a) where
    pub foldl-perm :
        {xs ys : List A} → Permᴰ xs ys → Apart R xs → (s : S) → foldl step s xs ≡ foldl step s ys
    foldl-perm Permᴰ.nil h s = refl
    foldl-perm (Permᴰ.cons {l₁} e p) (hx, h) s =
        ap (λ a. foldl step (step s a) l₁) e ∙ foldl-perm p h (step s _)
    foldl-perm (Permᴰ.swap {a} {b} {l} e d) ((ab, ha), (hb, h)) s =
        ap (λ t. foldl step t l) (commutes s a b ab)
        ∙ ap₂ (λ x y. foldl step (step (step s x) y) l) d e
    foldl-perm (Permᴰ.trans p q) h s = foldl-perm p h s ∙ foldl-perm q (Apart-perm p h) s

module _ {ℓ ν} {A : Type ℓ} {S : Type ν} (step : S → A → S)
    (commutes : (s : S) (a b : A) → step (step s a) b ≡ step (step s b) a) where
  always-Apart : (xs : List A) → Apart (λ _ _. Unit {0}) xs
  always-Apart [] = tt
  always-Apart (x ∷ xs) = (all xs, always-Apart xs)
    where
      all : (ys : List A) → All (λ _. Unit {0}) ys
      all [] = tt
      all (y ∷ ys) = (tt, all ys)

  pub foldl-perm_always :
      {xs ys : List A} → Permᴰ xs ys → (s : S) → foldl step s xs ≡ foldl step s ys
  foldl-perm_always {xs} p =
      foldl-perm (λ _ _. Unit) (λ _ _ u. u) step (λ s a b _. commutes s a b) p (always-Apart xs)

-- The same for a function that treats its list from the right.
module _ {ℓ κ ν} {A : Type ℓ} (R : A → A → Type κ) (R_sym : (a b : A) → R a b → R b a) {S : Type ν}
    (step : A → S → S)
    (commutes : (s : S) (a b : A) → R a b → step a (step b s) ≡ step b (step a s)) (f : List A → S)
    (law : (x : A) (xs : List A) → f (x ∷ xs) ≡ step x (f xs)) where
  pub foldr-perm : {xs ys : List A} → Permᴰ xs ys → Apart R xs → f xs ≡ f ys
  foldr-perm Permᴰ.nil h = refl
  foldr-perm (Permᴰ.cons {a} {l₁ = xs} {l₂ = ys} e p) (hx, h) =
      law a xs ∙ ap (step a) (foldr-perm p h) ∙ sym (law a ys) ∙ ap (λ b. f (b ∷ ys)) e
  foldr-perm (Permᴰ.swap {a} {b} {l} e d) ((ab, ha), (hb, h)) =
      law a (b ∷ l)
      ∙ ap (step a) (law b l)
      ∙ commutes (f l) a b ab
      ∙ sym (law b (a ∷ l) ∙ ap (step b) (law a l))
      ∙ ap₂ (λ x y. f (x ∷ y ∷ l)) d e
  foldr-perm (Permᴰ.trans p q) h = foldr-perm p h ∙ foldr-perm q (Apart-perm R R_sym p h)
