-- ===== src/Domain/Split/Rounds.antt =====
-- The rounds of `split_by_weights` (splittr-domain/src/split.rs) that hand out the cents left over:
-- with no more rounds than shares, no share gets two cents.
use splittr.Prelude.{
  ℕ, zero, suc, ◌+◌, ◌%◌, ◌^◌, ◌≤◌, ◌<◌, ◌≡◌, ◌≢◌, refl, sym, ap, ◌∙◌, List, [], ◌∷◌, arith, some,
  none, Option, ◌⊎◌, inl, inr,
}
use mathlib.Core.Path.{subst}
use native.Mathlib.Decide.{ℕ_discrete}
use splittr.Prelude.Int.{pos, pos_part, ◌+ℤ◌, wrap_i64, wrap_i64-IsI64, int_laws}
use splittr.Prelude.Lists.{length, get_elem?}
use splittr.Prelude.Folds.{All, Apart}
use splittr.Domain.Split.{Share, add_cent, hand_out}
use splittr.Domain.Split.Floored.{NonNegative, cents}
use splittr.Domain.Split.Weighted.{add_cent-facts, get_elem?-All}

-- No index has two places in the list.
abbrev pub HasOnce : List ℕ → Type 0
HasOnce order = (a b k : ℕ) → get_elem? order a ≡ some k → get_elem? order b ≡ some k → a ≡ b

absent : (x : ℕ) (xs : List ℕ) (b : ℕ) → All (λ y. x ≢ y) xs → get_elem? xs b ≢ some x
absent x [] b h e = cc
absent x (y ∷ ys) zero h e = absurd (h.0 (ground arith))
absent x (y ∷ ys) (suc b) h e = absent x ys b h.1 e

pub Apart-HasOnce : (xs : List ℕ) → Apart ◌≢◌ xs → HasOnce xs
Apart-HasOnce [] h a b k ea eb = cc
Apart-HasOnce (x ∷ xs) h zero zero k ea eb = refl
Apart-HasOnce (x ∷ xs) h zero (suc b) k ea eb = absurd (absent x xs b h.0 (eb ∙ sym ea))
Apart-HasOnce (x ∷ xs) h (suc a) zero k ea eb = absurd (absent x xs a h.0 (ea ∙ sym eb))
Apart-HasOnce (x ∷ xs) h (suc a) (suc b) k ea eb = ap suc (Apart-HasOnce xs h.1 a b k ea eb)

-- A share is at most the sum of all.
share-le :
    (ss : List Share) (k : ℕ) (s : Share)
    → All NonNegative ss
    → get_elem? ss k ≡ some s
    → (pos_part s.floored ≤ cents ss) × NonNegative s
share-le [] k s h e = cc
share-le (x ∷ ss) zero s h e =
    let same : x ≡ s = ground arith in
    subst (λ (y : Share). (pos_part y.floored ≤ cents (x ∷ ss)) × NonNegative y) same
      (omega arith, h.0)
share-le (x ∷ ss) (suc k) s h e = let (le, n) = share-le ss k s h.1 e in (omega (arith, le), n)

abbrev one_more : Option Share → Option Share
one_more none = none
one_more (some s) = some (record s { floored = wrap_i64 (s.floored +ℤ pos 1) })

-- The share at a place after a cent for that place, and after a cent for another.
add_cent-here : (k : ℕ) (ss : List Share) → get_elem? (add_cent k ss) k ≡ one_more (get_elem? ss k)
unfolding add_cent
add_cent-here k [] = refl
add_cent-here zero (x ∷ ss) = refl
add_cent-here (suc k) (x ∷ ss) = add_cent-here k ss

add_cent-elsewhere :
    (j k : ℕ) (ss : List Share) → j ≢ k → get_elem? (add_cent j ss) k ≡ get_elem? ss k
unfolding add_cent
add_cent-elsewhere j k [] ne = refl
add_cent-elsewhere zero zero (x ∷ ss) ne = absurd (ne refl)
add_cent-elsewhere zero (suc k) (x ∷ ss) ne = refl
add_cent-elsewhere (suc j) zero (x ∷ ss) ne = refl
add_cent-elsewhere (suc j) (suc k) (x ∷ ss) ne = add_cent-elsewhere j k ss (λ e. ne (ap suc e))

-- What a share is after the rounds from `i` on: it is as it was, or has a cent more from one of
-- these rounds.
abbrev pub IsHanded : ℕ → List ℕ → ℕ → Share → Share → Type 0
IsHanded i order k s s' =
    (s'.user ≡ s.user)
    × ((s'.floored ≡ s.floored)
        ⊎ ((s'.floored ≡ s.floored +ℤ pos 1) × (m : ℕ) × (i ≤ m) × (get_elem? order m ≡ some k)))

IsHanded-before :
    (i k : ℕ) (order : List ℕ) (s s' : Share)
    → IsHanded (suc i) order k s s'
    → IsHanded i order k s s'
IsHanded-before i k order s s' (u, inl e) = (u, inl e)
IsHanded-before i k order s s' (u, inr (e, m, le, at)) = (u, inr (e, m, omega arith, at))

pub hand_out-IsHanded :
    (n i : ℕ) (order : List ℕ) (ss : List Share)
    → HasOnce order
    → i + n ≤ length order
    → All NonNegative ss
    → All (λ j. j < length ss) order
    → cents ss + n < 2 ^ 63
    → (k : ℕ) (s : Share) → get_elem? ss k ≡ some s
    → (s' : Share) × (get_elem? (hand_out n i order ss) k ≡ some s') × IsHanded i order k s s'
unfolding hand_out
hand_out-IsHanded zero i order ss once few h o small k s e = (s, e, (refl, inl refl))
hand_out-IsHanded (suc n) i order ss once few h o small k s e =
    let round : i % length order ≡ i = grind arith in
    let (j, at, inside) = get_elem?-All (λ j. j < length ss) order i o (omega arith) in
    let (keeps, more, same_length) = add_cent-facts j ss h inside (omega arith) in
    let below : All (λ j'. j' < length (add_cent j ss)) order = rw same_length o in
    rw (round, at)
      (on_place j at
        (hand_out-IsHanded n (suc i) order (add_cent j ss) once (omega arith) keeps below
          (omega (arith, more)))
        (ℕ_discrete j k))
  where
    on_place :
        (j : ℕ)
        → get_elem? order i ≡ some j
        → ((k : ℕ) (s : Share)
            → get_elem? (add_cent j ss) k ≡ some s
            → (s' : Share) × (get_elem? (hand_out n (suc i) order (add_cent j ss)) k ≡ some s')
              × IsHanded (suc i) order k s s')
        → Dec (j ≡ k)
        → (s' : Share) × (get_elem? (hand_out n (suc i) order (add_cent j ss)) k ≡ some s')
          × IsHanded i order k s s'
    on_place j at ih (no ne) =
        let (s', there, handed) = ih k s (add_cent-elsewhere j k ss ne ∙ e) in
        (s', there, IsHanded-before i k order s s' handed)
    on_place j at ih (yes p) =
        let moved =
          subst (λ q. get_elem? (add_cent q ss) k ≡ one_more (get_elem? ss k)) (sym p)
            (add_cent-here k ss) in
        let (s', there, handed) = ih k _ (moved ∙ ap one_more e) in
        (s', there, on_handed s' (at ∙ ap some p) handed)
      where
        here : Share
        here = record s { floored = wrap_i64 (s.floored +ℤ pos 1) }

        exact : wrap_i64 (s.floored +ℤ pos 1) ≡ s.floored +ℤ pos 1
        exact =
            let (le, positive) = share-le ss k s h e in
            let whole : s.floored +ℤ pos 1 ≡ pos (pos_part s.floored + 1) =
              omega (int_laws, positive) in
            rw whole (wrap_i64-IsI64 (pos (pos_part s.floored + 1)) (omega (arith, le)))

        on_handed :
            (s' : Share)
            → get_elem? order i ≡ some k
            → IsHanded (suc i) order k here s'
            → IsHanded i order k s s'
        on_handed s' at_k (u, inl e1) = (u, inr (e1 ∙ exact, i, omega arith, at_k))
        on_handed s' at_k (u, inr (e1, m, le, at_m)) =
            let twice : i ≡ m = once i m k at_k at_m in absurd (omega (arith, twice))
