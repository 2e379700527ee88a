-- ===== src/Domain/Debt/Settle.antt =====
-- The loop of `simplify_debts` (splittr-domain/src/debt.rs) over positive amounts: what each party
-- pays and receives, and how many payments there are.
use splittr.Prelude.{
  ℕ, zero, suc, ◌+◌, ◌-◌, ◌^◌, ◌≤◌, ◌<◌, ◌≡◌, refl, List, [], ◌∷◌, arith, if◌then◌else◌,
}
use Prim.Native.Nat.{min}
use splittr.Prelude.Int.{ℤ, pos, negsuc, pos_part, ◌-ℤ◌, wrap_i64, wrap}
use splittr.Prelude.Ord.{same, bytes_ord}
use splittr.Prelude.Lists.{length}
use splittr.Prelude.Folds.{All}
use splittr.Domain.Ids.{UserId}
use splittr.Domain.Debt.{Transfer, min_ℤ, advance, settle}

-- A positive amount in the range of an `i64`.
abbrev pub IsDue : UserId × ℤ → Type 0
IsDue (_, z) = (0 < pos_part z) × (pos_part z < 2 ^ 63)

abbrev pub total_due : List (UserId × ℤ) → ℕ
total_due [] = 0
total_due ((_, z) ∷ l) = pos_part z + total_due l

-- What is listed for one user.
abbrev pub due_of : UserId → List (UserId × ℤ) → ℕ
due_of q [] = 0
due_of q ((u, z) ∷ l) = (if same q u then pos_part z else 0) + due_of q l

abbrev pub paid_by_user : UserId → List Transfer → ℕ
paid_by_user q [] = 0
paid_by_user q (t ∷ ts) = (if same q t.from then pos_part t.amount else 0) + paid_by_user q ts

abbrev pub received_by : UserId → List Transfer → ℕ
received_by q [] = 0
received_by q (t ∷ ts) = (if same q t.to then pos_part t.amount else 0) + received_by q ts

abbrev pub total_moved : List Transfer → ℕ
total_moved [] = 0
total_moved (t ∷ ts) = pos_part t.amount + total_moved ts

left_of_debt : (a b : ℕ) → a < 2 ^ 63 → wrap_i64 (pos a -ℤ min_ℤ (pos a) (pos b)) ≡ pos (a - b)
unfolding wrap ◌-ℤ◌
left_of_debt a b h = ground arith

left_of_credit : (a b : ℕ) → b < 2 ^ 63 → wrap_i64 (pos b -ℤ min_ℤ (pos a) (pos b)) ≡ pos (b - a)
unfolding wrap ◌-ℤ◌
left_of_credit a b h = ground arith

-- One round on positive amounts.
settle_step :
    (fuel : ℕ) (u v : UserId) (a b : ℕ) (ds cs : List (UserId × ℤ))
    → IsDue (u, pos a)
    → IsDue (v, pos b)
    → settle (suc fuel) ((u, pos a) ∷ ds) ((v, pos b) ∷ cs)
      ≡ record { from = u; to = v; amount = pos (min a b) }
        ∷ settle fuel (advance u (pos (a - b)) ds) (advance v (pos (b - a)) cs)
unfolding settle
settle_step fuel u v a b ds cs ha hb =
    rw (left_of_debt a b ha.1, left_of_credit a b hb.1) (ground arith)

module _ (u : UserId) (n : ℕ) (rest : List (UserId × ℤ)) where
  advance-total : total_due (advance u (pos n) rest) ≡ n + total_due rest
  advance-total = ground arith

  advance-due :
      (q : UserId) → due_of q (advance u (pos n) rest) ≡ (if same q u then n else 0) + due_of q rest
  advance-due q = ground arith

  advance-length : length (advance u (pos n) rest) ≤ suc (length rest)
  advance-length = ground arith

  advance-IsDue : n < 2 ^ 63 → All IsDue rest → All IsDue (advance u (pos n) rest)
  advance-IsDue h r = ground arith

advance-length_zero :
    (u : UserId) (n : ℕ) (rest : List (UserId × ℤ))
    → n ≡ 0
    → length (advance u (pos n) rest) ≡ length rest
advance-length_zero u n rest h = ground arith

-- The two lists of what is left after a round.
module _ (fuel : ℕ) (u v : UserId) (a b : ℕ) (ds cs : List (UserId × ℤ)) where
  abbrev ds' : List (UserId × ℤ)
  ds' = advance u (pos (a - b)) ds

  abbrev cs' : List (UserId × ℤ)
  cs' = advance v (pos (b - a)) cs

  shorter : suc (length ds) + suc (length cs) ≤ suc fuel → length ds' + length cs' ≤ fuel
  shorter h = ground (
    arith,
    advance-length u (a - b) ds,
    advance-length v (b - a) cs,
    advance-length_zero u (a - b) ds,
    advance-length_zero v (b - a) cs,
  )

  even : a + total_due ds ≡ b + total_due cs → total_due ds' ≡ total_due cs'
  even h = omega (arith, advance-total u (a - b) ds, advance-total v (b - a) cs)

-- With debts and credits of one sum, each debtor pays what is due, each creditor receives what is
-- due, and all that is due is moved.
pub settle-exact :
    (fuel : ℕ) (ds cs : List (UserId × ℤ)) (q : UserId)
    → All IsDue ds
    → All IsDue cs
    → total_due ds ≡ total_due cs
    → length ds + length cs ≤ fuel
    → (paid_by_user q (settle fuel ds cs) ≡ due_of q ds)
      × (received_by q (settle fuel ds cs) ≡ due_of q cs)
      × (total_moved (settle fuel ds cs) ≡ total_due ds)
unfolding settle
settle-exact zero [] [] q hd hc e h = (refl, refl, refl)
settle-exact zero [] (c ∷ cs) q hd hc e h = absurd (omega arith)
settle-exact zero (d ∷ ds) cs q hd hc e h = absurd (omega arith)
settle-exact (suc fuel) [] [] q hd hc e h = (refl, refl, refl)
settle-exact (suc fuel) [] ((v, b) ∷ cs) q hd hc e h = absurd (omega arith)
settle-exact (suc fuel) ((u, a) ∷ ds) [] q hd hc e h = absurd (omega arith)
settle-exact (suc fuel) ((u, negsuc a) ∷ ds) (c ∷ cs) q hd hc e h = absurd (omega arith)
settle-exact (suc fuel) ((u, pos a) ∷ ds) ((v, negsuc b) ∷ cs) q hd hc e h = absurd (omega arith)
settle-exact (suc fuel) ((u, pos a) ∷ ds) ((v, pos b) ∷ cs) q hd hc e h =
    let (pays, gets, moves) =
      settle-exact fuel (advance u (pos (a - b)) ds) (advance v (pos (b - a)) cs) q
        (advance-IsDue u (a - b) ds (omega arith) hd.1)
        (advance-IsDue v (b - a) cs (omega arith) hc.1) (even fuel u v a b ds cs e)
        (shorter fuel u v a b ds cs h) in
    rw (settle_step fuel u v a b ds cs hd.0 hc.0) (
      ground (arith, pays, advance-due u (a - b) ds q),
      ground (arith, gets, advance-due v (b - a) cs q),
      ground (arith, moves, advance-total u (a - b) ds),
    )

-- Every payment is of a positive amount.
pub settle-positive :
    (fuel : ℕ) (ds cs : List (UserId × ℤ)) → All (λ t. 0 < pos_part t.amount) (settle fuel ds cs)
unfolding settle
settle-positive zero ds cs = tt
settle-positive (suc fuel) [] cs = tt
settle-positive (suc fuel) (d ∷ ds) [] = tt
settle-positive (suc fuel) ((u, a) ∷ ds) ((v, b) ∷ cs) = ground (
  arith,
  settle-positive fuel (advance u (wrap_i64 (a -ℤ min_ℤ a b)) ds)
      (advance v (wrap_i64 (b -ℤ min_ℤ a b)) cs),
)

-- One payment fewer than there are parties, at most.
pub settle-length :
    (fuel : ℕ) (ds cs : List (UserId × ℤ))
    → All IsDue ds
    → All IsDue cs
    → total_due ds ≡ total_due cs
    → length ds + length cs ≤ fuel
    → length (settle fuel ds cs) ≤ length ds + length cs - 1
unfolding settle
settle-length zero ds cs hd hc e h = omega arith
settle-length (suc fuel) [] cs hd hc e h = omega arith
settle-length (suc fuel) (d ∷ ds) [] hd hc e h = omega arith
settle-length (suc fuel) ((u, negsuc a) ∷ ds) (c ∷ cs) hd hc e h = absurd (omega arith)
settle-length (suc fuel) ((u, pos a) ∷ ds) ((v, negsuc b) ∷ cs) hd hc e h = absurd (omega arith)
settle-length (suc fuel) ((u, pos a) ∷ ds) ((v, pos b) ∷ cs) hd hc e h =
    let rest =
      settle-length fuel (advance u (pos (a - b)) ds) (advance v (pos (b - a)) cs)
        (advance-IsDue u (a - b) ds (omega arith) hd.1)
        (advance-IsDue v (b - a) cs (omega arith) hc.1) (even fuel u v a b ds cs e)
        (shorter fuel u v a b ds cs h) in
    let left = shorter (length ds + suc (length cs)) u v a b ds cs (omega arith) in
    rw (settle_step fuel u v a b ds cs hd.0 hc.0) (omega (arith, rest, left))
