-- ===== src/Crdt/Balance/ByGroup.antt =====
-- `my_net_by_group` (splittr-crdt/src/balance.rs), which takes one pass over the projection, against
-- the balances of each group's own projection.
pub mod Parts
pub mod Scoped
use splittr.Prelude.{
  ℕ, ◌+◌, ◌<◌, ◌≤◌, ◌^◌, Bool, true, false, Option, none, some, [], ◌∷◌, List, ◌++◌, ◌≡◌, refl, sym,
  ap, ap₂, ◌∙◌, arith, if◌then◌else◌, Bool-cases, inl, inr, ◌>>=◌, >>=-assoc, not, ◌&&◌,
}
use mathlib.Core.Path.{subst}
use splittr.Prelude.Ord.{Bytes, same, bytes_ord, bytes_flip, cmp_bytes}
use splittr.Prelude.Int.{ℤ, pos, pos_part, neg_part, ◌+ℤ◌, ◌-ℤ◌, neg_ℤ, IsI64, int_ord, int_laws}
use splittr.Prelude.Folds.{All}
use splittr.BTree.{BTreeMap, get, get_or, insert, retain, values}
use splittr.Domain.Ids.{UserId, GroupId}
use splittr.Domain.Money.{Cents, add, sub, is_zero, checked}
use splittr.Domain.Money.Laws.{checked-IsI64}
use splittr.Domain.Split.{Split}
use splittr.Domain.Expense.{ExpenseFields}
use splittr.Crdt.Authorize.Alias.{Aliases, resolve}
use splittr.Crdt.Projection.{ExpenseRecord, SettlementRecord, Projection, in_group, for_group}
use splittr.Crdt.Balance.{
  Net, for_each, nonzero_only, entry_add, entry_sub, delta_payer, delta_split, delta_of,
  group_expense, group_settlement, my_net_by_group, net_balances,
}
use splittr.Crdt.Balance.Posting.{
  Posting, post, posted, volume, IsWithin, entry_sub_lem, for_each-append, postings-exact,
  postings-made, postings-IsSorted,
}
use splittr.Crdt.Balance.Exact.{
  flat_map, for_each-flat_map, bind-some, payer_posting, split_posting, fields_postings,
  expense_postings, settlement_postings, postings, get_or-nonzero_only, net_balances-exact,
}

pub same_comm : (a b : Bytes) → same a b ≡ same b a
same_comm a b = ground (arith, bytes_flip a b)

pub posted-append :
    (q : Bytes) (ps qs : List Posting) → posted q (ps ++ qs) ≡ posted q ps +ℤ posted q qs
posted-append q [] qs = omega int_laws
posted-append q ((k, z) ∷ ps) qs =
    ground (arith, posted-append q ps qs, regroup z (posted q ps) (posted q qs))
  where
    regroup : (u v w : ℤ) → u +ℤ (v +ℤ w) ≡ (u +ℤ v) +ℤ w
    regroup u v w = omega int_laws

pub volume-append : (ps qs : List Posting) → volume (ps ++ qs) ≡ volume ps + volume qs
volume-append [] qs = ground arith
volume-append ((k, z) ∷ ps) qs = ground (arith, volume-append ps qs)

grows :
    (u v : ℤ)
    → pos_part (u +ℤ v) + neg_part (u +ℤ v) ≤ pos_part u + neg_part u + (pos_part v + neg_part v)
unfolding ◌+ℤ◌
grows u v = ground arith

in_range : (u v : ℤ) → pos_part u + neg_part u + (pos_part v + neg_part v) < 2 ^ 63 → IsI64 (u +ℤ v)
unfolding ◌+ℤ◌
in_range u v h = ground arith

-- What is posted to one user is no more than all that is posted.
pub posted-bound :
    (q : Bytes) (ps : List Posting) → pos_part (posted q ps) + neg_part (posted q ps) ≤ volume ps
posted-bound q [] = ground arith
posted-bound q ((k, z) ∷ ps) = ground (arith, posted-bound q ps, grows z (posted q ps))

-- One posting's part in what is posted to `me`.
module _ (me : UserId) where
  abbrev pub follow : ℤ → Posting → Option ℤ
  follow delta (k, z) = if same k me then add delta z else some delta

  add-made :
      (u v : ℤ)
      → pos_part u + neg_part u + (pos_part v + neg_part v) < 2 ^ 63
      → add u v ≡ some (u +ℤ v)
  unfolding add
  add-made u v h = checked-IsI64 (u +ℤ v) (in_range u v h)

  followed :
      (ps : List Posting) (u : ℤ)
      → pos_part u + neg_part u + volume ps < 2 ^ 63
      → for_each follow ps u ≡ some (u +ℤ posted me ps)
  followed [] u h = ap some (omega int_laws)
  followed ((k, z) ∷ ps) u h = elim (Bool-cases (same k me)) [
    | inl mine ↦
        rw (mine, same_comm me k, mine, add-made u z (omega arith))
          (followed ps (u +ℤ z) (omega (arith, grows u z)) ∙ ap some (regroup u z (posted me ps)))
    | inr other ↦ rw (other, same_comm me k, other) (followed ps u (omega arith))
  ]
    where
      regroup : (u v w : ℤ) → (u +ℤ v) +ℤ w ≡ u +ℤ (v +ℤ w)
      regroup u v w = omega int_laws

module _ (aliases : Aliases) (me : UserId) where
  payer_step :
      (delta : Cents) (x : UserId × Cents)
      → delta_payer aliases me delta x ≡ for_each (follow me) (payer_posting aliases x) delta
  unfolding delta_payer
  payer_step delta (payer, paid) = sym (bind-some (follow me delta (resolve aliases payer, paid)))

  split_step :
      (delta : Cents) (s : Split)
      → delta_split aliases me delta s ≡ for_each (follow me) (split_posting aliases s) delta
  unfolding delta_split add sub
  split_step delta s =
      ap (λ z. if same (resolve aliases s.user) me then checked z else some delta)
        (minus delta s.owed)
      ∙ sym (bind-some (follow me delta (resolve aliases s.user, neg_ℤ s.owed)))
    where
      minus : (v c : ℤ) → v -ℤ c ≡ v +ℤ neg_ℤ c
      minus v c = omega int_laws

  -- The delta of an expense is what its postings give the user.
  delta_of-posted :
      (f : ExpenseFields)
      → volume (fields_postings aliases f) < 2 ^ 63
      → delta_of aliases me f ≡ some (posted me (fields_postings aliases f))
  unfolding delta_of
  delta_of-posted f h =
      ap (λ (m : Option ℤ). m >>= λ d. for_each (delta_split aliases me) f.splits d)
        (for_each-flat_map (follow me) (delta_payer aliases me) (payer_posting aliases) payer_step
          f.paid_by (pos 0))
      ∙ ap (λ k. for_each (follow me) (flat_map (payer_posting aliases) f.paid_by) (pos 0) >>= k)
          (λ i d.
            for_each-flat_map (follow me) (delta_split aliases me) (split_posting aliases)
              split_step f.splits d i)
      ∙ sym (
          for_each-append (follow me) (flat_map (payer_posting aliases) f.paid_by)
            (flat_map (split_posting aliases) f.splits) (pos 0))
      ∙ followed me (fields_postings aliases f) (pos 0) (omega (arith, h))
      ∙ ap some (omega int_laws)

  abbrev pub unless_zero : GroupId → ℤ → List Posting
  unless_zero g z = if is_zero z then [] else (g, z) ∷ []

  -- What an expense and a settlement post to the groups.
  abbrev pub expense_part : ExpenseRecord → List Posting
  expense_part e = elim e.group [
    | none ↦ []
    | some g ↦
        if e.published then unless_zero g (posted me (fields_postings aliases e.fields)) else []
  ]

  abbrev pub settlement_part : SettlementRecord → List Posting
  settlement_part s = elim s.group [
    | none ↦ []
    | some g ↦
        if same (resolve aliases s.from) me
        then (g, s.amount) ∷ []
        else if same (resolve aliases s.to) me
        then (g, neg_ℤ s.amount) ∷ []
        else []
  ]

  group_expense_step :
      (out : BTreeMap GroupId Cents) (e : ExpenseRecord)
      → volume (expense_postings aliases e) < 2 ^ 63
      → group_expense aliases me out e ≡ for_each post (expense_part e) out
  unfolding group_expense
  group_expense_step out e h = on_group e.group e.published refl
    where
      on_zero :
          (g : GroupId) (z : ℤ) (b : Bool)
          → (if b then some out else entry_add g z out)
            ≡ for_each post (if b then [] else (g, z) ∷ []) out
      on_zero g z true = refl
      on_zero g z false = sym (bind-some (post out (g, z)))

      on_group :
          (group : Option GroupId) (b : Bool)
          → e.published ≡ b
          → (elim group [
            | none ↦ some out
            | some g ↦
                if b
                then (delta_of aliases me e.fields >>= λ delta.
                    if is_zero delta then some out else entry_add g delta out)
                else some out
          ])
            ≡ for_each post
                (elim group [
                  | none ↦ []
                  | some g ↦
                      if b then unless_zero g (posted me (fields_postings aliases e.fields)) else []
                ])
                out
      on_group none b eq = refl
      on_group (some g) false eq = refl
      on_group (some g) true eq =
          ap
            (λ (m : Option ℤ).
              m >>= λ delta. if is_zero delta then some out else entry_add g delta out)
            (delta_of-posted e.fields (
              subst
                (λ (c : Bool). volume (if c then fields_postings aliases e.fields else []) < 2 ^ 63)
                eq h))
          ∙ on_zero g (posted me (fields_postings aliases e.fields))
              (is_zero (posted me (fields_postings aliases e.fields)))

  pub group_settlement_step :
      (out : BTreeMap GroupId Cents) (s : SettlementRecord)
      → group_settlement aliases me out s ≡ for_each post (settlement_part s) out
  unfolding group_settlement
  group_settlement_step out s =
      on_group s.group (same (resolve aliases s.from) me) (same (resolve aliases s.to) me)
    where
      on_group :
          (group : Option GroupId) (a b : Bool)
          → (elim group [
            | none ↦ some out
            | some g ↦
                if a
                then entry_add g s.amount out
                else if b
                then entry_sub g s.amount out
                else some out
          ])
            ≡ for_each post
                (elim group [
                  | none ↦ []
                  | some g ↦
                      if a then (g, s.amount) ∷ [] else if b then (g, neg_ℤ s.amount) ∷ [] else []
                ])
                out
      on_group none a b = refl
      on_group (some g) true b = sym (bind-some (post out (g, s.amount)))
      on_group (some g) false true =
          entry_sub_lem g s.amount out ∙ sym (bind-some (post out (g, neg_ℤ s.amount)))
      on_group (some g) false false = refl

  pub expenses_step :
      (es : List ExpenseRecord) (out : BTreeMap GroupId Cents)
      → volume (flat_map (expense_postings aliases) es) < 2 ^ 63
      → for_each (group_expense aliases me) es out ≡ for_each post (flat_map expense_part es) out
  expenses_step [] out h = refl
  expenses_step (e ∷ es) out h =
      let parts =
        volume-append (expense_postings aliases e) (flat_map (expense_postings aliases) es) in
      ap
        (λ (m : Option (BTreeMap GroupId Cents)).
          m >>= λ t. for_each (group_expense aliases me) es t)
        (group_expense_step out e (omega (arith, parts)))
      ∙ ap (λ k. for_each post (expense_part e) out >>= k)
          (λ i t. expenses_step es t (omega (arith, parts)) i)
      ∙ sym (for_each-append post (expense_part e) (flat_map expense_part es) out)

  -- All that a projection posts to the groups.
  abbrev pub parts : Projection → List Posting
  parts p =
      flat_map expense_part (values p.expenses) ++ flat_map settlement_part (values p.settlements)
