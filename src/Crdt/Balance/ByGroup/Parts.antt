-- ===== src/Crdt/Balance/ByGroup/Parts.antt =====
-- What an expense and a settlement post to a group in one pass over the projection, and what they
-- post to the user (splittr-crdt/src/balance.rs).
use splittr.Prelude.{
  ◌≤◌, Bool, true, false, Option, none, some, [], ◌∷◌, List, ◌≡◌, refl, sym, ap, ap₂, ◌∙◌, arith,
  if◌then◌else◌, ◌&&◌,
}
use splittr.Prelude.Ord.{same, bytes_ord}
use splittr.Prelude.Int.{ℤ, pos, ◌+ℤ◌, neg_ℤ, int_ord, int_laws}
use splittr.Prelude.Folds.{All}
use splittr.BTree.{BTreeMap, retain, values}
use splittr.Domain.Ids.{UserId, GroupId}
use splittr.Crdt.Authorize.Alias.{Aliases, resolve}
use splittr.Crdt.Projection.{ExpenseRecord, SettlementRecord, in_group}
use splittr.Crdt.Balance.Posting.{Posting, posted, volume}
use splittr.Crdt.Balance.Exact.{flat_map, fields_postings, expense_postings, settlement_postings}
use splittr.Crdt.Balance.ByGroup.{
  same_comm, posted-append, volume-append, posted-bound, unless_zero, expense_part, settlement_part,
}

module _ (aliases : Aliases) (me : UserId) where
  pub volume-expense_part :
      (e : ExpenseRecord) → volume (expense_part aliases me e) ≤ volume (expense_postings aliases e)
  volume-expense_part e = ground (arith, posted-bound me (fields_postings aliases e.fields))

  pub volume-settlement_part :
      (s : SettlementRecord)
      → volume (settlement_part aliases me s) ≤ volume (settlement_postings aliases s)
  volume-settlement_part s = ground arith

  module _ {A : Type 0} (f g : A → List Posting) (law : (x : A) → volume (f x) ≤ volume (g x)) where
    pub volume-flat_map : (xs : List A) → volume (flat_map f xs) ≤ volume (flat_map g xs)
    volume-flat_map [] = ground arith
    volume-flat_map (x ∷ xs) = omega (
      arith,
      volume-append (f x) (flat_map f xs),
      volume-append (g x) (flat_map g xs),
      law x,
      volume-flat_map xs,
    )

  -- A settlement between two users, aliases resolved; or not the user's own.
  abbrev pub IsBetween : SettlementRecord → Type 0
  IsBetween s = (same (resolve aliases s.from) me && same (resolve aliases s.to) me) ≡ false

  module _ (group : GroupId) where
    posted-unless_zero :
        (h : GroupId) (z : ℤ)
        → posted group (unless_zero aliases me h z) ≡ (if same h group then z else pos 0)
    posted-unless_zero h z = ground (arith, same_comm group h, plus_zero z)
      where
        plus_zero : (v : ℤ) → v +ℤ pos 0 ≡ v
        plus_zero v = omega int_laws

    pub posted-expense_part :
        (e : ExpenseRecord)
        → posted group (expense_part aliases me e)
          ≡ (if in_group group e.group then posted me (expense_postings aliases e) else pos 0)
    posted-expense_part e = on_group e.group e.published
      where
        on_group :
            (o : Option GroupId) (b : Bool)
            → posted group (elim o [
              | none ↦ []
              | some g ↦
                  if b
                  then unless_zero aliases me g (posted me (fields_postings aliases e.fields))
                  else []
            ])
              ≡ (if in_group group o
                  then posted me (if b then fields_postings aliases e.fields else [])
                  else pos 0)
        on_group none b = refl
        on_group (some g) true = posted-unless_zero g (posted me (fields_postings aliases e.fields))
        on_group (some g) false = ground arith

    pub posted-settlement_part :
        (s : SettlementRecord)
        → IsBetween s
        → posted group (settlement_part aliases me s)
          ≡ (if in_group group s.group then posted me (settlement_postings aliases s) else pos 0)
    posted-settlement_part s between =
        rw (same_comm me (resolve aliases s.from), same_comm me (resolve aliases s.to))
          (on_group s.group (same (resolve aliases s.from) me) (same (resolve aliases s.to) me)
            between)
      where
        on_group :
            (o : Option GroupId) (a b : Bool)
            → a && b ≡ false
            → posted group (elim o [
              | none ↦ []
              | some g ↦
                  if a then (g, s.amount) ∷ [] else if b then (g, neg_ℤ s.amount) ∷ [] else []
            ])
              ≡ (if in_group group o
                  then (if a
                      then s.amount +ℤ (if b then neg_ℤ s.amount +ℤ pos 0 else pos 0)
                      else if b
                      then neg_ℤ s.amount +ℤ pos 0
                      else pos 0)
                  else pos 0)
        on_group none a b h = refl
        on_group (some g) true true h = cc
        on_group (some g) true false h =
            ap (λ (c : Bool). if c then s.amount +ℤ pos 0 else pos 0) (same_comm group g)
        on_group (some g) false true h =
            ap (λ (c : Bool). if c then neg_ℤ s.amount +ℤ pos 0 else pos 0) (same_comm group g)
        on_group (some g) false false h = ground arith

    -- A pass over the entries of a map is a pass over those of the group.
    module _ {K A : Type 0} (f g : A → List Posting) (group_in : A → Option GroupId)
        (law : A → Type 0)
        (each : (x : A)
          → law x
          → posted group (f x)
            ≡ (if in_group group (group_in x) then posted me (g x) else pos 0)) where
      pub posted-flat_map :
          (m : BTreeMap K A)
          → All law (values m)
          → posted group (flat_map f (values m))
            ≡ posted me (flat_map g (values (retain (λ _ x. in_group group (group_in x)) m)))
      unfolding retain
      posted-flat_map [] h = refl
      posted-flat_map ((k, x) ∷ m) (h, hs) =
          posted-append group (f x) (flat_map f (values m))
          ∙ ap₂ (λ u v. u +ℤ v) (each x h) (posted-flat_map m hs)
          ∙ on_test (in_group group (group_in x))
        where
          rest : BTreeMap K A
          rest = retain (λ _ y. in_group group (group_in y)) m

          on_test :
              (b : Bool)
              → (if b then posted me (g x) else pos 0) +ℤ posted me (flat_map g (values rest))
                ≡ posted me (flat_map g (values (if b then (k, x) ∷ rest else rest)))
          on_test true = sym (posted-append me (g x) (flat_map g (values rest)))
          on_test false = omega int_laws

  pub always : (es : List ExpenseRecord) → All (λ _. Unit {0}) es
  always [] = tt
  always (e ∷ es) = (tt, always es)
