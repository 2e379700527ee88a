-- ===== src/Crdt/Balance/ByGroup/Scoped.antt =====
-- What one pass of `my_net_by_group` (splittr-crdt/src/balance.rs) posts to a group is what the
-- group's own projection posts to the user.
use splittr.Prelude.{
  ◌<◌, ◌≤◌, ◌^◌, Bool, true, false, Option, some, [], ◌∷◌, List, ◌≡◌, sym, ap, ap₂, ◌∙◌, arith,
  if◌then◌else◌, ◌>>=◌, >>=-assoc,
}
use splittr.Prelude.Ord.{Bytes, bytes_ord}
use splittr.Prelude.Int.{ℤ, pos, ◌+ℤ◌, int_ord, int_laws}
use splittr.Prelude.Folds.{All}
use splittr.BTree.{BTreeMap, get, get_or, retain, values}
use splittr.Domain.Ids.{UserId, GroupId}
use splittr.Crdt.Authorize.Alias.{resolve}
use splittr.Crdt.Projection.{ExpenseRecord, SettlementRecord, Projection, in_group, for_group}
use splittr.Crdt.Balance.{
  Net, for_each, nonzero_only, group_settlement, my_net_by_group, net_balances,
}
use splittr.Crdt.Balance.Posting.{
  Posting, post, posted, volume, for_each-append, postings-exact, postings-made, postings-IsSorted,
}
use splittr.Crdt.Balance.Exact.{
  flat_map, for_each-flat_map, expense_postings, settlement_postings, postings, get_or-nonzero_only,
  net_balances-exact,
}
use splittr.Crdt.Balance.ByGroup.{
  posted-append, volume-append, expense_part, settlement_part, parts, group_settlement_step,
  expenses_step,
}
use splittr.Crdt.Balance.ByGroup.Parts.{
  volume-expense_part, volume-settlement_part, volume-flat_map, posted-expense_part,
  posted-settlement_part, posted-flat_map, always, IsBetween,
}

posted-parts :
    (p : Projection) (me : UserId) (group : GroupId)
    → All (IsBetween p.aliases me) (values p.settlements)
    → posted group (parts p.aliases me p) ≡ posted me (postings (for_group p group))
unfolding for_group
posted-parts p me group between =
    let scoped = for_group p group in
    posted-append group (flat_map (expense_part p.aliases me) (values p.expenses))
      (flat_map (settlement_part p.aliases me) (values p.settlements))
    ∙ ap₂ (λ u v. u +ℤ v)
        (posted-flat_map p.aliases me group (expense_part p.aliases me) (expense_postings p.aliases)
          (λ (e : ExpenseRecord). e.group) (λ _. Unit {0})
          (λ e _. posted-expense_part p.aliases me group e) p.expenses
          (always p.aliases me (values p.expenses)))
        (posted-flat_map p.aliases me group (settlement_part p.aliases me)
          (settlement_postings p.aliases) (λ (s : SettlementRecord). s.group)
          (IsBetween p.aliases me) (posted-settlement_part p.aliases me group) p.settlements
          between)
    ∙ sym (
        posted-append me (flat_map (expense_postings p.aliases) (values scoped.expenses))
          (flat_map (settlement_postings p.aliases) (values scoped.settlements)))

volume-parts : (p : Projection) (me : UserId) → volume (parts p.aliases me p) ≤ volume (postings p)
volume-parts p me = omega (
  arith,
  volume-append (flat_map (expense_part p.aliases me) (values p.expenses))
      (flat_map (settlement_part p.aliases me) (values p.settlements)),
  volume-append (flat_map (expense_postings p.aliases) (values p.expenses))
      (flat_map (settlement_postings p.aliases) (values p.settlements)),
  volume-flat_map p.aliases me (expense_part p.aliases me) (expense_postings p.aliases)
      (volume-expense_part p.aliases me) (values p.expenses),
  volume-flat_map p.aliases me (settlement_part p.aliases me) (settlement_postings p.aliases)
      (volume-settlement_part p.aliases me) (values p.settlements),
)

volume-retain :
    {K A : Type 0} (f : A → List Posting) (test : K → A → Bool) (m : BTreeMap K A)
    → volume (flat_map f (values (retain test m))) ≤ volume (flat_map f (values m))
unfolding retain
volume-retain f test [] = ground arith
volume-retain f test ((k, x) ∷ m) = on_test (test k x) (volume-retain f test m)
  where
    on_test :
        (b : Bool)
        → volume (flat_map f (values (retain test m))) ≤ volume (flat_map f (values m))
        → volume (flat_map f (values (if b then (k, x) ∷ retain test m else retain test m)))
          ≤ volume (flat_map f (values ((k, x) ∷ m)))
    on_test true ih = omega (
      arith,
      volume-append (f x) (flat_map f (values (retain test m))),
      volume-append (f x) (flat_map f (values m)),
      ih,
    )
    on_test false ih = omega (arith, volume-append (f x) (flat_map f (values m)), ih)

volume-for_group :
    (p : Projection) (group : GroupId) → volume (postings (for_group p group)) ≤ volume (postings p)
unfolding for_group
volume-for_group p group =
    let scoped = for_group p group in
    omega (
      arith,
      volume-append (flat_map (expense_postings p.aliases) (values scoped.expenses))
          (flat_map (settlement_postings p.aliases) (values scoped.settlements)),
      volume-append (flat_map (expense_postings p.aliases) (values p.expenses))
          (flat_map (settlement_postings p.aliases) (values p.settlements)),
      volume-retain (expense_postings p.aliases) (λ _ e. in_group group e.group) p.expenses,
      volume-retain (settlement_postings p.aliases) (λ _ s. in_group group s.group) p.settlements,
    )

my_net_by_group_lem :
    (p : Projection) (user : UserId)
    → volume (postings p) < 2 ^ 63
    → my_net_by_group p user ≡ (
        for_each post (parts p.aliases (resolve p.aliases user) p) [] >>= λ out.
        some (nonzero_only out))
unfolding my_net_by_group
my_net_by_group_lem p user h =
    ap
      (λ (m : Option Net). m >>= λ out.
        for_each (group_settlement p.aliases me) (values p.settlements) out >>= λ out'.
        some (nonzero_only out'))
      (expenses_step p.aliases me (values p.expenses) [] (
        omega (
          arith,
          h,
          volume-append (flat_map (expense_postings p.aliases) (values p.expenses))
              (flat_map (settlement_postings p.aliases) (values p.settlements)),
        )))
    ∙ ap
        (λ (k : Net → Option Net).
          for_each post es [] >>= λ out. k out >>= λ out'. some (nonzero_only out'))
        (λ i out.
          for_each-flat_map post (group_settlement p.aliases me) (settlement_part p.aliases me)
            (group_settlement_step p.aliases me) (values p.settlements) out i)
    ∙ sym
        (>>=-assoc (for_each post es []) (λ n. for_each post ss n) (λ net. some (nonzero_only net)))
    ∙ ap (λ (m : Option Net). m >>= λ net. some (nonzero_only net))
        (sym (for_each-append post es ss []))
  where
    me : UserId
    me = resolve p.aliases user

    es : List Posting
    es = flat_map (expense_part p.aliases (resolve p.aliases user)) (values p.expenses)

    ss : List Posting
    ss = flat_map (settlement_part p.aliases (resolve p.aliases user)) (values p.settlements)

from_zero : (q : Bytes) (v : ℤ) → get_or q (pos 0) [] +ℤ v ≡ v
unfolding get
from_zero q v = omega int_laws

-- Where the amounts of a projection together stay below 2^63 and no settlement has the user as both
-- parties, aliases resolved, `my_net_by_group` does not panic, and its one pass gives for every group
-- what `net_balances` of that group's own projection, which does not panic either, gives the user.
pub my_net_by_group-agrees :
    (p : Projection) (user : UserId)
    → volume (postings p) < 2 ^ 63
    → All (IsBetween p.aliases (resolve p.aliases user)) (values p.settlements)
    → (nets : Net) × (my_net_by_group p user ≡ some nets)
      × ((group : GroupId)
          → (net : Net) × (net_balances (for_group p group) ≡ some net)
            × (get_or group (pos 0) nets ≡ get_or (resolve p.aliases user) (pos 0) net))
my_net_by_group-agrees p user h between =
    let me = resolve p.aliases user in
    let (full, made, _) =
      postings-made (parts p.aliases me p) 0 [] tt (omega (arith, volume-parts p me)) in
    let sorted = postings-IsSorted (parts p.aliases me p) [] full made tt in
    (
      nonzero_only full,
      my_net_by_group_lem p user h
          ∙ ap (λ (m : Option Net). m >>= λ net. some (nonzero_only net)) made,
      (λ group.
          let (net, net_made, exact, _, _, _) =
            net_balances-exact (for_group p group) (omega (arith, volume-for_group p group)) in
          (
            net,
            net_made,
            get_or-nonzero_only group full sorted
                ∙ postings-exact (parts p.aliases me p) [] full group made
                ∙ from_zero group (posted group (parts p.aliases me p))
                ∙ posted-parts p me group between
                ∙ sym (exact me),
          )),
    )
