-- ===== src/Crdt/Balance/Exact.antt =====
-- `net_balances` and `settle_up` (splittr-crdt/src/balance.rs) against the postings of the
-- projection: what every user paid and owes, alias by alias.
use splittr.Prelude.{
  ℕ, ◌+◌, ◌<◌, ◌^◌, true, Option, none, some, [], ◌∷◌, List, ◌++◌, ◌≡◌, refl, sym, ap, ap₂, ◌∙◌,
  arith, if◌then◌else◌, Bool-cases, inl, inr, ◌>>=◌, >>=-assoc, not,
}
use splittr.Prelude.Ord.{bytes_ord}
use splittr.Prelude.Int.{ℤ, pos, pos_part, neg_part, ◌+ℤ◌, neg_ℤ, int_ord, int_laws}
use splittr.Prelude.Folds.{All}
use splittr.BTree.{BTreeMap, get, get_or, retain, values}
use splittr.BTree.Sorted.{IsSorted, retain-IsSorted, get-retain}
use splittr.Domain.Ids.{UserId}
use splittr.Domain.Money.{Cents, is_zero}
use splittr.Domain.Money.Laws.{sum}
use splittr.Domain.Split.{Split, owed_amounts}
use splittr.Domain.Expense.{ExpenseFields, is_balanced}
use splittr.Domain.Expense.Balanced.{is_balanced-sums}
use splittr.Domain.Debt.{Transfer, simplify_debts}
use splittr.Domain.Debt.Settle.{paid_by_user, received_by}
use splittr.Domain.Debt.Balances.{IsNegatable, IsLedger, simplify_debts-settles}
use splittr.Crdt.Authorize.Alias.{Aliases, resolve}
use splittr.Crdt.Projection.{ExpenseRecord, SettlementRecord, Projection}
use splittr.Crdt.Balance.{
  Net, for_each, nonzero_only, add_payer, sub_split, net_of_fields, net_expense, net_settlement,
  net_balances, settle_up,
}
use splittr.Crdt.Balance.Posting.{
  Posting, post, posted, posted_in_all, volume, IsWithin, entry_sub_lem, for_each-append,
  postings-exact, postings-made, postings-IsSorted, postings-sum,
}

abbrev pub flat_map : {A B : Type 0} → (A → List B) → List A → List B
flat_map f [] = []
flat_map f (x ∷ xs) = f x ++ flat_map f xs

module _ (aliases : Aliases) where
  abbrev pub payer_posting : UserId × Cents → List Posting
  payer_posting (payer, paid) = (resolve aliases payer, paid) ∷ []

  abbrev pub split_posting : Split → List Posting
  split_posting s = (resolve aliases s.user, neg_ℤ s.owed) ∷ []

  abbrev pub fields_postings : ExpenseFields → List Posting
  fields_postings f = flat_map payer_posting f.paid_by ++ flat_map split_posting f.splits

  -- A draft posts nothing.
  abbrev pub expense_postings : ExpenseRecord → List Posting
  expense_postings e = if e.published then fields_postings e.fields else []

  abbrev pub settlement_postings : SettlementRecord → List Posting
  settlement_postings s =
      (resolve aliases s.from, s.amount) ∷ (resolve aliases s.to, neg_ℤ s.amount) ∷ []

-- All postings of a projection.
abbrev pub postings : Projection → List Posting
postings p =
    flat_map (expense_postings p.aliases) (values p.expenses)
    ++ flat_map (settlement_postings p.aliases) (values p.settlements)

pub bind-some : {A : Type 0} (m : Option A) → (m >>= some) ≡ m
bind-some none = refl
bind-some (some a) = refl

-- A loop whose body makes steps is the loop over the steps.
pub for_each-flat_map :
    {A P S : Type 0} (step : S → P → Option S) (body : S → A → Option S) (f : A → List P)
    → ((s : S) (x : A) → body s x ≡ for_each step (f x) s)
    → (xs : List A) (s : S) → for_each body xs s ≡ for_each step (flat_map f xs) s
for_each-flat_map step body f law [] s = refl
for_each-flat_map {S = S} step body f law (x ∷ xs) s =
    ap (λ (m : Option S). m >>= λ t. for_each body xs t) (law s x)
    ∙ ap (λ k. for_each step (f x) s >>= k) (λ i t. for_each-flat_map step body f law xs t i)
    ∙ sym (for_each-append step (f x) (flat_map f xs) s)

module _ (aliases : Aliases) where
  payer_law :
      (net : Net) (x : UserId × Cents)
      → add_payer aliases net x ≡ for_each post (payer_posting aliases x) net
  unfolding add_payer
  payer_law net (payer, paid) = sym (bind-some (post net (resolve aliases payer, paid)))

  split_law :
      (net : Net) (s : Split)
      → sub_split aliases net s ≡ for_each post (split_posting aliases s) net
  unfolding sub_split
  split_law net s =
      entry_sub_lem (resolve aliases s.user) s.owed net
      ∙ sym (bind-some (post net (resolve aliases s.user, neg_ℤ s.owed)))

  fields_law :
      (f : ExpenseFields) (net : Net)
      → net_of_fields aliases f net ≡ for_each post (fields_postings aliases f) net
  unfolding net_of_fields
  fields_law f net =
      ap (λ (m : Option Net). m >>= λ s. for_each (sub_split aliases) f.splits s)
        (for_each-flat_map post (add_payer aliases) (payer_posting aliases) payer_law f.paid_by net)
      ∙ ap (λ k. for_each post (flat_map (payer_posting aliases) f.paid_by) net >>= k)
          (λ i s.
            for_each-flat_map post (sub_split aliases) (split_posting aliases) split_law f.splits s
              i)
      ∙ sym (
          for_each-append post (flat_map (payer_posting aliases) f.paid_by)
            (flat_map (split_posting aliases) f.splits) net)

  expense_law :
      (net : Net) (e : ExpenseRecord)
      → net_expense aliases net e ≡ for_each post (expense_postings aliases e) net
  unfolding net_expense
  expense_law net e = elim (Bool-cases e.published) [
    | inl published ↦ rw published (fields_law e.fields net)
    | inr draft ↦ rw draft refl
  ]

  settlement_law :
      (net : Net) (s : SettlementRecord)
      → net_settlement aliases net s ≡ for_each post (settlement_postings aliases s) net
  unfolding net_settlement
  settlement_law net s =
      ap (λ k. post net (resolve aliases s.from, s.amount) >>= k)
        (λ i n.
          (entry_sub_lem (resolve aliases s.to) s.amount n
              ∙ sym (bind-some (post n (resolve aliases s.to, neg_ℤ s.amount))))
            i)

net_balances_lem :
    (p : Projection)
    → net_balances p ≡ (for_each post (postings p) [] >>= λ net. some (nonzero_only net))
unfolding net_balances
net_balances_lem p =
    ap
      (λ (m : Option Net). m >>= λ net.
        for_each (net_settlement p.aliases) (values p.settlements) net >>= λ net'.
        some (nonzero_only net'))
      (for_each-flat_map post (net_expense p.aliases) (expense_postings p.aliases)
        (expense_law p.aliases) (values p.expenses) [])
    ∙ ap
        (λ (k : Net → Option Net).
          for_each post es [] >>= λ net. k net >>= λ net'. some (nonzero_only net'))
        (λ i n.
          for_each-flat_map post (net_settlement p.aliases) (settlement_postings p.aliases)
            (settlement_law p.aliases) (values p.settlements) n i)
    ∙ sym
        (>>=-assoc (for_each post es []) (λ n. for_each post ss n) (λ net. some (nonzero_only net)))
    ∙ ap (λ (m : Option Net). m >>= λ net. some (nonzero_only net))
        (sym (for_each-append post es ss []))
  where
    es : List Posting
    es = flat_map (expense_postings p.aliases) (values p.expenses)

    ss : List Posting
    ss = flat_map (settlement_postings p.aliases) (values p.settlements)

pub get_or-nonzero_only :
    (q : UserId) (net : Net)
    → IsSorted net
    → get_or q (pos 0) (nonzero_only net) ≡ get_or q (pos 0) net
get_or-nonzero_only q net s = ground (arith, get-retain (λ _ c. not (is_zero c)) q net s)

sum-nonzero_only : (net : Net) → sum (values (nonzero_only net)) ≡ sum (values net)
unfolding retain
sum-nonzero_only [] = refl
sum-nonzero_only ((k, z) ∷ net) =
    ground (arith, sum-nonzero_only net, zero_first (sum (values net)))
  where
    zero_first : (v : ℤ) → pos 0 +ℤ v ≡ v
    zero_first v = omega int_laws

IsNegatable-nonzero_only :
    (b : ℕ) (net : Net) → b < 2 ^ 63 → All (IsWithin b) net → All IsNegatable (nonzero_only net)
unfolding retain
IsNegatable-nonzero_only b [] h a = tt
IsNegatable-nonzero_only b ((k, z) ∷ net) h a = ground (arith, IsNegatable-nonzero_only b net h a.1)

from_zero : (q : UserId) (v : ℤ) → get_or q (pos 0) [] +ℤ v ≡ v
unfolding get
from_zero q v = omega int_laws

-- Where the amounts of the postings together stay below 2^63, `net_balances` does not panic. Its
-- balances are in order of the users and negatable, a user's balance is exactly what is posted to
-- the user, and the balances sum to what is posted in all.
pub net_balances-exact :
    (p : Projection)
    → volume (postings p) < 2 ^ 63
    → (net : Net) × (net_balances p ≡ some net)
      × ((q : UserId) → get_or q (pos 0) net ≡ posted q (postings p))
      × (sum (values net) ≡ posted_in_all (postings p))
      × IsSorted net
      × All IsNegatable net
net_balances-exact p h =
    let (full, made, within) = postings-made (postings p) 0 [] tt (omega arith) in
    let sorted = postings-IsSorted (postings p) [] full made tt in
    (
      nonzero_only full,
      net_balances_lem p ∙ ap (λ (m : Option Net). m >>= λ net. some (nonzero_only net)) made,
      (λ q.
          get_or-nonzero_only q full sorted
          ∙ postings-exact (postings p) [] full q made
          ∙ from_zero q (posted q (postings p))),
      sum-nonzero_only full
          ∙ postings-sum (postings p) [] full made
          ∙ to_zero (posted_in_all (postings p)),
      retain-IsSorted (λ _ c. not (is_zero c)) full sorted,
      IsNegatable-nonzero_only (0 + volume (postings p)) full (omega arith) within,
    )
  where
    to_zero : (v : ℤ) → v +ℤ sum [] ≡ v
    to_zero v = omega int_laws

-- Every published expense is balanced: the payments and the shares both sum to its total.
abbrev pub IsBalanced : ExpenseRecord → Type 0
IsBalanced e = e.published ≡ true → is_balanced e.fields ≡ some true

posted_in_all-append :
    (ps qs : List Posting) → posted_in_all (ps ++ qs) ≡ posted_in_all ps +ℤ posted_in_all qs
posted_in_all-append [] qs = omega int_laws
posted_in_all-append ((k, z) ∷ ps) qs =
    ap (λ v. z +ℤ v) (posted_in_all-append ps qs) ∙ regroup z (posted_in_all ps) (posted_in_all qs)
  where
    regroup : (u v w : ℤ) → u +ℤ (v +ℤ w) ≡ (u +ℤ v) +ℤ w
    regroup u v w = omega int_laws

module _ (aliases : Aliases) where
  in_all-payers :
      (paid : BTreeMap UserId Cents)
      → posted_in_all (flat_map (payer_posting aliases) paid) ≡ sum (values paid)
  in_all-payers [] = refl
  in_all-payers ((u, z) ∷ paid) = ap (λ v. z +ℤ v) (in_all-payers paid)

  in_all-splits :
      (ss : List Split)
      → posted_in_all (flat_map (split_posting aliases) ss) ≡ neg_ℤ (sum (owed_amounts ss))
  in_all-splits [] = omega int_laws
  in_all-splits (s ∷ ss) =
      ap (λ v. neg_ℤ s.owed +ℤ v) (in_all-splits ss) ∙ out s.owed (sum (owed_amounts ss))
    where
      out : (u v : ℤ) → neg_ℤ u +ℤ neg_ℤ v ≡ neg_ℤ (u +ℤ v)
      out u v = omega int_laws

  balanced_fields :
      (f : ExpenseFields)
      → is_balanced f ≡ some true
      → posted_in_all (fields_postings aliases f) ≡ pos 0
  balanced_fields f h =
      let (paid, owed) = is_balanced-sums f h in
      posted_in_all-append (flat_map (payer_posting aliases) f.paid_by)
        (flat_map (split_posting aliases) f.splits)
      ∙ ap₂ (λ u v. u +ℤ v) (in_all-payers f.paid_by ∙ paid)
          (in_all-splits f.splits ∙ ap neg_ℤ owed)
      ∙ cancel f.total
    where
      cancel : (u : ℤ) → u +ℤ neg_ℤ u ≡ pos 0
      cancel u = omega int_laws

  balanced_expense :
      (e : ExpenseRecord) → IsBalanced e → posted_in_all (expense_postings aliases e) ≡ pos 0
  balanced_expense e h = elim (Bool-cases e.published) [
    | inl published ↦ rw published (balanced_fields e.fields (h published))
    | inr draft ↦ rw draft refl
  ]

  balanced_expenses :
      (es : List ExpenseRecord)
      → All IsBalanced es
      → posted_in_all (flat_map (expense_postings aliases) es) ≡ pos 0
  balanced_expenses [] h = refl
  balanced_expenses (e ∷ es) h =
      posted_in_all-append (expense_postings aliases e) (flat_map (expense_postings aliases) es)
      ∙ ap₂ (λ u v. u +ℤ v) (balanced_expense e h.0) (balanced_expenses es h.1)
      ∙ (omega int_laws)

  settlements_in_all :
      (ss : List SettlementRecord)
      → posted_in_all (flat_map (settlement_postings aliases) ss) ≡ pos 0
  settlements_in_all [] = refl
  settlements_in_all (s ∷ ss) =
      ap (λ v. s.amount +ℤ (neg_ℤ s.amount +ℤ v)) (settlements_in_all ss) ∙ cancel s.amount
    where
      cancel : (u : ℤ) → u +ℤ (neg_ℤ u +ℤ pos 0) ≡ pos 0
      cancel u = omega int_laws

-- Balanced expenses and settlements post nothing in all.
posted-zero :
    (p : Projection) → All IsBalanced (values p.expenses) → posted_in_all (postings p) ≡ pos 0
posted-zero p h =
    posted_in_all-append (flat_map (expense_postings p.aliases) (values p.expenses))
      (flat_map (settlement_postings p.aliases) (values p.settlements))
    ∙ ap₂ (λ u v. u +ℤ v) (balanced_expenses p.aliases (values p.expenses) h)
        (settlements_in_all p.aliases (values p.settlements))
    ∙ (omega int_laws)

-- Where the published expenses are balanced and the amounts together stay below 2^63, the payments
-- that `settle_up` suggests are there, and they settle everybody: a user who owes on balance pays
-- exactly that, and a user who is owed receives exactly that, where the balance is what is posted
-- to the user.
pub settle_up-settles :
    (p : Projection)
    → All IsBalanced (values p.expenses)
    → volume (postings p) < 2 ^ 63
    → (ts : List Transfer) × (settle_up p ≡ some ts)
      × ((q : UserId)
          → (paid_by_user q ts ≡ neg_part (posted q (postings p)))
            × (received_by q ts ≡ pos_part (posted q (postings p))))
unfolding settle_up
settle_up-settles p balanced h =
    let (net, made, exact, total, sorted, negatable) = net_balances-exact p h in
    let ledger : IsLedger net = record {
      sorted = sorted;
      in_range = negatable;
      zero_sum = total ∙ posted-zero p balanced;
    } in
    (
      simplify_debts net,
      ap (λ (m : Option Net). m >>= λ net. some (simplify_debts net)) made,
      (λ q.
          let (pays, gets, _) = simplify_debts-settles net ledger q in
          (pays ∙ ap neg_part (exact q), gets ∙ ap pos_part (exact q))),
    )
