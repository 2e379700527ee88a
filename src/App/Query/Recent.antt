-- ===== src/App/Query/Recent.antt =====
-- The list of a group's expenses (splittr-app/src/query.rs): what each view shows, and in what
-- order.
use splittr.Prelude.{
  ◌≡◌, ◌≢◌, refl, ap, ◌∙◌, Bool, true, false, Option, some, none, List, [], ◌∷◌, ◌>>=◌, >>=-eq-some,
  arith, ◌⊎◌, if◌then◌else◌,
}
use Prim.Native.Nat.Ordering.{gt}
use mathlib.Core.List.{Permᴰ}
use mathlib.Core.Path.{subst}
use splittr.Prelude.Int.{ℤ, pos, int_flip, int_ord, int_laws, ◌<ℤ◌, ◌+ℤ◌, ◌-ℤ◌}
use splittr.Prelude.Ord.{same, cmp_bytes, bytes_flip, bytes_ord}
use splittr.Prelude.Lists.{filter_by}
use splittr.Prelude.Sorted.{Neighbours, IsOrdered-Neighbours, sort_by-IsOrdered, sort_by-Permᴰ}
use splittr.BTree.{get, get_or}
use splittr.Domain.Ids.{UserId, GroupId, ExpenseId}
use splittr.Domain.Money.{Cents, add, sub}
use splittr.Domain.Money.Laws.{add-eq-some, sub-eq-some}
use splittr.Domain.Split.{Split}
use splittr.Crdt.Balance.{net_balances, settle_up, for_each}
use splittr.Crdt.Projection.{Projection, GroupRecord, ExpenseRecord, for_group}
use splittr.App.Query.Views.{
  ExpenseView, GroupDetail, by_recency, detail_of, group_detail, expense_view, map_or_panic,
  owed_by,
}

-- `a` may stand before `b`: it is of a later date, or of the same date with an id that is not
-- greater.
abbrev pub IsRecent : ExpenseView → ExpenseView → Type 0
IsRecent a b = (b.date_ms <ℤ a.date_ms) ⊎ ((a.date_ms ≡ b.date_ms) × (cmp_bytes a.id b.id ≢ gt))

by_recency-total : (a b : ExpenseView) → by_recency a b ≡ gt → by_recency b a ≢ gt
by_recency-total a b h = ground (arith, int_flip a.date_ms b.date_ms, bytes_flip a.id b.id)

by_recency-IsRecent : (a b : ExpenseView) → by_recency a b ≢ gt → IsRecent a b
by_recency-IsRecent a b h = ground (arith, int_ord.eq_of_cmp b.date_ms a.date_ms)

-- What the splits of a user come to, with no bound.
abbrev pub share_of : UserId → List Split → ℤ
share_of user [] = pos 0
share_of user (s ∷ ss) = if same s.user user then s.owed +ℤ share_of user ss else share_of user ss

owed-share_of :
    (user : UserId) (splits : List Split) (acc owed : Cents)
    → for_each
        (λ acc (s : Split). add acc s.owed)
        (filter_by (λ (s : Split). same s.user user) splits)
        acc
      ≡ some owed
    → owed ≡ acc +ℤ share_of user splits
owed-share_of user [] acc owed h = grind int_laws
owed-share_of user (s ∷ ss) acc owed h =
    on_user (λ a o. owed-share_of user ss a o) (same s.user user) h
  where
    body : Cents → Split → Option Cents
    body acc s = add acc s.owed

    others : List Split
    others = filter_by (λ (s : Split). same s.user user) ss

    on_user :
        ((a o : Cents) → for_each body others a ≡ some o → o ≡ a +ℤ share_of user ss)
        → (mine : Bool) → for_each body (if mine then s ∷ others else others) acc ≡ some owed
        → owed ≡ acc +ℤ (if mine then s.owed +ℤ share_of user ss else share_of user ss)
    on_user ih false k = ih acc owed k
    on_user ih true k =
        let (next, added, rest) = >>=-eq-some (add acc s.owed) (for_each body others) k in
        rw (ih next owed rest, add-eq-some acc s.owed next added) (omega int_laws)

-- The view is of the expense, with its date, its total and its text; the user's net is what the
-- user paid less the user's exact share.
pub record IsViewOf (p : Projection) (me : UserId) (x : ExpenseId × ExpenseRecord) (v : ExpenseView)
    : Type 0 where
  pub same_id : v.id ≡ x.0
  pub same_group : v.group ≡ x.1.group
  pub same_date : v.date_ms ≡ x.1.fields.date_ms
  pub same_total : v.total ≡ x.1.fields.total
  pub same_text :
      (v.description ≡ x.1.fields.description)
      × (v.category ≡ x.1.fields.category)
      × (v.notes ≡ x.1.fields.notes)
  pub same_state : (v.locked ≡ x.1.locked) × (v.published ≡ x.1.published)
  pub exact_net : v.my_net ≡ get_or me (pos 0) x.1.fields.paid_by -ℤ share_of me x.1.fields.splits

expense_view-IsViewOf :
    (p : Projection) (me : UserId) (x : ExpenseId × ExpenseRecord) (v : ExpenseView)
    → expense_view p me x ≡ some v
    → IsViewOf p me x v
unfolding expense_view owed_by
expense_view-IsViewOf p me (id, e) v h =
    let (owed, sum_owed, h1) = >>=-eq-some (owed_by me e.fields) _ h in
    let (net, subtracted, h2) = >>=-eq-some (sub (get_or me (pos 0) e.fields.paid_by) owed) _ h1 in
    subst (IsViewOf p me (id, e)) (some_injective h2) (record {
      same_id = refl;
      same_group = refl;
      same_date = refl;
      same_total = refl;
      same_text = (refl, refl, refl);
      same_state = (refl, refl);
      exact_net =
          sub-eq-some (get_or me (pos 0) e.fields.paid_by) owed net subtracted
          ∙ ap (λ o. get_or me (pos 0) e.fields.paid_by -ℤ o)
              (owed-share_of me e.fields.splits (pos 0) owed sum_owed ∙ zero_plus _);
    })
  where
    some_injective : {a b : ExpenseView} → some a ≡ some b → a ≡ b
    some_injective e = cc

    zero_plus : (z : ℤ) → pos 0 +ℤ z ≡ z
    zero_plus z = omega int_laws

-- A relation holds of the elements at each place of two lists of one length.
abbrev pub PlaceByPlace : {A B : Type 0} → (A → B → Type 0) → List A → List B → Type 0
PlaceByPlace R [] [] = Unit
PlaceByPlace R [] (y ∷ ys) = ⊥
PlaceByPlace R (x ∷ xs) [] = ⊥
PlaceByPlace R (x ∷ xs) (y ∷ ys) = R x y × PlaceByPlace R xs ys

map_or_panic-PlaceByPlace :
    {A B : Type 0} (f : A → Option B) (R : A → B → Type 0)
    → ((x : A) (y : B) → f x ≡ some y → R x y)
    → (xs : List A) (ys : List B) → map_or_panic f xs ≡ some ys
    → PlaceByPlace R xs ys
unfolding map_or_panic
map_or_panic-PlaceByPlace {B} f R holds [] ys h =
    let same_list : ◌≡◌ {A = List B} [] ys = cc in subst (PlaceByPlace R []) same_list tt
map_or_panic-PlaceByPlace f R holds (x ∷ xs) ys h =
    let (y, first, h1) = >>=-eq-some (f x) _ h in
    let (rest, others, h2) = >>=-eq-some (map_or_panic f xs) _ h1 in
    let same_list : y ∷ rest ≡ ys = cc in
    subst (PlaceByPlace R (x ∷ xs)) same_list
      (holds x y first, map_or_panic-PlaceByPlace f R holds xs rest others)

module _ (p : Projection) (me : UserId) (group : GroupId) where
  -- A view for each expense of the group; these views in another order, the most recent first.
  abbrev pub ShowsExpenses : GroupDetail → Type 0
  ShowsExpenses d =
      (views : List ExpenseView) × PlaceByPlace (IsViewOf p me) (for_group p group).expenses views
      × Permᴰ views d.expenses
      × Neighbours IsRecent d.expenses

  detail_of-ShowsExpenses :
      (g : GroupRecord) (d : GroupDetail) → detail_of p me group g ≡ some d → ShowsExpenses d
  unfolding detail_of
  detail_of-ShowsExpenses g d h =
      let (net, _, h1) = >>=-eq-some (net_balances (for_group p group)) _ h in
      let (views, made, h2) =
        >>=-eq-some (map_or_panic (expense_view p me) (for_group p group).expenses) _ h1 in
      let (transfers, _, h3) = >>=-eq-some (settle_up (for_group p group)) _ h2 in
      subst ShowsExpenses (some_injective h3) (
        views,
        map_or_panic-PlaceByPlace (expense_view p me) (IsViewOf p me) (expense_view-IsViewOf p me)
            (for_group p group).expenses views made,
        sort_by-Permᴰ by_recency views,
        IsOrdered-Neighbours by_recency IsRecent by_recency-IsRecent _
            (sort_by-IsOrdered by_recency by_recency-total views),
      )
    where
      some_injective : {a b : GroupDetail} → some a ≡ some b → a ≡ b
      some_injective e = cc

  -- The detail of a group shows one view for each expense of the group: its date, its total, its
  -- text, and as the user's net what the user paid less the exact sum of the user's splits. The
  -- views are in the order of their dates, the latest first, and of their ids where dates agree.
  pub group_detail-ShowsExpenses :
      (d : GroupDetail) → group_detail p me group ≡ some (some d) → ShowsExpenses d
  unfolding group_detail
  group_detail-ShowsExpenses d h = on_record (get group p.groups) h
    where
      on_record :
          (o : Option GroupRecord)
          → (elim o as (λ _. Option (Option GroupDetail)) [
            | none ↦ some none
            | some g ↦ detail_of p me group g >>= λ e. some (some e)
          ])
            ≡ some (some d)
          → ShowsExpenses d
      on_record none k = cc
      on_record (some g) k =
          let (e, made, whole) = >>=-eq-some (detail_of p me group g) (λ e. some (some e)) k in
          let same_detail : e ≡ d = cc in
          subst ShowsExpenses same_detail (detail_of-ShowsExpenses g e made)
