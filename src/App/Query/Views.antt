-- ===== src/App/Query/Views.antt =====
-- The groups, expenses, friends and devices shown (splittr-app/src/query.rs).
use splittr.Prelude.{
  ℕ, Bool, false, Option, none, some, List, [], ◌∷◌, map, not, ◌&&◌, ◌||◌, ◌>>=◌, Ordering,
}
use splittr.Prelude.Int.{ℤ, pos, int_ord, cmp_ℤ}
use splittr.Prelude.Ord.{Bytes, same, bytes_ord, cmp_bytes, then_with}
use splittr.Prelude.Lists.{length, filter_by, sort_by}
use splittr.Prelude.Text.{utf8}
use splittr.BTree.{get, get_or, contains_key, keys, retain}
use splittr.Domain.Ids.{UserId, GroupId, ExpenseId, SettlementId}
use splittr.Domain.Money.{Cents, add, sub}
use splittr.Domain.Currency.{OriginalAmount}
use splittr.Domain.Split.{Split}
use splittr.Domain.Debt.{Transfer}
use splittr.Domain.Expense.{ExpenseFields}
use splittr.Crdt.Identity.{PublicKey, hex32}
use splittr.Crdt.Projection.{
  Projection, GroupRecord, ExpenseRecord, SettlementRecord, DeviceRecord, for_group,
}
use splittr.Crdt.Balance.{net_balances, my_net_by_group, pairwise_with, settle_up, for_each}

pub record DeviceView : Type 0 where
  pub device : Bytes
  pub site : ℕ
  pub revoked : Bool
  pub this_device : Bool

pub record GroupSummary : Type 0 where
  pub id : GroupId
  pub name : Bytes
  pub currency : Bytes
  pub member_count : ℕ
  pub my_net : Cents

pub record MemberBalance : Type 0 where
  pub user : UserId
  pub name : Bytes
  pub net : Cents

pub record MemberAmount : Type 0 where
  pub user : UserId
  pub name : Bytes
  pub cents : Cents

pub record ExpenseView : Type 0 where
  pub id : ExpenseId
  pub group : Option GroupId
  pub group_name : Option Bytes
  pub description : Bytes
  pub total : Cents
  pub currency : Bytes
  pub category : Bytes
  pub date_ms : ℤ
  pub notes : Option Bytes
  pub my_net : Cents
  pub locked : Bool
  pub published : Bool
  pub original : Option OriginalAmount
  pub paid_by : List MemberAmount
  pub splits : List MemberAmount

pub record SettlementView : Type 0 where
  pub id : SettlementId
  pub from : UserId
  pub from_name : Bytes
  pub to : UserId
  pub to_name : Bytes
  pub amount : Cents

pub record GroupDetail : Type 0 where
  pub id : GroupId
  pub name : Bytes
  pub currency : Bytes
  pub members : List MemberBalance
  pub expenses : List ExpenseView
  pub settlements : List SettlementView
  pub settle_up : List Transfer

pub record FriendBalance : Type 0 where
  pub user : UserId
  pub name : Bytes
  pub net : Cents

pub record FriendDetail : Type 0 where
  pub user : UserId
  pub name : Bytes
  pub net : Cents
  pub shared : List ExpenseView

-- `iter().map(..).collect()` with a body that may panic.
unfoldable pub map_or_panic : {A B : Type 0} → (A → Option B) → List A → Option (List B)
map_or_panic f [] = some []
map_or_panic f (x ∷ xs) = f x >>= λ y. map_or_panic f xs >>= λ ys. some (y ∷ ys)

-- `iter().any(..)`
unfoldable pub any_of : {A : Type 0} → (A → Bool) → List A → Bool
any_of p [] = false
any_of p (x ∷ xs) = p x || any_of p xs

unfoldable pub display_name : Projection → UserId → Bytes
unfolding get
display_name p user = elim (get user p.users) [ none ↦ user | some r ↦ r.name ]

unfoldable pub member_amount : Projection → UserId → Cents → MemberAmount
unfolding display_name
member_amount p user cents = record { user = user; name = display_name p user; cents = cents }

-- The record of an optional group.
abbrev pub group_of : Projection → Option GroupId → Option GroupRecord
group_of p none = none
group_of p (some g) = get g p.groups

-- The group's currency; USD where there is none.
abbrev pub currency_of : Option GroupRecord → Bytes
currency_of none = utf8 "USD"
currency_of (some g) = g.currency

abbrev pub name_of : Option GroupRecord → Option Bytes
name_of none = none
name_of (some g) = some g.name

-- What the user's shares of an expense come to.
unfoldable pub owed_by : UserId → ExpenseFields → Option Cents
owed_by user fields =
    for_each (λ acc (s : Split). add acc s.owed)
      (filter_by (λ (s : Split). same s.user user) fields.splits) (pos 0)

unfoldable pub expense_view :
    Projection → (me : UserId) → ExpenseId × ExpenseRecord → Option ExpenseView
unfolding get owed_by member_amount
expense_view p me (id, e) =
    let paid = get_or me (pos 0) e.fields.paid_by in
    owed_by me e.fields >>= λ owed. sub paid owed >>= λ my_net. some (record {
      id = id;
      group = e.group;
      group_name = name_of (group_of p e.group);
      description = e.fields.description;
      total = e.fields.total;
      currency = currency_of (group_of p e.group);
      category = e.fields.category;
      date_ms = e.fields.date_ms;
      notes = e.fields.notes;
      my_net = my_net;
      locked = e.locked;
      published = e.published;
      original = e.fields.original;
      paid_by = map (λ (x : UserId × Cents). member_amount p x.0 x.1) e.fields.paid_by;
      splits = map (λ (s : Split). member_amount p s.user s.owed) e.fields.splits;
    })

-- Most recent first, then by id.
abbrev pub by_recency : ExpenseView → ExpenseView → Ordering
by_recency a b = then_with (cmp_ℤ b.date_ms a.date_ms) (cmp_bytes a.id b.id)

unfoldable pub overall_net : Projection → (me : UserId) → Option Cents
unfolding net_balances get
overall_net p me = net_balances p >>= λ net. some (get_or me (pos 0) net)

unfoldable pub groups : Projection → (me : UserId) → Option (List GroupSummary)
unfolding my_net_by_group get
groups p me = my_net_by_group p me >>= λ nets. some (
    map
      (λ (e : GroupId × GroupRecord). record {
        id = e.0;
        name = e.1.name;
        currency = e.1.currency;
        member_count = length e.1.members;
        my_net = get_or e.0 (pos 0) nets;
      })
      p.groups)

abbrev pub settlement_view : Projection → SettlementId × SettlementRecord → SettlementView
settlement_view p (id, s) = record {
  id = id;
  from = s.from;
  from_name = display_name p s.from;
  to = s.to;
  to_name = display_name p s.to;
  amount = s.amount;
}

-- `group_detail` for a group that is there.
unfoldable pub detail_of : Projection → (me : UserId) → GroupId → GroupRecord → Option GroupDetail
unfolding net_balances settle_up for_group expense_view sort_by get
detail_of p me group g =
    let scoped = for_group p group in
    net_balances scoped >>= λ net. map_or_panic (expense_view p me) scoped.expenses >>= λ expenses.
    settle_up scoped >>= λ transfers. some (record {
      id = group;
      name = g.name;
      currency = g.currency;
      members =
          map
            (λ user. record {
              user = user;
              name = display_name p user;
              net = get_or user (pos 0) net;
            })
            (keys g.members);
      expenses = sort_by by_recency expenses;
      settlements =
          sort_by (λ (a b : SettlementView). cmp_bytes a.id b.id)
            (map (settlement_view p) scoped.settlements);
      settle_up = transfers;
    })

-- Its answer is `none` where the group is not there.
unfoldable pub group_detail : Projection → (me : UserId) → GroupId → Option (Option GroupDetail)
unfolding detail_of
group_detail p me group = elim (get group p.groups) [
  | none ↦ some none
  | some g ↦ detail_of p me group g >>= λ d. some (some d)
]

unfoldable pub participates : ExpenseRecord → UserId → Bool
unfolding any_of get
participates e user =
    contains_key user e.fields.paid_by || any_of (λ (s : Split). same s.user user) e.fields.splits

unfoldable pub friends : Projection → (me : UserId) → Option (List FriendBalance)
unfolding pairwise_with get display_name
friends p me = pairwise_with p me >>= λ owed. some (
    map (λ u. record { user = u; name = display_name p u; net = get_or u (pos 0) owed })
      (filter_by (λ u. not (same u me)) (keys p.users)))

unfoldable pub friend_detail : Projection → (me friend : UserId) → Option (Option FriendDetail)
unfolding pairwise_with participates expense_view sort_by retain
friend_detail p me friend = elim (get friend p.users) [
  | none ↦ some none
  | some _ ↦ pairwise_with p me >>= λ owed.
      map_or_panic (expense_view p me)
        (retain (λ _ e. participates e me && participates e friend) p.expenses)
      >>= λ shared. some (
          some (record {
            user = friend;
            name = display_name p friend;
            net = get_or friend (pos 0) owed;
            shared = sort_by by_recency shared;
          }))
]

unfoldable pub devices : Projection → (identity this_device : PublicKey) → List DeviceView
unfolding hex32 retain
devices p identity this_device =
    map
      (λ (x : PublicKey × DeviceRecord). record {
        device = hex32 x.0;
        site = x.1.site;
        revoked = x.1.revoked;
        this_device = same x.0 this_device;
      })
      (retain (λ _ (rec : DeviceRecord). same rec.identity identity) p.devices)
