-- ===== src/Ffi/Convert.antt =====
-- splittr-ffi/src/convert.rs: between the types of the application and those of the border.
use splittr.Prelude.{ℕ, ◌^◌, ◌%◌, Option, none, some, List, [], map, foldl, Result, ok, err}
use splittr.Prelude.Int.{ℤ, pos, negsuc, wrap_i64}
use splittr.Prelude.Ord.{Bytes, bytes_ord}
use splittr.Prelude.Text.{utf8}
use splittr.BTree.{BTreeMap, insert}
use splittr.Domain.Ids.{UserId}
use splittr.Domain.Money.{Cents}
use splittr.Domain.Currency.{OriginalAmount}
use splittr.Domain.Split.{SplitPlan}
use splittr.Domain.Debt.{Transfer}
use splittr.Store.OpStore.{StoreError}
use splittr.App.Error.{AppError}
use splittr.App.Fields.{ExpenseFieldsInput}
use splittr.App.Query.Views.{
  DeviceView, GroupSummary, MemberBalance, MemberAmount, ExpenseView, SettlementView, GroupDetail,
  FriendBalance, FriendDetail,
}
use splittr.App.Query.Activity.{ActivityEntry}
use splittr.Ffi.Dto.{
  Payer, Weight, OriginalAmountDto, SplitPlanDto, ExpenseInput, GroupSummaryDto, MemberBalanceDto,
  MemberAmountDto, ExpenseViewDto, SettlementViewDto, TransferDto, GroupDetailDto, FriendBalanceDto,
  FriendDetailDto, ActivityEntryDto, DeviceViewDto,
}

-- An `anyhow::Error`: an error of the application or of the log, or a text.
pub data Failure : Type 0 where
  app_error : AppError → Failure
  store_error : StoreError → Failure
  message : Bytes → Failure

abbrev pub device_dto : DeviceView → DeviceViewDto
device_dto d = record {
  device = d.device;
  site = d.site;
  revoked = d.revoked;
  this_device = d.this_device;
}

-- `u64::try_from`
unfoldable pub rate_micro_u64 : ℤ → Result Failure ℕ
rate_micro_u64 (pos n) = ok n
rate_micro_u64 (negsuc _) = err (message (utf8 "rate_micro must be non-negative"))

unfoldable pub to_original : Option OriginalAmountDto → Result Failure (Option OriginalAmount)
unfolding rate_micro_u64
to_original none = ok none
to_original (some o) = elim (rate_micro_u64 o.rate_micro) [
  | err e ↦ err e
  | ok rate ↦
      ok (some (record { currency = o.currency; amount = o.amount_cents; rate_micro = rate }))
]

-- `rate_micro as i64` wraps around.
abbrev pub original_dto : OriginalAmount → OriginalAmountDto
original_dto o = record {
  currency = o.currency;
  amount_cents = o.amount;
  rate_micro = wrap_i64 (pos o.rate_micro);
}

-- `collect` into a map: of two entries of one user the later stands.
unfoldable pub to_paid_by : List Payer → BTreeMap UserId Cents
unfolding insert
to_paid_by payers = foldl (λ paid (p : Payer). insert p.user_id p.cents paid) [] payers

unfoldable pub to_weights : List Weight → BTreeMap UserId ℕ
unfolding insert
to_weights weights = foldl (λ shares (w : Weight). insert w.user_id w.weight shares) [] weights

unfoldable pub to_split_plan : SplitPlanDto → SplitPlan
unfolding to_paid_by to_weights
to_split_plan (SplitPlanDto.equal participants) = SplitPlan.equal participants
to_split_plan (SplitPlanDto.exact amounts) = SplitPlan.exact (to_paid_by amounts)
to_split_plan (SplitPlanDto.weighted weights) = SplitPlan.weighted (to_weights weights)

unfoldable pub to_fields : ExpenseInput → Result Failure ExpenseFieldsInput
unfolding to_paid_by to_split_plan to_original
to_fields input = elim (to_original input.original) [
  | err e ↦ err e
  | ok original ↦ ok (record {
    description = input.description;
    paid_by = to_paid_by input.paid_by;
    total = input.total_cents;
    split = to_split_plan input.split;
    category = input.category;
    notes = input.notes;
    date_ms = input.date_ms;
    original = original;
  })
]

-- `member_count as u32`
abbrev pub group_summary_dto : GroupSummary → GroupSummaryDto
group_summary_dto g = record {
  id = g.id;
  name = g.name;
  currency = g.currency;
  member_count = g.member_count % 2 ^ 32;
  my_net_cents = g.my_net;
}

abbrev pub member_balance_dto : MemberBalance → MemberBalanceDto
member_balance_dto m = record { user_id = m.user; name = m.name; net_cents = m.net }

abbrev pub member_amount_dto : MemberAmount → MemberAmountDto
member_amount_dto m = record { user_id = m.user; name = m.name; cents = m.cents }

abbrev pub expense_dto : ExpenseView → ExpenseViewDto
expense_dto e = record {
  id = e.id;
  group_id = e.group;
  group_name = e.group_name;
  description = e.description;
  total_cents = e.total;
  currency = e.currency;
  category = e.category;
  date_ms = e.date_ms;
  notes = e.notes;
  my_net_cents = e.my_net;
  locked = e.locked;
  published = e.published;
  original = elim e.original [ none ↦ none | some o ↦ some (original_dto o) ];
  paid_by = map member_amount_dto e.paid_by;
  splits = map member_amount_dto e.splits;
}

abbrev pub settlement_dto : SettlementView → SettlementViewDto
settlement_dto s = record {
  id = s.id;
  from = s.from;
  from_name = s.from_name;
  to = s.to;
  to_name = s.to_name;
  amount_cents = s.amount;
}

abbrev pub friend_balance_dto : FriendBalance → FriendBalanceDto
friend_balance_dto f = record { user_id = f.user; name = f.name; net_cents = f.net }

abbrev pub friend_detail_dto : FriendDetail → FriendDetailDto
friend_detail_dto f = record {
  user_id = f.user;
  name = f.name;
  net_cents = f.net;
  shared = map expense_dto f.shared;
}

abbrev pub activity_dto : ActivityEntry → ActivityEntryDto
activity_dto a = record { kind = a.kind; summary = a.summary; wall_ms = a.wall_ms }

abbrev pub transfer_dto : Transfer → TransferDto
transfer_dto t = record { from = t.from; to = t.to; amount_cents = t.amount }

abbrev pub group_detail_dto : GroupDetail → GroupDetailDto
group_detail_dto d = record {
  id = d.id;
  name = d.name;
  currency = d.currency;
  members = map member_balance_dto d.members;
  expenses = map expense_dto d.expenses;
  settlements = map settlement_dto d.settlements;
  settle_up = map transfer_dto d.settle_up;
}
