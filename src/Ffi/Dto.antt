-- ===== src/Ffi/Dto.antt =====
-- splittr-ffi/src/dto.rs: what crosses the border to the user interface. Ids are texts, amounts are
-- `i64` cents.
use splittr.Prelude.{ℕ, Bool, Option, List}
use splittr.Prelude.Int.{ℤ}
use splittr.Prelude.Ord.{Bytes}

pub record Payer : Type 0 where
  pub user_id : Bytes
  pub cents : ℤ

pub record Weight : Type 0 where
  pub user_id : Bytes
  pub weight : ℕ

pub record OriginalAmountDto : Type 0 where
  pub currency : Bytes
  pub amount_cents : ℤ
  pub rate_micro : ℤ

pub data SplitPlanDto : Type 0 where
  equal : (participants : List Bytes) → SplitPlanDto
  exact : (amounts : List Payer) → SplitPlanDto
  weighted : (weights : List Weight) → SplitPlanDto

pub record ExpenseInput : Type 0 where
  pub group_id : Option Bytes
  pub description : Bytes
  pub paid_by : List Payer
  pub total_cents : ℤ
  pub split : SplitPlanDto
  pub category : Bytes
  pub notes : Option Bytes
  pub date_ms : ℤ
  pub draft : Bool
  pub original : Option OriginalAmountDto

pub record GroupSummaryDto : Type 0 where
  pub id : Bytes
  pub name : Bytes
  pub currency : Bytes
  pub member_count : ℕ
  pub my_net_cents : ℤ

pub record MemberBalanceDto : Type 0 where
  pub user_id : Bytes
  pub name : Bytes
  pub net_cents : ℤ

pub record MemberAmountDto : Type 0 where
  pub user_id : Bytes
  pub name : Bytes
  pub cents : ℤ

pub record ExpenseViewDto : Type 0 where
  pub id : Bytes
  pub group_id : Option Bytes
  pub group_name : Option Bytes
  pub description : Bytes
  pub total_cents : ℤ
  pub currency : Bytes
  pub category : Bytes
  pub date_ms : ℤ
  pub notes : Option Bytes
  pub my_net_cents : ℤ
  pub locked : Bool
  pub published : Bool
  pub original : Option OriginalAmountDto
  pub paid_by : List MemberAmountDto
  pub splits : List MemberAmountDto

pub record SettlementViewDto : Type 0 where
  pub id : Bytes
  pub from : Bytes
  pub from_name : Bytes
  pub to : Bytes
  pub to_name : Bytes
  pub amount_cents : ℤ

pub record TransferDto : Type 0 where
  pub from : Bytes
  pub to : Bytes
  pub amount_cents : ℤ

pub record GroupDetailDto : Type 0 where
  pub id : Bytes
  pub name : Bytes
  pub currency : Bytes
  pub members : List MemberBalanceDto
  pub expenses : List ExpenseViewDto
  pub settlements : List SettlementViewDto
  pub settle_up : List TransferDto

pub record FriendBalanceDto : Type 0 where
  pub user_id : Bytes
  pub name : Bytes
  pub net_cents : ℤ

pub record FriendDetailDto : Type 0 where
  pub user_id : Bytes
  pub name : Bytes
  pub net_cents : ℤ
  pub shared : List ExpenseViewDto

pub record ActivityEntryDto : Type 0 where
  pub kind : Bytes
  pub summary : Bytes
  pub wall_ms : ℤ

pub record DeviceViewDto : Type 0 where
  pub device : Bytes
  pub site : ℕ
  pub revoked : Bool
  pub this_device : Bool

pub record InviteDto : Type 0 where
  pub inviter : Bytes
  pub context : Bytes
  pub expiry_ms : ℕ
  pub valid : Bool
