-- ===== src/Crdt/Op.antt =====
-- splittr-crdt/src/op.rs: operations of the log. The hash, the signature scheme and the canonical
-- encoding (postcard) are other packages' code: a parameter.
use splittr.Prelude.{ℕ, Bool, Option, if◌then◌else◌, Result, ok, err}
use splittr.Prelude.Ord.{Bytes, same, bytes_ord, pair_ord}
use splittr.Prelude.Int.{ℤ}
use splittr.Domain.Ids.{UserId, GroupId, ExpenseId, SettlementId}
use splittr.Domain.Money.{Cents}
use splittr.Domain.Expense.{ExpenseFields}
use splittr.Crdt.Clock.{Hlc}
use splittr.Crdt.Identity.{PublicKey}

-- The 32 bytes of a BLAKE3 hash.
abbrev pub OpId : Type 0
OpId = Bytes

pub data OpKind : Type 0 where
  create_group : (group : GroupId) (name : Bytes) → OpKind
  set_group_name : (group : GroupId) (name : Bytes) → OpKind
  set_group_currency : (group : GroupId) (currency : Bytes) → OpKind
  set_membership : (group : GroupId) (user : UserId) (member : Bool) → OpKind
  create_expense :
      (expense : ExpenseId) (group : Option GroupId) (fields : ExpenseFields) (draft : Bool)
      → OpKind
  edit_expense : (expense : ExpenseId) (fields : ExpenseFields) → OpKind
  publish_expense : (expense : ExpenseId) → OpKind
  void_expense : (expense : ExpenseId) → OpKind
  set_expense_lock : (expense : ExpenseId) (locked : Bool) → OpKind
  set_closed_period : (group : GroupId) (until_ms : ℤ) → OpKind
  record_settlement :
      (settlement : SettlementId) (group : Option GroupId) (from to : UserId) (amount : Cents)
      → OpKind
  void_settlement : (settlement : SettlementId) → OpKind
  add_alias : (alias canonical : UserId) → OpKind
  declare_friend : (other : UserId) → OpKind
  upsert_profile : (user : UserId) (name : Bytes) → OpKind
  set_agreement_key : (user : UserId) (key : Bytes) → OpKind
  authorize_device : (identity device : PublicKey) (site : ℕ) → OpKind
  revoke_device : (identity device : PublicKey) → OpKind

pub record Op : Type 0 where
  pub id : OpId
  pub hlc : Hlc
  pub author : PublicKey
  pub sig : Bytes
  pub kind : OpKind

pub data VerifyError : Type 0 where
  hash_mismatch bad_signature : VerifyError

-- What `splittr-crypto` and the packages blake3 and postcard give.
pub record Crypto : Type 1 where
  pub SigningKey : Type 0
  pub public : SigningKey → PublicKey
  pub sign : SigningKey → Bytes → Bytes
  pub check : PublicKey → Bytes → Bytes → Bool
  pub hash : Bytes → OpId
  pub encode : Hlc → PublicKey → OpKind → Bytes

module _ (crypto : Crypto) where
  unfoldable pub canonical : Hlc → PublicKey → OpKind → Bytes
  canonical hlc author kind = crypto.encode hlc author kind

  unfoldable pub signed : Hlc → crypto.SigningKey → OpKind → Op
  unfolding canonical
  signed hlc key kind =
      let author = crypto.public key in
      let content = canonical hlc author kind in
      record {
        id = crypto.hash content;
        hlc = hlc;
        author = author;
        sig = crypto.sign key content;
        kind = kind;
      }

  unfoldable pub verify : Op → Result VerifyError (Unit {0})
  unfolding canonical
  verify op =
      let content = canonical op.hlc op.author op.kind in
      if same (crypto.hash content) op.id
      then (if crypto.check op.author content op.sig then ok tt else err bad_signature)
      else err hash_mismatch

-- The order that linearizes authorization decisions (authorize.rs).
abbrev pub Order : Type 0
Order = Hlc × OpId

abbrev pub order_of : Op → Order
order_of op = (op.hlc, op.id)
