-- ===== src/Crdt/Materialize/Commute.antt =====
-- Two ops with different clocks fold in either order (materialize.rs). Every field of the
-- accumulator is written by one kind of step: a last-writer-wins write or a set insertion.
use splittr.Prelude.{Bool, true, false, Option, none, some, ◌≡◌, ◌≢◌, refl, sym, ap, ◌∙◌}
use splittr.Prelude.Ord.{Bytes, bytes_ord}
use splittr.Prelude.Int.{ℤ}
use splittr.BTree.{BTreeMap, BTreeSet, set_insert}
use splittr.BTree.Commute.{set_insert_comm, insert_greatest_comm}
use splittr.Domain.Ids.{GroupId}
use splittr.Domain.Expense.{ExpenseFields}
use splittr.Crdt.Clock.{Hlc, hlc_ord, eq_of_hlc}
use splittr.Crdt.Op.{
  Op, OpKind, create_group, set_group_name, set_group_currency, create_expense, edit_expense,
  publish_expense, void_expense, set_expense_lock, set_closed_period, record_settlement,
  void_settlement, upsert_profile, set_agreement_key,
}
use splittr.Crdt.Materialize.Apply.{
  Stamped, stamped_at, stamp, lww, SettlementData, Folder, apply_kind, apply,
}

-- A write of some value at a key, if any.
write_lww :
    {V : Type 0}
    → Option (Bytes × V)
    → Hlc
    → BTreeMap Bytes (Stamped V)
    → BTreeMap Bytes (Stamped V)
write_lww none hlc m = m
write_lww (some (k, v)) hlc m = lww k (stamp hlc v) m

write_set : Option Bytes → BTreeSet Bytes → BTreeSet Bytes
write_set none s = s
write_set (some k) s = set_insert k s

write_lww_comm :
    {V : Type 0} (v w : Option (Bytes × V)) (g h : Hlc) (m : BTreeMap Bytes (Stamped V))
    → g ≢ h
    → write_lww w h (write_lww v g m) ≡ write_lww v g (write_lww w h m)
unfolding write_lww lww
write_lww_comm none w g h m ne = refl
write_lww_comm (some v) none g h m ne = refl
write_lww_comm (some (j, v)) (some (k, w)) g h m ne =
    insert_greatest_comm stamped_at j k (stamp g v) (stamp h w) m
      (λ _ e. absurd (ne (eq_of_hlc g h e)))

write_set_comm :
    (j k : Option Bytes) (s : BTreeSet Bytes)
    → write_set k (write_set j s) ≡ write_set j (write_set k s)
unfolding write_set
write_set_comm none k s = refl
write_set_comm (some j) none s = refl
write_set_comm (some j) (some k) s = set_insert_comm k j s

-- A field that each op changes by a step of its own commutes if its steps do.
module _ {X : Type 0} (field : Folder → X) (step : OpKind → Hlc → X → X)
    (law : (k : OpKind) (h : Hlc) (f : Folder) → field (apply_kind k h f) ≡ step k h (field f))
    (a b : Op)
    (comm : (x : X)
      → step b.kind b.hlc (step a.kind a.hlc x) ≡ step a.kind a.hlc (step b.kind b.hlc x)) where
  two_steps :
      (f : Folder) (j k : OpKind) (g h : Hlc)
      → field (apply_kind k h (apply_kind j g f)) ≡ step k h (step j g (field f))
  two_steps f j k g h = law k h (apply_kind j g f) ∙ ap (step k h) (law j g f)

  field_comm : (f : Folder) → field (apply (apply f a) b) ≡ field (apply (apply f b) a)
  unfolding apply
  field_comm f =
      two_steps f a.kind b.kind a.hlc b.hlc
      ∙ comm (field f)
      ∙ sym (two_steps f b.kind a.kind b.hlc a.hlc)

writes_group_created : OpKind → Option Bytes
writes_group_created (create_group g _) = some g
writes_group_created _ = none

group_created_law :
    (k : OpKind) (h : Hlc) (f : Folder)
    → (apply_kind k h f).group_created ≡ write_set (writes_group_created k) f.group_created
unfolding apply_kind write_set writes_group_created
group_created_law (create_group _ _) h f = refl
group_created_law _ h f = refl

writes_group_name : OpKind → Option (Bytes × Bytes)
writes_group_name (create_group g n) = some (g, n)
writes_group_name (set_group_name g n) = some (g, n)
writes_group_name _ = none

group_name_law :
    (k : OpKind) (h : Hlc) (f : Folder)
    → (apply_kind k h f).group_name ≡ write_lww (writes_group_name k) h f.group_name
unfolding apply_kind write_lww writes_group_name
group_name_law (create_group _ _) h f = refl
group_name_law _ h f = refl

writes_group_currency : OpKind → Option (Bytes × Bytes)
writes_group_currency (set_group_currency g c) = some (g, c)
writes_group_currency _ = none

group_currency_law :
    (k : OpKind) (h : Hlc) (f : Folder)
    → (apply_kind k h f).group_currency ≡ write_lww (writes_group_currency k) h f.group_currency
unfolding apply_kind write_lww writes_group_currency
group_currency_law (set_group_currency _ _) h f = refl
group_currency_law _ h f = refl

writes_group_closed_until : OpKind → Option (Bytes × ℤ)
writes_group_closed_until (set_closed_period g t) = some (g, t)
writes_group_closed_until _ = none

group_closed_until_law :
    (k : OpKind) (h : Hlc) (f : Folder)
    → (apply_kind k h f).group_closed_until
      ≡ write_lww (writes_group_closed_until k) h f.group_closed_until
unfolding apply_kind write_lww writes_group_closed_until
group_closed_until_law (set_closed_period _ _) h f = refl
group_closed_until_law _ h f = refl

writes_profiles : OpKind → Option (Bytes × Bytes)
writes_profiles (upsert_profile u n) = some (u, n)
writes_profiles _ = none

profiles_law :
    (k : OpKind) (h : Hlc) (f : Folder)
    → (apply_kind k h f).profiles ≡ write_lww (writes_profiles k) h f.profiles
unfolding apply_kind write_lww writes_profiles
profiles_law (upsert_profile _ _) h f = refl
profiles_law _ h f = refl

writes_agreement_keys : OpKind → Option (Bytes × Bytes)
writes_agreement_keys (set_agreement_key u k) = some (u, k)
writes_agreement_keys _ = none

agreement_keys_law :
    (k : OpKind) (h : Hlc) (f : Folder)
    → (apply_kind k h f).agreement_keys ≡ write_lww (writes_agreement_keys k) h f.agreement_keys
unfolding apply_kind write_lww writes_agreement_keys
agreement_keys_law (set_agreement_key _ _) h f = refl
agreement_keys_law _ h f = refl

writes_expense_group : OpKind → Option (Bytes × (Option GroupId))
writes_expense_group (create_expense e g _ _) = some (e, g)
writes_expense_group _ = none

expense_group_law :
    (k : OpKind) (h : Hlc) (f : Folder)
    → (apply_kind k h f).expense_group ≡ write_lww (writes_expense_group k) h f.expense_group
unfolding apply_kind write_lww writes_expense_group
expense_group_law (create_expense _ _ _ _) h f = refl
expense_group_law _ h f = refl

writes_expense_version : OpKind → Option (Bytes × ExpenseFields)
writes_expense_version (create_expense e _ fs _) = some (e, fs)
writes_expense_version (edit_expense e fs) = some (e, fs)
writes_expense_version _ = none

expense_version_law :
    (k : OpKind) (h : Hlc) (f : Folder)
    → (apply_kind k h f).expense_version ≡ write_lww (writes_expense_version k) h f.expense_version
unfolding apply_kind write_lww writes_expense_version
expense_version_law (create_expense _ _ _ _) h f = refl
expense_version_law _ h f = refl

writes_expense_locked : OpKind → Option (Bytes × Bool)
writes_expense_locked (set_expense_lock e l) = some (e, l)
writes_expense_locked _ = none

expense_locked_law :
    (k : OpKind) (h : Hlc) (f : Folder)
    → (apply_kind k h f).expense_locked ≡ write_lww (writes_expense_locked k) h f.expense_locked
unfolding apply_kind write_lww writes_expense_locked
expense_locked_law (set_expense_lock _ _) h f = refl
expense_locked_law _ h f = refl

writes_expense_published : OpKind → Option Bytes
writes_expense_published (create_expense e _ _ false) = some e
writes_expense_published (publish_expense e) = some e
writes_expense_published _ = none

expense_published_law :
    (k : OpKind) (h : Hlc) (f : Folder)
    → (apply_kind k h f).expense_published
      ≡ write_set (writes_expense_published k) f.expense_published
unfolding apply_kind write_set writes_expense_published
expense_published_law (create_expense e _ _ true) h f = refl
expense_published_law (create_expense e _ _ false) h f = refl
expense_published_law (publish_expense e) h f = refl
expense_published_law _ h f = refl

writes_expense_voided : OpKind → Option Bytes
writes_expense_voided (void_expense e) = some e
writes_expense_voided _ = none

expense_voided_law :
    (k : OpKind) (h : Hlc) (f : Folder)
    → (apply_kind k h f).expense_voided ≡ write_set (writes_expense_voided k) f.expense_voided
unfolding apply_kind write_set writes_expense_voided
expense_voided_law (void_expense _) h f = refl
expense_voided_law _ h f = refl

writes_settlements : OpKind → Option (Bytes × SettlementData)
writes_settlements (record_settlement s g from to amount) =
    some (s, record { group = g; from = from; to = to; amount = amount })
writes_settlements _ = none

settlements_law :
    (k : OpKind) (h : Hlc) (f : Folder)
    → (apply_kind k h f).settlements ≡ write_lww (writes_settlements k) h f.settlements
unfolding apply_kind write_lww writes_settlements
settlements_law (record_settlement _ _ _ _ _) h f = refl
settlements_law _ h f = refl

writes_settlement_voided : OpKind → Option Bytes
writes_settlement_voided (void_settlement s) = some s
writes_settlement_voided _ = none

settlement_voided_law :
    (k : OpKind) (h : Hlc) (f : Folder)
    → (apply_kind k h f).settlement_voided
      ≡ write_set (writes_settlement_voided k) f.settlement_voided
unfolding apply_kind write_set writes_settlement_voided
settlement_voided_law (void_settlement _) h f = refl
settlement_voided_law _ h f = refl

-- Two ops of different clocks leave the accumulator of the fold the same in either order.
pub apply_comm : (f : Folder) (a b : Op) → a.hlc ≢ b.hlc → apply (apply f a) b ≡ apply (apply f b) a
apply_comm f a b ne = λ i. record {
  group_created = by_set (λ f. f.group_created) writes_group_created group_created_law i;
  group_name = by_lww (λ f. f.group_name) writes_group_name group_name_law i;
  group_currency = by_lww (λ f. f.group_currency) writes_group_currency group_currency_law i;
  group_closed_until =
      by_lww (λ f. f.group_closed_until) writes_group_closed_until group_closed_until_law i;
  profiles = by_lww (λ f. f.profiles) writes_profiles profiles_law i;
  agreement_keys = by_lww (λ f. f.agreement_keys) writes_agreement_keys agreement_keys_law i;
  expense_group = by_lww (λ f. f.expense_group) writes_expense_group expense_group_law i;
  expense_version = by_lww (λ f. f.expense_version) writes_expense_version expense_version_law i;
  expense_locked = by_lww (λ f. f.expense_locked) writes_expense_locked expense_locked_law i;
  expense_published =
      by_set (λ f. f.expense_published) writes_expense_published expense_published_law i;
  expense_voided = by_set (λ f. f.expense_voided) writes_expense_voided expense_voided_law i;
  settlements = by_lww (λ f. f.settlements) writes_settlements settlements_law i;
  settlement_voided =
      by_set (λ f. f.settlement_voided) writes_settlement_voided settlement_voided_law i;
}
  where
    by_set :
        (field : Folder → BTreeSet Bytes) (writes : OpKind → Option Bytes)
        → ((k : OpKind) (h : Hlc) (f : Folder)
            → field (apply_kind k h f) ≡ write_set (writes k) (field f))
        → field (apply (apply f a) b) ≡ field (apply (apply f b) a)
    by_set field writes law =
        field_comm field (λ k h. write_set (writes k)) law a b
          (λ s. write_set_comm (writes a.kind) (writes b.kind) s) f

    by_lww :
        {V : Type 0} (field : Folder → BTreeMap Bytes (Stamped V))
        (writes : OpKind → Option (Bytes × V))
        → ((k : OpKind) (h : Hlc) (f : Folder)
            → field (apply_kind k h f) ≡ write_lww (writes k) h (field f))
        → field (apply (apply f a) b) ≡ field (apply (apply f b) a)
    by_lww field writes law =
        field_comm field (λ k h. write_lww (writes k) h) law a b
          (λ m. write_lww_comm (writes a.kind) (writes b.kind) a.hlc b.hlc m ne) f
