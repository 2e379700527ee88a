-- ===== src/Crdt/Materialize/Voided.antt =====
-- A deletion stands (splittr-crdt/src/materialize.rs): nothing in the log brings back what an
-- entitled op voids.
use splittr.Prelude.{
  Bool, true, false, Option, none, some, [], ◌∷◌, List, ◌++◌, foldl, ◌≡◌, ◌≢◌, refl, sym, arith,
  if◌then◌else◌,
}
use mathlib.Core.Path.{subst}
use splittr.Prelude.Ord.{Bytes, bytes_ord, eq_of_bytes}
use splittr.BTree.{BTreeMap, BTreeSet, get, insert, contains}
use splittr.BTree.Laws.{get-insert, contains-kept, contains-added}
use splittr.Domain.Ids.{GroupId, ExpenseId, SettlementId}
use splittr.Domain.Expense.{ExpenseFields}
use splittr.Crdt.Clock.{Hlc}
use splittr.Crdt.Op.{Op, OpKind, void_expense, void_settlement}
use splittr.Crdt.Projection.{ExpenseRecord, SettlementRecord}
use splittr.Crdt.Authorize.{Authority, build, entitled}
use splittr.Crdt.Materialize.{
  add_expense, add_settlement, assemble, apply_entitled, project, or_default, value_at,
}
use splittr.Crdt.Materialize.Apply.{
  Folder, Stamped, SettlementData, empty_folder, apply, apply_kind,
}

abbrev IsVoided : ExpenseId → Folder → Type 0
IsVoided expense f = contains expense f.expense_voided ≡ true

abbrev IsUndone : SettlementId → Folder → Type 0
IsUndone settlement f = contains settlement f.settlement_voided ≡ true

-- No op takes back a voiding.
IsVoided-apply_kind :
    (expense : ExpenseId) (kind : OpKind) (hlc : Hlc) (f : Folder)
    → IsVoided expense f
    → IsVoided expense (apply_kind kind hlc f)
unfolding apply_kind
IsVoided-apply_kind expense (OpKind.create_group _ _) hlc f h = h
IsVoided-apply_kind expense (OpKind.set_group_name _ _) hlc f h = h
IsVoided-apply_kind expense (OpKind.set_group_currency _ _) hlc f h = h
IsVoided-apply_kind expense (OpKind.set_membership _ _ _) hlc f h = h
IsVoided-apply_kind expense (OpKind.create_expense _ _ _ _) hlc f h = h
IsVoided-apply_kind expense (OpKind.edit_expense _ _) hlc f h = h
IsVoided-apply_kind expense (OpKind.publish_expense _) hlc f h = h
IsVoided-apply_kind expense (void_expense other) hlc f h =
    contains-kept expense other f.expense_voided h
IsVoided-apply_kind expense (OpKind.set_expense_lock _ _) hlc f h = h
IsVoided-apply_kind expense (OpKind.set_closed_period _ _) hlc f h = h
IsVoided-apply_kind expense (OpKind.record_settlement _ _ _ _ _) hlc f h = h
IsVoided-apply_kind expense (void_settlement _) hlc f h = h
IsVoided-apply_kind expense (OpKind.add_alias _ _) hlc f h = h
IsVoided-apply_kind expense (OpKind.declare_friend _) hlc f h = h
IsVoided-apply_kind expense (OpKind.upsert_profile _ _) hlc f h = h
IsVoided-apply_kind expense (OpKind.set_agreement_key _ _) hlc f h = h
IsVoided-apply_kind expense (OpKind.authorize_device _ _ _) hlc f h = h
IsVoided-apply_kind expense (OpKind.revoke_device _ _) hlc f h = h

IsUndone-apply_kind :
    (settlement : SettlementId) (kind : OpKind) (hlc : Hlc) (f : Folder)
    → IsUndone settlement f
    → IsUndone settlement (apply_kind kind hlc f)
unfolding apply_kind
IsUndone-apply_kind settlement (OpKind.create_group _ _) hlc f h = h
IsUndone-apply_kind settlement (OpKind.set_group_name _ _) hlc f h = h
IsUndone-apply_kind settlement (OpKind.set_group_currency _ _) hlc f h = h
IsUndone-apply_kind settlement (OpKind.set_membership _ _ _) hlc f h = h
IsUndone-apply_kind settlement (OpKind.create_expense _ _ _ _) hlc f h = h
IsUndone-apply_kind settlement (OpKind.edit_expense _ _) hlc f h = h
IsUndone-apply_kind settlement (OpKind.publish_expense _) hlc f h = h
IsUndone-apply_kind settlement (void_expense _) hlc f h = h
IsUndone-apply_kind settlement (OpKind.set_expense_lock _ _) hlc f h = h
IsUndone-apply_kind settlement (OpKind.set_closed_period _ _) hlc f h = h
IsUndone-apply_kind settlement (OpKind.record_settlement _ _ _ _ _) hlc f h = h
IsUndone-apply_kind settlement (void_settlement other) hlc f h =
    contains-kept settlement other f.settlement_voided h
IsUndone-apply_kind settlement (OpKind.add_alias _ _) hlc f h = h
IsUndone-apply_kind settlement (OpKind.declare_friend _) hlc f h = h
IsUndone-apply_kind settlement (OpKind.upsert_profile _ _) hlc f h = h
IsUndone-apply_kind settlement (OpKind.set_agreement_key _ _) hlc f h = h
IsUndone-apply_kind settlement (OpKind.authorize_device _ _ _) hlc f h = h
IsUndone-apply_kind settlement (OpKind.revoke_device _ _) hlc f h = h

-- What every op keeps, once an op has brought it about.
module _ (auth : Authority) (P : Folder → Type 0)
    (keeps : (kind : OpKind) (hlc : Hlc) (f : Folder) → P f → P (apply_kind kind hlc f)) where
  kept_by_all : (ops : List Op) (f : Folder) → P f → P (foldl (apply_entitled auth) f ops)
  unfolding apply_entitled apply
  kept_by_all [] f h = h
  kept_by_all (op ∷ ops) f h =
      kept_by_all ops (apply_entitled auth f op) (on_test (entitled auth op))
    where
      on_test : (b : Bool) → P (if b then apply f op else f)
      on_test true = keeps op.kind op.hlc f h
      on_test false = h

  stands :
      (before after : List Op) (op : Op) (f : Folder)
      → entitled auth op ≡ true
      → ((g : Folder) → P (apply g op))
      → P (foldl (apply_entitled auth) f (before ++ op ∷ after))
  unfolding apply_entitled
  stands [] after op f h made =
      kept_by_all after (apply_entitled auth f op)
        (subst (λ (b : Bool). P (if b then apply f op else f)) (sym h) (made f))
  stands (o ∷ before) after op f h made = stands before after op (apply_entitled auth f o) h made

absent-insert :
    {V : Type 0} (p q : Bytes) (w : V) (m : BTreeMap Bytes V)
    → get p m ≡ none
    → p ≢ q
    → get p (insert q w m) ≡ none
absent-insert p q w m absent other = ground (arith, get-insert p q w m, eq_of_bytes p q)

-- What is in a set is not what is not in it.
apart : (s : BTreeSet Bytes) (p q : Bytes) → contains p s ≡ true → contains q s ≡ false → p ≢ q
apart s p q h e same_id = absurd (cc)

-- The loop over the expenses leaves out what is voided.
left_out :
    (f : Folder) (expense : ExpenseId) (versions : BTreeMap ExpenseId (Stamped ExpenseFields))
    (m : BTreeMap ExpenseId ExpenseRecord)
    → IsVoided expense f
    → get expense m ≡ none
    → get expense (foldl (add_expense f) m versions) ≡ none
left_out f expense [] m h absent = absent
left_out f expense ((id, version) ∷ versions) m h absent =
    left_out f expense versions (add_expense f m (id, version)) h
      (on_tests (contains id f.expense_voided) refl (get id f.expense_group))
  where
    on_tests :
        (b : Bool)
        → contains id f.expense_voided ≡ b
        → (o : Option (Stamped (Option GroupId)))
        → get expense (
            if b then m else elim o [
              | none ↦ m
              | some group ↦
                  insert id
                    (record {
                      group = group.value;
                      fields = version.value;
                      locked = or_default false (value_at id f.expense_locked);
                      published = contains id f.expense_published;
                    })
                    m
            ])
          ≡ none
    on_tests true e o = absent
    on_tests false e none = absent
    on_tests false e (some group) =
        absent-insert expense id _ m absent (apart f.expense_voided expense id h e)

-- The loop over the settlements does too.
left_out_settlement :
    (f : Folder) (settlement : SettlementId)
    (entries : BTreeMap SettlementId (Stamped SettlementData))
    (m : BTreeMap SettlementId SettlementRecord)
    → IsUndone settlement f
    → get settlement m ≡ none
    → get settlement (foldl (add_settlement f) m entries) ≡ none
left_out_settlement f settlement [] m h absent = absent
left_out_settlement f settlement ((id, s) ∷ entries) m h absent =
    left_out_settlement f settlement entries (add_settlement f m (id, s)) h
      (on_test (contains id f.settlement_voided) refl)
  where
    on_test :
        (b : Bool)
        → contains id f.settlement_voided ≡ b
        → get settlement (
            if b
            then m
            else insert id
                (record {
                  group = s.value.group;
                  from = s.value.from;
                  to = s.value.to;
                  amount = s.value.amount;
                })
                m)
          ≡ none
    on_test true e = absent
    on_test false e =
        absent-insert settlement id _ m absent (apart f.settlement_voided settlement id h e)

-- An expense that an op of the log deletes, where the log entitles the op, is not in the read model,
-- whatever the ops before and after it in the log are: no later edit brings it back.
pub void_expense-stands :
    (before after : List Op) (op : Op) (expense : ExpenseId)
    → op.kind ≡ void_expense expense
    → entitled (build (before ++ op ∷ after)) op ≡ true
    → get expense (project (before ++ op ∷ after)).expenses ≡ none
unfolding project assemble apply apply_kind get
void_expense-stands before after op expense kind h =
    let ops = before ++ op ∷ after in
    let f = foldl (apply_entitled (build ops)) empty_folder ops in
    left_out f expense f.expense_version []
      (stands (build ops) (IsVoided expense) (IsVoided-apply_kind expense) before after op
        empty_folder h
        (λ g.
          subst (λ k. IsVoided expense (apply_kind k op.hlc g)) (sym kind)
            (contains-added expense g.expense_voided)))
      refl

-- A settlement that an entitled op of the log deletes is not in the read model, whatever the ops
-- before and after it in the log are.
pub void_settlement-stands :
    (before after : List Op) (op : Op) (settlement : SettlementId)
    → op.kind ≡ void_settlement settlement
    → entitled (build (before ++ op ∷ after)) op ≡ true
    → get settlement (project (before ++ op ∷ after)).settlements ≡ none
unfolding project assemble apply apply_kind get
void_settlement-stands before after op settlement kind h =
    let ops = before ++ op ∷ after in
    let f = foldl (apply_entitled (build ops)) empty_folder ops in
    left_out_settlement f settlement f.settlements []
      (stands (build ops) (IsUndone settlement) (IsUndone-apply_kind settlement) before after op
        empty_folder h
        (λ g.
          subst (λ k. IsUndone settlement (apply_kind k op.hlc g)) (sym kind)
            (contains-added settlement g.settlement_voided)))
      refl
