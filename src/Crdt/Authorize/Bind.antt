-- ===== src/Crdt/Authorize/Bind.antt =====
-- The last loop of `Authority::build` (authorize.rs): of two ops that bind one entity the one with
-- the greater clock stands, in whatever order they come.
use splittr.Prelude.{
  Option, none, some, ◌≡◌, ◌≢◌, refl, sym, ap, ◌∙◌, arith, if◌then◌else◌, inl, inr,
}
use splittr.Prelude.Ord.{Bytes, bytes_ord}
use splittr.BTree.{BTreeMap, BTreeSet, get, insert}
use splittr.BTree.Laws.{get-insert, get-insert_self, insert_twice, insert_comm}
use splittr.BTree.Commute.{key-cases}
use Prim.Native.Nat.Ordering.{eq}
use splittr.Domain.Ids.{UserId, GroupId}
use splittr.Crdt.Clock.{Hlc, hlc_ord}
use splittr.Crdt.Op.{Op, OpKind, order_of, create_expense, record_settlement}
use splittr.Crdt.Authorize.Certs.{Devices, revoked_at}
use splittr.Crdt.Authorize.Alias.{Aliases, resolve}
use splittr.Crdt.Authorize.Rules.{FriendDecls, Membership, actor_of, parties_of, pair_of}
use splittr.Crdt.Authorize.Stages.{Bindings, bind_step, bind_kind, is_newer, create_ok}
use splittr.Crdt.Authorize.Linear.{ClocksDiffer}

-- The maps of one kind of entity, and what an op binds.
record Bound : Type 0 where
  at : BTreeMap Bytes Hlc
  group : BTreeMap Bytes (Option GroupId)
  parties : BTreeMap Bytes (BTreeSet UserId)

record Claim : Type 0 where
  id : Bytes
  group : Option GroupId
  parties : BTreeSet UserId

bind : Option Claim → Hlc → Bound → Bound
bind none hlc b = b
bind (some c) hlc b =
    if is_newer (get c.id b.at) hlc
    then record {
      at = insert c.id hlc b.at;
      group = insert c.id c.group b.group;
      parties = insert c.id c.parties b.parties;
    }
    else b

bind_same :
    (c d : Claim) (g h : Hlc) (b : Bound)
    → c.id ≡ d.id
    → g ≢ h
    → bind (some d) h (bind (some c) g b) ≡ bind (some c) g (bind (some d) h b)
unfolding bind
bind_same c d g h b e ne = rw e (
    ground (
      arith,
      get-insert_self d.id g b.at,
      get-insert_self d.id h b.at,
      insert_twice d.id g h b.at,
      insert_twice d.id h g b.at,
      insert_twice d.id c.group d.group b.group,
      insert_twice d.id d.group c.group b.group,
      insert_twice d.id c.parties d.parties b.parties,
      insert_twice d.id d.parties c.parties b.parties,
    ))

bind_other :
    (c d : Claim) (g h : Hlc) (b : Bound)
    → bytes_ord.cmp c.id d.id ≢ eq
    → bind (some d) h (bind (some c) g b) ≡ bind (some c) g (bind (some d) h b)
unfolding bind
bind_other c d g h b ne = ground (
  arith,
  get-insert d.id c.id g b.at,
  get-insert c.id d.id h b.at,
  bytes_ord.cmp_flip c.id d.id,
  insert_comm c.id d.id g h b.at ne,
  insert_comm c.id d.id c.group d.group b.group ne,
  insert_comm c.id d.id c.parties d.parties b.parties ne,
)

bind_comm :
    (c d : Option Claim) (g h : Hlc) (b : Bound)
    → g ≢ h
    → bind d h (bind c g b) ≡ bind c g (bind d h b)
bind_comm none d g h b ne = unfold bind in refl
bind_comm (some c) none g h b ne = unfold bind in refl
bind_comm (some c) (some d) g h b ne = elim (key-cases c.id d.id) [
  | inl e ↦ bind_same c d g h b e ne
  | inr other ↦ bind_other c d g h b other
]

module _ (devices : Devices) (aliases : Aliases) (membership : Membership)
    (decls : FriendDecls) where
  -- What an op binds, if its author may.
  expense_claim : OpKind → Op → Option Claim
  expense_claim (create_expense expense group fields _) op =
      let parties = parties_of aliases fields in
      if revoked_at devices op
      then none
      else if create_ok devices aliases membership decls group (actor_of devices aliases op) parties
          (order_of op)
      then some (record { id = expense; group = group; parties = parties })
      else none
  expense_claim _ op = none

  settlement_claim : OpKind → Op → Option Claim
  settlement_claim (record_settlement settlement group from to _) op =
      let parties = pair_of (resolve aliases from) (resolve aliases to) in
      if revoked_at devices op
      then none
      else if create_ok devices aliases membership decls group (actor_of devices aliases op) parties
          (order_of op)
      then some (record { id = settlement; group = group; parties = parties })
      else none
  settlement_claim _ op = none

  abbrev pub step : Bindings → Op → Bindings
  step = bind_step devices aliases membership decls

  abbrev kind_step : OpKind → Bindings → Op → Bindings
  kind_step k b op =
      if revoked_at devices op then b else bind_kind devices aliases membership decls k b op

  abbrev expenses_of : Bindings → Bound
  expenses_of b = record { at = b.expense_at; group = b.expense_group; parties = b.expense_parties }

  abbrev settlements_of : Bindings → Bound
  settlements_of b = record {
    at = b.settlement_at;
    group = b.settlement_group;
    parties = b.settlement_parties;
  }

  expenses_law :
      (k : OpKind) (b : Bindings) (op : Op)
      → expenses_of (kind_step k b op) ≡ bind (expense_claim k op) op.hlc (expenses_of b)
  unfolding bind_kind bind expense_claim
  expenses_law (create_expense e g fs d) b op = ground arith
  expenses_law (record_settlement s g from to amount) b op = ground arith
  expenses_law _ b op = ground arith

  settlements_law :
      (k : OpKind) (b : Bindings) (op : Op)
      → settlements_of (kind_step k b op) ≡ bind (settlement_claim k op) op.hlc (settlements_of b)
  unfolding bind_kind bind settlement_claim
  settlements_law (create_expense e g fs d) b op = ground arith
  settlements_law (record_settlement s g from to amount) b op = ground arith
  settlements_law _ b op = ground arith

  module _ (b : Bindings) (x y : Op) (ne : ClocksDiffer x y) where
    two_expenses : expenses_of (step (step b x) y) ≡ expenses_of (step (step b y) x)
    unfolding bind_step
    two_expenses =
        expenses_law y.kind (step b x) y
        ∙ ap (bind (expense_claim y.kind y) y.hlc) (expenses_law x.kind b x)
        ∙ bind_comm (expense_claim x.kind x) (expense_claim y.kind y) x.hlc y.hlc (expenses_of b) ne
        ∙ sym (
            expenses_law x.kind (step b y) x
            ∙ ap (bind (expense_claim x.kind x) x.hlc) (expenses_law y.kind b y))

    two_settlements : settlements_of (step (step b x) y) ≡ settlements_of (step (step b y) x)
    unfolding bind_step
    two_settlements =
        settlements_law y.kind (step b x) y
        ∙ ap (bind (settlement_claim y.kind y) y.hlc) (settlements_law x.kind b x)
        ∙ bind_comm (settlement_claim x.kind x) (settlement_claim y.kind y) x.hlc y.hlc
            (settlements_of b) ne
        ∙ sym (
            settlements_law x.kind (step b y) x
            ∙ ap (bind (settlement_claim x.kind x) x.hlc) (settlements_law y.kind b y))

    pub bind_step_comm : step (step b x) y ≡ step (step b y) x
    bind_step_comm = λ i. record {
      expense_at = (two_expenses i).at;
      expense_group = (two_expenses i).group;
      expense_parties = (two_expenses i).parties;
      settlement_at = (two_settlements i).at;
      settlement_group = (two_settlements i).group;
      settlement_parties = (two_settlements i).parties;
    }
