-- ===== src/Sync/Transport/Moves.antt =====
-- The stages of `sync` at the two ends of a connection (splittr-sync/src/transport.rs), and which
-- move leads from one to another.
use splittr.Prelude.{ℕ, Bool, true, false, Option, none, some, [], ◌∷◌, List, ◌≡◌, refl}
use splittr.Store.OpStore.{memory_store}
use splittr.Sync.Reconcile.{SyncStore, SyncMessage, missing_ops, ingest_all, have, ops}
use splittr.Sync.Transport.{Role, initiator, responder, Peer, Connection, take_turn, connect}

-- Named for what has happened last.
pub data Stage : Type 0 where
  opening asked heard answered answered_all returning returning_all returned : Stage
  crossing responder_done initiator_done finished : Stage

-- The moves made so far.
abbrev pub depth : Stage → ℕ
depth opening = 0
depth asked = 1
depth heard = 2
depth answered = 3
depth answered_all = 4
depth returning = 4
depth returning_all = 5
depth returned = 5
depth crossing = 6
depth responder_done = 7
depth initiator_done = 7
depth finished = 8

abbrev pub after_initiator : Stage → Option Stage
after_initiator opening = some asked
after_initiator asked = none
after_initiator heard = none
after_initiator answered = some returning
after_initiator answered_all = some returning_all
after_initiator returning = some returned
after_initiator returning_all = some crossing
after_initiator returned = none
after_initiator crossing = some initiator_done
after_initiator responder_done = some finished
after_initiator initiator_done = none
after_initiator finished = none

abbrev pub after_responder : Stage → Option Stage
after_responder opening = none
after_responder asked = some heard
after_responder heard = some answered
after_responder answered = some answered_all
after_responder answered_all = none
after_responder returning = some returning_all
after_responder returning_all = none
after_responder returned = some crossing
after_responder crossing = some responder_done
after_responder responder_done = none
after_responder initiator_done = some finished
after_responder finished = none

abbrev pub after_move : Role → Stage → Option Stage
after_move initiator = after_initiator
after_move responder = after_responder

module _ {R : Type 0} ⦃sync : SyncStore R⦄ (a b : R) where
  abbrev pub have_a : SyncMessage
  have_a = have (sync.op_ids a)

  abbrev pub have_b : SyncMessage
  have_b = have (sync.op_ids b)

  abbrev pub ops_a : SyncMessage
  ops_a = ops (missing_ops a (sync.op_ids b))

  abbrev pub ops_b : SyncMessage
  ops_b = ops (missing_ops b (sync.op_ids a))

  abbrev pub a_after : R
  a_after = ingest_all a (missing_ops b (sync.op_ids a))

  abbrev pub b_after : R
  b_after = ingest_all b (missing_ops a (sync.op_ids b))

  abbrev pub peer : Bool → R → List SyncMessage → ℕ → Peer R
  peer sent_have store outbox awaited = record {
    session = record { sent_have = sent_have };
    store = store;
    outbox = outbox;
    awaited = awaited;
  }

  abbrev pub between :
      Peer R → Peer R → (to_initiator to_responder : List SyncMessage) → Connection R
  between p q xs ys = record {
    initiating = p;
    responding = q;
    to_initiator = xs;
    to_responder = ys;
  }

  abbrev pub at_stage : Stage → Connection R
  at_stage opening = between (peer true a (have_a ∷ []) 2) (peer false b ([]) 2) ([]) ([])
  at_stage asked = between (peer true a ([]) 2) (peer false b ([]) 2) ([]) (have_a ∷ [])
  at_stage heard = between (peer true a ([]) 2) (peer true b (have_b ∷ ops_b ∷ []) 1) ([]) ([])
  at_stage answered = between (peer true a ([]) 2) (peer true b (ops_b ∷ []) 1) (have_b ∷ []) ([])
  at_stage answered_all =
      between (peer true a ([]) 2) (peer true b ([]) 1) (have_b ∷ ops_b ∷ []) ([])
  at_stage returning = between (peer true a (ops_a ∷ []) 1) (peer true b (ops_b ∷ []) 1) ([]) ([])
  at_stage returning_all =
      between (peer true a (ops_a ∷ []) 1) (peer true b ([]) 1) (ops_b ∷ []) ([])
  at_stage returned = between (peer true a ([]) 1) (peer true b (ops_b ∷ []) 1) ([]) (ops_a ∷ [])
  at_stage crossing = between (peer true a ([]) 1) (peer true b ([]) 1) (ops_b ∷ []) (ops_a ∷ [])
  at_stage responder_done =
      between (peer true a ([]) 1) (peer true b_after ([]) 0) (ops_b ∷ []) ([])
  at_stage initiator_done =
      between (peer true a_after ([]) 0) (peer true b ([]) 1) ([]) (ops_a ∷ [])
  at_stage finished = between (peer true a_after ([]) 0) (peer true b_after ([]) 0) ([]) ([])

  abbrev pub reached : Option Stage → Option (Connection R)
  reached none = none
  reached (some s) = some (at_stage s)

  pub take_turn-at_stage :
      (role : Role) (s : Stage) → take_turn role (at_stage s) ≡ reached (after_move role s)
  unfolding take_turn
  take_turn-at_stage initiator opening = refl
  take_turn-at_stage initiator asked = refl
  take_turn-at_stage initiator heard = refl
  take_turn-at_stage initiator answered = refl
  take_turn-at_stage initiator answered_all = refl
  take_turn-at_stage initiator returning = refl
  take_turn-at_stage initiator returning_all = refl
  take_turn-at_stage initiator returned = refl
  take_turn-at_stage initiator crossing = refl
  take_turn-at_stage initiator responder_done = refl
  take_turn-at_stage initiator initiator_done = refl
  take_turn-at_stage initiator finished = refl
  take_turn-at_stage responder opening = refl
  take_turn-at_stage responder asked = refl
  take_turn-at_stage responder heard = refl
  take_turn-at_stage responder answered = refl
  take_turn-at_stage responder answered_all = refl
  take_turn-at_stage responder returning = refl
  take_turn-at_stage responder returning_all = refl
  take_turn-at_stage responder returned = refl
  take_turn-at_stage responder crossing = refl
  take_turn-at_stage responder responder_done = refl
  take_turn-at_stage responder initiator_done = refl
  take_turn-at_stage responder finished = refl

  pub connect_lem : connect a b ≡ at_stage opening
  unfolding connect
  connect_lem = refl
