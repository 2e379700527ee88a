-- ===== src/Sync/Transport.antt =====
-- splittr-sync/src/transport.rs: `sync`, run by the two ends of an ordered, reliable connection. Each
-- end sends and receives one message at a time; the connection keeps what is under way.
pub mod Moves
pub mod Stages
use splittr.Prelude.{ℕ, zero, suc, Option, none, some, [], ◌∷◌, List, ◌++◌, ◌≡◌}
use splittr.Sync.Reconcile.{SyncStore, SyncMessage, SyncSession, new_session, open_session, handle}

pub data Role : Type 0 where
  initiator responder : Role

module _ (R : Type 0) where
  -- One end within `sync`: what it has still to send before it goes on, and how many messages its
  -- loop is still to receive.
  pub record Peer : Type 0 where
    pub session : SyncSession
    pub store : R
    pub outbox : List SyncMessage
    pub awaited : ℕ

  -- The two ends and the messages under way to each.
  pub record Connection : Type 0 where
    pub initiating : Peer
    pub responding : Peer
    pub to_initiator : List SyncMessage
    pub to_responder : List SyncMessage

module _ {R : Type 0} ⦃sync : SyncStore R⦄ where
  -- `sync` up to its first wait: the initiator has its opening message to send.
  unfoldable pub begin : Role → R → Peer R
  unfolding open_session
  begin initiator r =
      let (session, opening) = open_session new_session r in
      record { session = session; store = r; outbox = opening ∷ []; awaited = 2 }
  begin responder r = record { session = new_session; store = r; outbox = []; awaited = 2 }

  -- One round of the loop, for a message received.
  abbrev pub take_in : Peer R → ℕ → SyncMessage → Peer R
  take_in p n m =
      let ((session, store), replies) = handle p.session m p.store in
      record { session = session; store = store; outbox = replies; awaited = n }

  -- What an end does next, with the messages under way to it and those it sends. `none`: it waits for
  -- a message that is not there, or has returned.
  unfoldable pub move :
      (outbox : List SyncMessage) (awaited : ℕ) (inbox : List SyncMessage)
      → Peer R
      → Option (Peer R × (List SyncMessage × List SyncMessage))
  unfolding handle
  move (m ∷ ms) n inbox p = some (record p { outbox = ms }, (inbox, m ∷ []))
  move [] zero inbox p = none
  move [] (suc n) [] p = none
  move [] (suc n) (m ∷ inbox) p = some (take_in p n m, (inbox, []))

  unfoldable pub take_turn : Role → Connection R → Option (Connection R)
  unfolding move
  take_turn initiator c =
      elim (move c.initiating.outbox c.initiating.awaited c.to_initiator c.initiating) [
        | none ↦ none
        | some (p, (inbox, sent)) ↦ some (record c {
          initiating = p;
          to_initiator = inbox;
          to_responder = c.to_responder ++ sent;
        })
      ]
  take_turn responder c =
      elim (move c.responding.outbox c.responding.awaited c.to_responder c.responding) [
        | none ↦ none
        | some (p, (inbox, sent)) ↦ some (record c {
          responding = p;
          to_responder = inbox;
          to_initiator = c.to_initiator ++ sent;
        })
      ]

  unfoldable pub connect : R → R → Connection R
  unfolding begin
  connect a b = record {
    initiating = begin initiator a;
    responding = begin responder b;
    to_initiator = [];
    to_responder = [];
  }

  -- The runs of `n` moves, whichever end makes each.
  pub data Runs : ℕ → Connection R → Connection R → Type 0 where
    at_start : {c : Connection R} → Runs 0 c c
    further :
        {n : ℕ} {c d e : Connection R} (role : Role)
        → Runs n c d
        → take_turn role d ≡ some e
        → Runs (suc n) c e

  -- No end can move.
  abbrev pub IsStuck : Connection R → Type 0
  IsStuck c = (role : Role) → take_turn role c ≡ none

  -- The replies sent, and the two received.
  abbrev pub HasReturned : Peer R → Type 0
  HasReturned p = (p.outbox ≡ []) × (p.awaited ≡ 0)
