-- ===== src/Sync/Transport/Stages.antt =====
-- The runs of `sync` at the two ends of a connection (splittr-sync/src/transport.rs), whichever end
-- is the faster, and where they end.
use splittr.Prelude.{ℕ, suc, ◌≤◌, Option, none, some, [], ◌≡◌, refl, sym, ap, ◌∙◌, arith}
use mathlib.Core.Path.{subst}
use splittr.Crdt.Op.{Op, OpId, Crypto}
use splittr.Store.OpStore.{MemoryOpStore, memory_store}
use splittr.Store.Repository.{Repository}
use splittr.Store.Repository.Invariant.{IsReplica}
use splittr.Sync.Reconcile.{SyncStore, repository_sync}
use splittr.Sync.Reconcile.Exchange.{Converged, swap_missing, swap_missing-Converged}
use splittr.Sync.Transport.{
  Role, initiator, responder, Connection, take_turn, connect, Runs, at_start, further, IsStuck,
  HasReturned,
}
use splittr.Sync.Transport.Moves.{
  Stage, opening, asked, heard, answered, answered_all, returning_all, crossing, responder_done,
  finished, depth, after_move, at_stage, reached, take_turn-at_stage, connect_lem,
}

module _ {R : Type 0} ⦃sync : SyncStore R⦄ (a b : R) where
  after_move-depth :
      (role : Role) (s t : Stage) → after_move role s ≡ some t → depth t ≡ suc (depth s)
  after_move-depth role s t h = ground arith

  finished_when : (s : Stage) → ((role : Role) → after_move role s ≡ none) → s ≡ finished
  finished_when s h = ground (arith, h initiator, h responder)

  of_reached :
      (o : Option Stage) {c : Connection R}
      → reached a b o ≡ some c
      → (t : Stage) × (o ≡ some t) × (c ≡ at_stage a b t)
  of_reached none h = cc
  of_reached (some t) h = (t, refl, cc)

  of_reached-none : (o : Option Stage) → reached a b o ≡ none → o ≡ none
  of_reached-none none h = refl
  of_reached-none (some t) h = cc

  -- A run is at the stage that its length tells.
  Runs-stage :
      {n : ℕ} {c d : Connection R}
      → c ≡ at_stage a b opening
      → Runs n c d
      → (s : Stage) × (d ≡ at_stage a b s) × (depth s ≡ n)
  Runs-stage start at_start = (opening, start, refl)
  Runs-stage start (further role run moved) =
      let (s, here, long) = Runs-stage start run in
      let (t, next, there) =
        of_reached (after_move role s)
          (sym (take_turn-at_stage a b role s) ∙ sym (ap (take_turn role) here) ∙ moved) in
      (t, there, after_move-depth role s t next ∙ ap suc long)

  depth-bound : (s : Stage) → depth s ≤ 8
  depth-bound s = ground arith

  -- However the ends take turns, `sync` makes eight moves at most: every run ends.
  pub Runs-short : {n : ℕ} {c : Connection R} → Runs n (connect a b) c → n ≤ 8
  Runs-short run =
      let (s, _, long) = Runs-stage (connect_lem a b) run in omega (arith, long, depth-bound s)

  -- A run that cannot go on is at the last stage.
  stuck-stage :
      {n : ℕ} {c : Connection R}
      → Runs n (connect a b) c
      → IsStuck c
      → (c ≡ at_stage a b finished) × (n ≡ 8)
  stuck-stage run stuck =
      let (s, here, long) = Runs-stage (connect_lem a b) run in
      let last = finished_when s (λ role.
        of_reached-none (after_move role s)
          (sym (take_turn-at_stage a b role s) ∙ sym (ap (take_turn role) here) ∙ stuck role)) in
      (here ∙ ap (at_stage a b) last, sym long ∙ ap depth last)

  -- One of the runs that come to the end.
  pub full_run : Runs 8 (connect a b) (at_stage a b finished)
  unfolding connect
  full_run =
      further initiator
        (further responder
          (further initiator
            (further initiator
              (further responder
                (further responder
                  (further responder
                    (further initiator at_start (take_turn-at_stage a b initiator opening))
                    (take_turn-at_stage a b responder asked))
                  (take_turn-at_stage a b responder heard))
                (take_turn-at_stage a b responder answered))
              (take_turn-at_stage a b initiator answered_all))
            (take_turn-at_stage a b initiator returning_all))
          (take_turn-at_stage a b responder crossing))
        (take_turn-at_stage a b initiator responder_done)

  pub finished-IsStuck : IsStuck (at_stage a b finished)
  finished-IsStuck initiator = take_turn-at_stage a b initiator finished
  finished-IsStuck responder = take_turn-at_stage a b responder finished

module _ (crypto : Crypto) (universe : OpId → Op) where
  -- Whatever two well-formed replicas hold, a run of `sync` that can go no further has made eight
  -- moves, whichever end was faster at each of them: both ends have sent all that they had to send
  -- and received two messages, nothing is under way, both replicas are well-formed and hold the union
  -- of the ops, and they give the same projection.
  pub sync-Converged :
      {n : ℕ} (a b : Repository MemoryOpStore) (c : Connection (Repository MemoryOpStore))
      → IsReplica crypto universe a
      → IsReplica crypto universe b
      → Runs ⦃sync = repository_sync crypto⦄ n (connect ⦃sync = repository_sync crypto⦄ a b) c
      → IsStuck ⦃sync = repository_sync crypto⦄ c
      → (n ≡ 8)
        × HasReturned ⦃sync = repository_sync crypto⦄ c.initiating
        × HasReturned ⦃sync = repository_sync crypto⦄ c.responding
        × (c.to_responder ≡ [])
        × Converged crypto universe a b ((c.initiating.store, c.responding.store), c.to_initiator)
  unfolding swap_missing
  sync-Converged a b c ra rb run stuck =
      let (here, long) = stuck-stage ⦃sync = repository_sync crypto⦄ a b run stuck in
      let converged = swap_missing-Converged crypto universe a b ra rb in
      (
        long,
        subst (λ d. HasReturned ⦃sync = repository_sync crypto⦄ d.initiating) (sym here)
            (refl, refl),
        subst (λ d. HasReturned ⦃sync = repository_sync crypto⦄ d.responding) (sym here)
            (refl, refl),
        ap (λ d. d.to_responder) here,
        subst
            (λ d.
              Converged crypto universe a b
                ((d.initiating.store, d.responding.store), d.to_initiator))
            (sym here) converged,
      )
