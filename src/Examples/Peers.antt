-- ===== src/Examples/Peers.antt =====
-- Runs of `sync` at the two ends of a connection, and of the frames.
use splittr.Prelude.{ℕ, ◌≤◌, some, [], ◌∷◌, ◌++◌, ◌≡◌, refl, ok, List}
use splittr.Prelude.Ord.{Bytes}
use splittr.Prelude.Lists.{length}
use splittr.Store.OpStore.{MemoryOpStore, memory_store}
use splittr.Store.Repository.{Repository}
use splittr.Sync.Reconcile.{SyncMessage, have, ops, repository_sync}
use splittr.Sync.Reconcile.Exchange.{Converged}
use splittr.Sync.Transport.{Connection, HasReturned}
use splittr.Sync.Transport.Stages.{full_run, finished-IsStuck, Runs-short, sync-Converged}
use splittr.Sync.Transport.Moves.{finished, at_stage}
use splittr.Sync.Framed.{Wire, send, send_all, recv_many, recv_many-send_all}
use splittr.Examples.Data.{plain, found_group, name_alice, first_or_second, holding}
use splittr.Examples.Log.{first-IsReplica, second-IsReplica}

abbrev moves : ℕ
moves = 8

abbrev ended : Connection (Repository MemoryOpStore)
ended = at_stage ⦃sync = repository_sync plain⦄ (holding found_group) (holding name_alice) finished

Runs-short_example : 8 ≤ 8
Runs-short_example =
    Runs-short ⦃sync = repository_sync plain⦄ (holding found_group) (holding name_alice)
      (full_run ⦃sync = repository_sync plain⦄ (holding found_group) (holding name_alice))

sync-Converged_example :
    (moves ≡ 8)
    × HasReturned ⦃sync = repository_sync plain⦄ ended.initiating
    × HasReturned ⦃sync = repository_sync plain⦄ ended.responding
    × (ended.to_responder ≡ [])
    × Converged plain first_or_second
        (holding found_group)
        (holding name_alice)
        ((ended.initiating.store, ended.responding.store), ended.to_initiator)
sync-Converged_example =
    sync-Converged plain first_or_second (holding found_group) (holding name_alice) ended
      first-IsReplica second-IsReplica
      (full_run ⦃sync = repository_sync plain⦄ (holding found_group) (holding name_alice))
      (finished-IsStuck ⦃sync = repository_sync plain⦄ (holding found_group) (holding name_alice))

-- An encoding of two messages.
abbrev two_messages : Wire
two_messages = record {
  to_bytes = λ m. elim m [ have ids ↦ elim ids [ [] ↦ [] | _ ∷ _ ↦ 7 ∷ 8 ∷ [] ] | ops _ ↦ [] ];
  from_bytes = λ bytes. elim bytes [ [] ↦ some (have []) | _ ∷ _ ↦ some (have ([] ∷ [])) ];
}

abbrev messages : List SyncMessage
messages = have [] ∷ have ([] ∷ []) ∷ []

abbrev stream : Bytes
stream = 0 ∷ 0 ∷ 0 ∷ 0 ∷ 0 ∷ 0 ∷ 0 ∷ 2 ∷ 7 ∷ 8 ∷ []

messages-sent : send_all two_messages messages ≡ ok stream
unfolding send_all send
messages-sent = refl

recv_many-send_all_example :
    recv_many two_messages (length messages) (stream ++ 9 ∷ []) ≡ ok (messages, 9 ∷ [])
recv_many-send_all_example =
    recv_many-send_all two_messages messages stream (9 ∷ []) (refl, (refl, tt)) messages-sent
