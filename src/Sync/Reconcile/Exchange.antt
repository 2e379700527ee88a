-- ===== src/Sync/Reconcile/Exchange.antt =====
-- Two sessions (splittr-sync/src/reconcile.rs) that answer each other: a driver around `handle` that
-- delivers every message in order. The model of `sync` itself is Sync/Transport.
use splittr.Prelude.{
  Bool, true, false, Option, none, some, [], ◌∷◌, List, ◌++◌, ◌≡◌, refl, sym, ap, ◌∙◌, not, ◌||◌,
  ◌&&◌,
}
use splittr.Prelude.Ord.{bytes_ord}
use splittr.Prelude.Folds.{All}
use mathlib.Core.Path.{subst}
use splittr.BTree.{BTreeMap, get, contains_key, values}
use splittr.BTree.Extensional.{eq_of_get}
use splittr.Crdt.Op.{Op, OpId, Crypto}
use splittr.Crdt.Materialize.{project}
use splittr.Store.OpStore.{MemoryOpStore, memory_store}
use splittr.Store.Repository.{Repository, read_projection}
use splittr.Store.Repository.Invariant.{IsHeld, IsReplica, get-named}
use splittr.Store.Repository.Read.{read_projection-project}
use splittr.Sync.Reconcile.{
  SyncStore, SyncMessage, SyncSession, new_session, open_session, handle, missing_ops, ingest_all,
  repository_sync, repository_op_ids,
}
use splittr.Sync.Reconcile.Members.{
  ids, is_in-ids, is_in-missing_ops, missing_ops-IsGenuine, ingest_all-holds,
}

module _ {R : Type 0} ⦃sync : SyncStore R⦄ where
  -- Messages delivered in order; the answers are collected.
  unfoldable pub deliver : SyncSession → R → List SyncMessage → (SyncSession × R) × List SyncMessage
  deliver session r [] = ((session, r), [])
  deliver session r (m ∷ ms) =
      let ((session', r'), out) = handle session m r in
      let ((session'', r''), rest) = deliver session' r' ms in ((session'', r''), out ++ rest)

  -- `a` opens, `b` answers, `a` answers that, `b` takes it in. With the replicas come the messages
  -- still to be delivered to `a`.
  unfoldable pub exchange : R → R → (R × R) × List SyncMessage
  exchange a b =
      let (session_a, opening) = open_session new_session a in
      let ((session_b, b'), to_a) = deliver new_session b (opening ∷ []) in
      let ((_, a'), to_b) = deliver session_a a to_a in
      let ((_, b''), left) = deliver session_b b' to_b in ((a', b''), left)

  -- Both open before either hears of the other.
  unfoldable pub exchange_both_open : R → R → (R × R) × List SyncMessage
  exchange_both_open a b =
      let (session_a, opening_a) = open_session new_session a in
      let (session_b, opening_b) = open_session new_session b in
      let ((session_a', a'), to_b) = deliver session_a a (opening_b ∷ []) in
      let ((session_b', b'), to_a) = deliver session_b b (opening_a ∷ []) in
      let ((_, a''), left_b) = deliver session_a' a' to_a in
      let ((_, b''), left_a) = deliver session_b' b' to_b in ((a'', b''), left_a ++ left_b)

  unfoldable pub swap_missing : R → R → (R × R) × List SyncMessage
  swap_missing a b = (
    (ingest_all a (missing_ops b (sync.op_ids a)), ingest_all b (missing_ops a (sync.op_ids b))),
    [],
  )

  exchange_lem : (a b : R) → exchange a b ≡ swap_missing a b
  unfolding exchange deliver handle open_session swap_missing
  exchange_lem a b = refl

  exchange_both_open_lem : (a b : R) → exchange_both_open a b ≡ swap_missing a b
  unfolding exchange_both_open deliver handle open_session swap_missing
  exchange_both_open_lem a b = refl

module _ (crypto : Crypto) (universe : OpId → Op) where
  -- Held ops are determined by which ids are held.
  same_ops :
      (m n : BTreeMap OpId Op)
      → All (IsHeld crypto universe) m
      → All (IsHeld crypto universe) n
      → ((q : OpId) → contains_key q m ≡ contains_key q n)
      → (q : OpId) → get q m ≡ get q n
  same_ops m n a b h q = on_get (get q m) (get q n) refl refl (h q)
    where
      on_get :
          (o p : Option Op)
          → get q m ≡ o
          → get q n ≡ p
          → elim o [ none ↦ false | some _ ↦ true ] ≡ elim p [ none ↦ false | some _ ↦ true ]
          → o ≡ p
      on_get none none e f c = refl
      on_get none (some p) e f c = cc
      on_get (some o) none e f c = cc
      on_get (some o) (some p) e f c =
          let (o_id, o_genuine) = get-named crypto universe q o m a e in
          let (p_id, p_genuine) = get-named crypto universe q p n b f in
          ap some (sym o_genuine.named ∙ ap universe (o_id ∙ sym p_id) ∙ p_genuine.named)

  module _ (a b : Repository MemoryOpStore) (ra : IsReplica crypto universe a)
      (rb : IsReplica crypto universe b) where
    -- The replica `a` after it took in what `b` sent.
    received :
        let a' =
          ingest_all ⦃sync = repository_sync crypto⦄ a
            (missing_ops ⦃sync = repository_sync crypto⦄ b (repository_op_ids crypto a)) in
        IsReplica crypto universe a'
        × ((q : OpId)
            → contains_key q a'.store.held
              ≡ contains_key q a.store.held || contains_key q b.store.held)
    unfolding repository_op_ids
    received =
        let sent = missing_ops ⦃sync = repository_sync crypto⦄ b (ids (values a.store.held)) in
        let (replica, holds) =
          ingest_all-holds crypto universe sent a ra
            (missing_ops-IsGenuine crypto universe b rb (ids (values a.store.held))) in
        (
          replica,
          (λ q.
              holds q
              ∙ ap (λ x. contains_key q a.store.held || x)
                  (is_in-missing_ops crypto universe b rb q (ids (values a.store.held)))
              ∙ ap (λ x. contains_key q a.store.held || (contains_key q b.store.held && not x))
                  (is_in-ids crypto universe q a.store.held ra.held ra.sorted)
              ∙ union (contains_key q a.store.held) (contains_key q b.store.held)),
        )
      where
        union : (x y : Bool) → x || (y && not x) ≡ x || y
        union true y = refl
        union false true = refl
        union false false = refl

  -- The exchange is over; the replicas hold the same ops, which are those that one of them held
  -- before; they are well-formed, and they give one projection.
  abbrev pub Converged :
      (a b : Repository MemoryOpStore)
      → (Repository MemoryOpStore × Repository MemoryOpStore) × List SyncMessage
      → Type 0
  Converged a b ((a', b'), left) =
      (left ≡ [])
      × (a'.store.held ≡ b'.store.held)
      × ((q : OpId)
          → contains_key q a'.store.held
            ≡ contains_key q a.store.held || contains_key q b.store.held)
      × ((read_projection a').1 ≡ (read_projection b').1)
      × IsReplica crypto universe a'
      × IsReplica crypto universe b'

  or_comm : (x y : Bool) → x || y ≡ y || x
  or_comm true true = refl
  or_comm true false = refl
  or_comm false true = refl
  or_comm false false = refl

  pub swap_missing-Converged :
      (a b : Repository MemoryOpStore)
      → IsReplica crypto universe a
      → IsReplica crypto universe b
      → Converged a b (swap_missing ⦃sync = repository_sync crypto⦄ a b)
  unfolding swap_missing
  swap_missing-Converged a b ra rb =
      let (ra', holds_a) = received a b ra rb in
      let (rb', holds_b) = received b a rb ra in
      let a' =
        ingest_all ⦃sync = repository_sync crypto⦄ a
          (missing_ops ⦃sync = repository_sync crypto⦄ b (repository_op_ids crypto a)) in
      let b' =
        ingest_all ⦃sync = repository_sync crypto⦄ b
          (missing_ops ⦃sync = repository_sync crypto⦄ a (repository_op_ids crypto b)) in
      let same_held = eq_of_get a'.store.held b'.store.held ra'.sorted rb'.sorted (
        same_ops a'.store.held b'.store.held ra'.held rb'.held (λ q.
          holds_a q
          ∙ or_comm (contains_key q a.store.held) (contains_key q b.store.held)
          ∙ sym (holds_b q))) in
      (
        refl,
        same_held,
        holds_a,
        (read_projection-project crypto universe a' ra').0
            ∙ ap (λ m. project (values m)) same_held
            ∙ sym (read_projection-project crypto universe b' rb').0,
        ra',
        rb',
      )

  -- Whatever two replicas hold, an exchange in which `a` opens and every message is delivered in
  -- order ends with no message left and both replicas holding the union of the ops; they then give
  -- the same projection.
  pub exchange-Converged :
      (a b : Repository MemoryOpStore)
      → IsReplica crypto universe a
      → IsReplica crypto universe b
      → Converged a b (exchange ⦃sync = repository_sync crypto⦄ a b)
  exchange-Converged a b ra rb =
      subst (Converged a b) (sym (exchange_lem ⦃sync = repository_sync crypto⦄ a b))
        (swap_missing-Converged a b ra rb)

  -- Two replicas that both open before either hears of the other end, once every message is
  -- delivered in order, with no message left, both with the union of the ops, and they give the
  -- same projection.
  pub exchange_both_open-Converged :
      (a b : Repository MemoryOpStore)
      → IsReplica crypto universe a
      → IsReplica crypto universe b
      → Converged a b (exchange_both_open ⦃sync = repository_sync crypto⦄ a b)
  exchange_both_open-Converged a b ra rb =
      subst (Converged a b) (sym (exchange_both_open_lem ⦃sync = repository_sync crypto⦄ a b))
        (swap_missing-Converged a b ra rb)
