-- ===== src/Sync/Reconcile.antt =====
-- splittr-sync/src/reconcile.rs and message.rs: the messages, what a peer lacks, and the session.
pub mod Members
pub mod Exchange
use splittr.Prelude.{
  Bool, true, false, Option, none, some, [], ◌∷◌, List, foldl, map, not, ◌++◌, Result, ok, err,
  if◌then◌else◌,
}
use splittr.Prelude.Ord.{bytes_ord, cmp_bytes}
use splittr.Prelude.Lists.{filter_by}
use splittr.BTree.{BTreeSet, contains, set_insert}
use splittr.Crdt.Op.{Op, OpId, Crypto}
use splittr.Store.OpStore.{OpStore}
use splittr.Store.Repository.{Repository, Applied, stored, append_op}

-- The trait `SyncStore`.
pub record SyncStore (R : Type 0) : Type 0 where
  pub op_ids : R → List OpId
  pub get_op : R → OpId → Option Op
  pub ingest : R → Op → R × Bool

pub data SyncMessage : Type 0 where
  have : List OpId → SyncMessage
  ops : List Op → SyncMessage

-- `theirs.iter().collect()`
abbrev pub collect_ids : List OpId → BTreeSet OpId
collect_ids ids = foldl (λ known id. set_insert id known) [] ids

-- `filter_map(|id| store.get_op(&id))`
unfoldable pub filter_map : {A B : Type 0} → (A → Option B) → List A → List B
filter_map f [] = []
filter_map f (x ∷ xs) = let rest = filter_map f xs in elim (f x) [ none ↦ rest | some y ↦ y ∷ rest ]

-- `self.sent_have`
pub record SyncSession : Type 0 where
  pub sent_have : Bool

abbrev pub new_session : SyncSession
new_session = record { sent_have = false }

module _ {R : Type 0} ⦃sync : SyncStore R⦄ where
  unfoldable pub missing_ops : R → List OpId → List Op
  missing_ops r theirs =
      let known = collect_ids theirs in
      filter_map (sync.get_op r) (filter_by (λ id. not (contains id known)) (sync.op_ids r))

  unfoldable pub open_session : SyncSession → R → SyncSession × SyncMessage
  open_session session r = (record { sent_have = true }, have (sync.op_ids r))

  -- `for op in &ops { store.ingest(op); }`
  unfoldable pub ingest_all : R → List Op → R
  ingest_all r [] = r
  ingest_all r (op ∷ rest) = ingest_all (sync.ingest r op).0 rest

  -- The messages are those to send back.
  unfoldable pub handle : SyncSession → SyncMessage → R → (SyncSession × R) × List SyncMessage
  handle session (have theirs) r = (
    (record { sent_have = true }, r),
    (if session.sent_have then [] else have (sync.op_ids r) ∷ [])
        ++ ops (missing_ops r theirs) ∷ [],
  )
  handle session (ops received) r = ((session, ingest_all r received), [])

-- `impl SyncStore for Repository`
ids_of : {E : Type 0} → Result E (List Op) → List OpId
ids_of (err _) = []
ids_of (ok held) = map (λ (op : Op). op.id) held

found : {E : Type 0} → Result E (Option Op) → Option Op
found (err _) = none
found (ok o) = o

is_stored : {E : Type 0} → Result E Applied → Bool
is_stored (ok stored) = true
is_stored _ = false

module _ {S : Type 0} ⦃log : OpStore S⦄ (crypto : Crypto) where
  unfoldable pub repository_op_ids : Repository S → List OpId
  unfolding ids_of
  repository_op_ids r = ids_of (log.ops r.store)

  unfoldable pub repository_get_op : Repository S → OpId → Option Op
  unfolding found
  repository_get_op r id = found (log.get_op r.store id)

  unfoldable pub ingest : Repository S → Op → Repository S × Bool
  unfolding is_stored
  ingest r op = let (r', applied) = append_op crypto r op in (r', is_stored applied)

  abbrev pub repository_sync : SyncStore (Repository S)
  repository_sync = record {
    op_ids = repository_op_ids;
    get_op = repository_get_op;
    ingest = ingest;
  }
