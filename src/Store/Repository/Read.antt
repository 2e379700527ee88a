-- ===== src/Store/Repository/Read.antt =====
-- Reading and reopening a repository over the log in memory (splittr-store/src/repository.rs).
use splittr.Prelude.{Option, none, some, [], ◌∷◌, List, ◌≡◌, refl, sym, ap, ◌∙◌, arith, ok}
use mathlib.Core.Path.{subst}
use Prim.Native.Nat.Ordering.{eq}
use splittr.Prelude.Ord.{bytes_ord, cmp_bytes, eq_of_bytes}
use splittr.Prelude.Folds.{All}
use splittr.BTree.{BTreeMap, get, values}
use splittr.BTree.Laws.{get-insert}
use splittr.BTree.Sorted.{IsSorted, insert-IsSorted, get-Above, Above-trans}
use splittr.BTree.Extensional.{eq_of_get}
use splittr.Crdt.Op.{Op, OpId, Crypto}
use splittr.Crdt.Projection.{Projection}
use splittr.Crdt.Materialize.{
  Materializer, new_materializer, retain_op, apply_all, projection, project,
}
use splittr.Store.OpStore.{MemoryOpStore, memory_store}
use splittr.Store.Repository.{Repository, read_projection, open_repository}
use splittr.Store.Repository.Invariant.{IsHeld, IsFresh, IsReplica}

module _ (crypto : Crypto) (universe : OpId → Op) where
  read_unread :
      (r : Repository MemoryOpStore)
      → r.cached ≡ none
      → read_projection r
        ≡ (record r { cached = some (projection r.materializer) }, projection r.materializer)
  unfolding read_projection
  read_unread r e = ground arith

  read_memoized :
      (r : Repository MemoryOpStore) (p : Projection)
      → r.cached ≡ some p
      → read_projection r ≡ (r, p)
  unfolding read_projection
  read_memoized r p e = ground arith

  -- A replica gives the projection of the ops that it holds, memoized or not, and stays a replica.
  pub read_projection-project :
      (r : Repository MemoryOpStore)
      → IsReplica crypto universe r
      → ((read_projection r).1 ≡ project (values r.store.held))
        × ((read_projection r).0.store ≡ r.store)
        × IsReplica crypto universe (read_projection r).0
  unfolding projection
  read_projection-project r replica = on_cached r.cached refl
    where
      folds : projection r.materializer ≡ project (values r.store.held)
      folds = ap (λ m. project (values m)) replica.folded

      on_cached :
          (c : Option Projection)
          → r.cached ≡ c
          → ((read_projection r).1 ≡ project (values r.store.held))
            × ((read_projection r).0.store ≡ r.store)
            × IsReplica crypto universe (read_projection r).0
      on_cached none e = rw (read_unread r e) (
        folds,
        refl,
        record {
          sorted = replica.sorted;
          held = replica.held;
          folded = replica.folded;
          fresh = refl;
        },
      )
      on_cached (some p) e =
          rw (read_memoized r p e)
            (subst (λ c. IsFresh c r.materializer) e replica.fresh ∙ folds, refl, replica)

  get-retain_op :
      (q : OpId) (m : Materializer) (op : Op)
      → get q (retain_op m op).ops ≡ elim (get q m.ops) [
        | some o ↦ some o
        | none ↦ elim (cmp_bytes q op.id) [ eq ↦ some op | _ ↦ none ]
      ]
  unfolding retain_op
  get-retain_op q m op = ground (arith, get-insert q op.id op m.ops, eq_of_bytes q op.id)

  -- Replayed ops are found unless their id had an op before.
  replay :
      (ops : BTreeMap OpId Op) (m : Materializer) (q : OpId)
      → All (IsHeld crypto universe) ops
      → IsSorted ops
      → get q (apply_all m (values ops)).ops
        ≡ elim (get q m.ops) [ none ↦ get q ops | some o ↦ some o ]
  unfolding apply_all get
  replay [] m q a s = ground arith
  replay ((k, o) ∷ ops) m q a s = ground (
    arith,
    replay ops (retain_op m o) q a.1 s.1,
    get-retain_op q m o,
    a.0.0,
    get-Above q ops,
    Above-trans q k ops,
    eq_of_bytes q k,
  )

  retain_op-IsSorted : (op : Op) (m : Materializer) → IsSorted m.ops → IsSorted (retain_op m op).ops
  unfolding retain_op
  retain_op-IsSorted op m s = ground (arith, insert-IsSorted op.id op m.ops s)

  apply_all-IsSorted :
      (ops : List Op) (m : Materializer) → IsSorted m.ops → IsSorted (apply_all m ops).ops
  unfolding apply_all
  apply_all-IsSorted [] m s = s
  apply_all-IsSorted (op ∷ ops) m s =
      apply_all-IsSorted ops (retain_op m op) (retain_op-IsSorted op m s)

  -- A repository opened over the log of a replica is a replica again, with the same ops: the
  -- replay of the log gives the materializer that had folded it.
  pub open_repository-IsReplica :
      (r : Repository MemoryOpStore)
      → IsReplica crypto universe r
      → (r' : Repository MemoryOpStore) × (open_repository r.store ≡ ok r')
        × (r'.store ≡ r.store)
        × (r'.materializer ≡ r.materializer)
        × IsReplica crypto universe r'
  unfolding open_repository get
  open_repository-IsReplica r replica = (
    record { store = r.store; materializer = replayed; cached = none },
    refl,
    refl,
    (λ i. record { ops = (same_ops ∙ sym replica.folded) i }),
    record { sorted = replica.sorted; held = replica.held; folded = same_ops; fresh = tt },
  )
    where
      replayed : Materializer
      replayed = apply_all new_materializer (values r.store.held)

      same_ops : replayed.ops ≡ r.store.held
      same_ops =
          eq_of_get replayed.ops r.store.held
            (apply_all-IsSorted (values r.store.held) new_materializer tt) replica.sorted
            (λ q. replay r.store.held new_materializer q replica.held replica.sorted)
