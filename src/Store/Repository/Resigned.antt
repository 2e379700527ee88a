-- ===== src/Store/Repository/Resigned.antt =====
-- What `append` (splittr-store/src/repository.rs) does with a second valid signature of the content
-- of a held op, which has the same id.
use splittr.Prelude.{some, ◌≡◌, ◌≢◌, refl, sym, ap, ◌∙◌, arith, ok}
use splittr.Prelude.Ord.{bytes_ord}
use splittr.BTree.{get, insert}
use splittr.BTree.Laws.{get-insert_self}
use splittr.Crdt.Op.{Op, OpId, Crypto, verify}
use splittr.Store.OpStore.{MemoryOpStore, memory_store}
use splittr.Store.Repository.{Repository, append_op, duplicate}
use splittr.Store.Repository.Invariant.{IsReplica, append_again}

module _ (crypto : Crypto) (universe : OpId → Op) where
  -- The answer is that of a duplicate, the log has the new copy and the materializer the old one:
  -- this is no replica, whatever the ids are taken to name.
  abbrev pub Parts : Repository MemoryOpStore → (op held : Op) → Type 0
  Parts r op held =
      let (r', applied) = append_op crypto r op in
      (applied ≡ ok duplicate)
      × (get op.id r'.store.held ≡ some op)
      × (get op.id r'.materializer.ops ≡ some held)
      × ((names : OpId → Op) → ¬ IsReplica crypto names r')

  -- An op that verifies, on a replica over the log in memory that holds another op under its id, is
  -- answered as a duplicate. The log holds the new op then and the materializer the old one, so that
  -- the repository is no replica any more.
  pub append-Parts :
      (r : Repository MemoryOpStore) (op held : Op)
      → IsReplica crypto universe r
      → verify crypto op ≡ ok tt
      → get op.id r.store.held ≡ some held
      → op ≢ held
      → Parts r op held
  append-Parts r op held replica verified there other =
      rw (append_again crypto universe r op held verified there) (
        refl,
        in_log,
        in_fold,
        λ names broken. other (same_op (sym in_log ∙ ap (get op.id) (sym broken.folded) ∙ in_fold)),
      )
    where
      in_log : get op.id (insert op.id op r.store.held) ≡ some op
      in_log = get-insert_self op.id op r.store.held

      in_fold : get op.id r.materializer.ops ≡ some held
      in_fold = ap (get op.id) replica.folded ∙ there

      same_op : some op ≡ some held → op ≡ held
      same_op e = ground arith
