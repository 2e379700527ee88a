-- ===== src/Store/Repository.antt =====
-- splittr-store/src/repository.rs: a log of ops with the materializer and the memoized read model.
pub mod Invariant
pub mod Read
pub mod Resigned
use splittr.Prelude.{
  Bool, true, false, Option, none, some, [], ◌∷◌, List, Result, ok, err, if◌then◌else◌,
}
use splittr.Crdt.Op.{Op, Crypto, verify}
use splittr.Crdt.Projection.{Projection}
use splittr.Crdt.Materialize.{Materializer, new_materializer, retain_op, apply_all, projection}
use splittr.Store.OpStore.{OpStore, StoreError}

pub data Applied : Type 0 where
  stored duplicate rejected : Applied

pub record Repository (S : Type 0) : Type 0 where
  pub store : S
  pub materializer : Materializer
  pub cached : Option Projection

module _ {S : Type 0} ⦃log : OpStore S⦄ where
  -- Replays the log through the materializer.
  unfoldable pub open_repository : S → Result StoreError (Repository S)
  open_repository s = elim (log.ops s) [
    | err e ↦ err e
    | ok ops ↦
        ok (record { store = s; materializer = apply_all new_materializer ops; cached = none })
  ]

  -- What `append` does with the answer of the store.
  abbrev pub after_append :
      Repository S → Op → S × Result StoreError Bool → Repository S × Result StoreError Applied
  after_append r op (s, err e) = (record r { store = s }, err e)
  after_append r op (s, ok false) = (record r { store = s }, ok duplicate)
  after_append r op (s, ok true) =
      (record { store = s; materializer = retain_op r.materializer op; cached = none }, ok stored)

  module _ (crypto : Crypto) where
    unfoldable pub append_op : Repository S → Op → Repository S × Result StoreError Applied
    append_op r op = elim (verify crypto op) [
      | err _ ↦ (r, ok rejected)
      | ok _ ↦ after_append r op (log.append r.store op)
    ]

  -- `projection`, with the repository whose memoized read model it fills.
  unfoldable pub read_projection : Repository S → Repository S × Projection
  read_projection r = elim r.cached [
    | none ↦ let p = projection r.materializer in (record r { cached = some p }, p)
    | some p ↦ (r, p)
  ]
