-- ===== src/Store/OpStore.antt =====
-- splittr-store/src/op_store.rs and error.rs: the interface of a log of ops, and the log in memory.
use splittr.Prelude.{ℕ, Bool, Option, List, not, Result, ok}
use splittr.Prelude.Ord.{Bytes, bytes_ord}
use splittr.Prelude.Lists.{length}
use splittr.BTree.{BTreeMap, get, insert, contains_key, values}
use splittr.Crdt.Op.{Op, OpId}

pub data StoreError : Type 0 where
  serialize : Bytes → StoreError
  backend : Bytes → StoreError
  decrypt : StoreError

-- The trait `OpStore`. A method that takes `&mut self` gives the store after it.
pub record OpStore (S : Type 0) : Type 0 where
  pub append : S → Op → S × Result StoreError Bool
  pub contains : S → OpId → Result StoreError Bool
  pub get_op : S → OpId → Result StoreError (Option Op)
  pub ops : S → Result StoreError (List Op)
  pub len : S → Result StoreError ℕ

pub record MemoryOpStore : Type 0 where
  pub held : BTreeMap OpId Op

-- `impl OpStore for MemoryOpStore`. An op whose id is held is written over.
unfoldable pub memory_append : MemoryOpStore → Op → MemoryOpStore × Result StoreError Bool
memory_append s op =
    (record { held = insert op.id op s.held }, ok (not (contains_key op.id s.held)))

abbrev pub memory_ops : MemoryOpStore → Result StoreError (List Op)
memory_ops s = ok (values s.held)

instance abbrev pub memory_store : OpStore MemoryOpStore
memory_store = record {
  append = memory_append;
  contains = λ s id. ok (contains_key id s.held);
  get_op = λ s id. ok (get id s.held);
  ops = memory_ops;
  len = λ s. ok (length s.held);
}
