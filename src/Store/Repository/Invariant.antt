-- ===== src/Store/Repository/Invariant.antt =====
-- What holds of a repository over the log in memory (splittr-store/src/repository.rs), where an id
-- names one op: `universe` gives the op of an id.
use splittr.Prelude.{
  true, false, Option, none, some, [], ◌∷◌, ◌≡◌, ◌≢◌, refl, sym, ap, ◌∙◌, arith, Result, ok, err,
  if◌then◌else◌, Ordering, ◌⊎◌, inl, inr,
}
use mathlib.Core.Path.{subst}
use Prim.Native.Nat.Ordering.{lt, eq, gt}
use splittr.Prelude.Ord.{bytes_ord, cmp_bytes, eq_of_bytes}
use splittr.Prelude.Folds.{All}
use splittr.BTree.{BTreeMap, get, insert, contains_key}
use splittr.BTree.Laws.{insert-get}
use splittr.BTree.Sorted.{IsSorted, insert-IsSorted}
use splittr.Crdt.Op.{Op, OpId, Crypto, VerifyError, verify}
use splittr.Crdt.Projection.{Projection}
use splittr.Crdt.Materialize.{Materializer, retain_op, projection}
use splittr.Store.OpStore.{MemoryOpStore, StoreError, memory_store, memory_append}
use splittr.Store.Repository.{Repository, Applied, append_op, stored, duplicate, rejected}

-- The op is the one that its id names, and it verifies.
pub record IsGenuine (crypto : Crypto) (universe : OpId → Op) (op : Op) : Type 0 where
  pub named : universe op.id ≡ op
  pub verified : verify crypto op ≡ ok tt

-- Each op is held under its id.
abbrev pub IsHeld : (crypto : Crypto) → (OpId → Op) → OpId × Op → Type 0
IsHeld crypto universe (id, op) = (op.id ≡ id) × IsGenuine crypto universe op

-- What is memoized is the projection of the ops held.
abbrev pub IsFresh : Option Projection → Materializer → Type 0
IsFresh none m = Unit
IsFresh (some p) m = p ≡ projection m

pub record IsReplica (crypto : Crypto) (universe : OpId → Op) (r : Repository MemoryOpStore)
    : Type 0 where
  pub sorted : IsSorted r.store.held
  pub held : All (IsHeld crypto universe) r.store.held
  pub folded : r.materializer.ops ≡ r.store.held
  pub fresh : IsFresh r.cached r.materializer

module _ (crypto : Crypto) (universe : OpId → Op) where
  pub All-insert_op :
      (op : Op) (m : BTreeMap OpId Op)
      → IsGenuine crypto universe op
      → All (IsHeld crypto universe) m
      → All (IsHeld crypto universe) (insert op.id op m)
  unfolding insert
  All-insert_op op [] g a = ((refl, g), tt)
  All-insert_op op ((k, o) ∷ m) g a = split (cmp_bytes op.id k) (All-insert_op op m g a.1)
    where
      split :
          (c : Ordering)
          → All (IsHeld crypto universe) (insert op.id op m)
          → All (IsHeld crypto universe) (elim c [
            | lt ↦ (op.id, op) ∷ (k, o) ∷ m
            | eq ↦ (op.id, op) ∷ m
            | gt ↦ (k, o) ∷ insert op.id op m
          ])
      split lt rest = ((refl, g), a)
      split eq rest = ((refl, g), a.1)
      split gt rest = (a.0, rest)

  -- What a map of held ops has at an id is the op that the id names.
  pub get-named :
      (id : OpId) (op : Op) (m : BTreeMap OpId Op)
      → All (IsHeld crypto universe) m
      → get id m ≡ some op
      → (op.id ≡ id) × IsGenuine crypto universe op
  unfolding get
  get-named id op [] a h = cc
  get-named id op ((k, o) ∷ m) a h = split (get-named id op m a.1) (cmp_bytes id k) refl h
    where
      some_eq : some o ≡ some op → o ≡ op
      some_eq e = ground arith

      split :
          (get id m ≡ some op → (op.id ≡ id) × IsGenuine crypto universe op)
          → (c : Ordering) → cmp_bytes id k ≡ c
          → elim c [ lt ↦ none | eq ↦ some o | gt ↦ get id m ] ≡ some op
          → (op.id ≡ id) × IsGenuine crypto universe op
      split ih lt e h = cc
      split ih eq e h =
          subst (λ x. (x.id ≡ id) × IsGenuine crypto universe x) (some_eq h)
            (a.0.0 ∙ sym (eq_of_bytes id k e), a.0.1)
      split ih gt e h = ih h

  -- To hold an op again under its id changes nothing.
  held_again :
      (op o : Op) (m : BTreeMap OpId Op)
      → All (IsHeld crypto universe) m
      → universe op.id ≡ op
      → get op.id m ≡ some o
      → insert op.id op m ≡ m
  held_again op o m a named h =
      let (same_id, genuine) = get-named op.id o m a h in
      insert-get op.id op m (h ∙ ap some (sym genuine.named ∙ ap universe same_id ∙ named))

  -- What `append` does with an op that verifies.
  append_new :
      (r : Repository MemoryOpStore) (op : Op)
      → verify crypto op ≡ ok tt
      → get op.id r.store.held ≡ none
      → append_op crypto r op ≡ (
        record {
          store = record { held = insert op.id op r.store.held };
          materializer = retain_op r.materializer op;
          cached = none;
        },
        ok stored,
      )
  unfolding append_op memory_append
  append_new r op v absent = ground arith

  pub append_again :
      (r : Repository MemoryOpStore) (op o : Op)
      → verify crypto op ≡ ok tt
      → get op.id r.store.held ≡ some o
      → append_op crypto r op
        ≡ (record r { store = record { held = insert op.id op r.store.held } }, ok duplicate)
  unfolding append_op memory_append
  append_again r op o v present = ground arith

  append_forged :
      (r : Repository MemoryOpStore) (op : Op) (e : VerifyError)
      → verify crypto op ≡ err e
      → append_op crypto r op ≡ (r, ok rejected)
  unfolding append_op
  append_forged r op e v = ground arith

  retained :
      (op : Op) (m : Materializer)
      → get op.id m.ops ≡ none
      → (retain_op m op).ops ≡ insert op.id op m.ops
  unfolding retain_op
  retained op m absent = ground arith

  -- What an append answers, and what is held after it.
  abbrev pub Appends : Repository MemoryOpStore → Op → Type 0
  Appends r op =
      let (r', applied) = append_op crypto r op in
      IsReplica crypto universe r'
      × ((verify crypto op ≡ ok tt)
            × (r'.store.held ≡ insert op.id op r.store.held)
            × (applied ≡ ok (if contains_key op.id r.store.held then duplicate else stored))
          ⊎ ((verify crypto op ≢ ok tt) × (r' ≡ r) × (applied ≡ ok rejected)))

  answer : Option Op → Result StoreError Applied
  answer o = ok (if elim o [ none ↦ false | some _ ↦ true ] then duplicate else stored)

  -- `append` on a replica, for any op that, if it verifies, is the one that its id names: a second
  -- valid signature of a content is left out, a forged or altered copy of a held op is not. An op
  -- that verifies is held afterwards, and the answer tells whether its id was there before; any
  -- other op is rejected and changes nothing. The replica stays one.
  pub append-Appends :
      (r : Repository MemoryOpStore) (op : Op)
      → IsReplica crypto universe r
      → (verify crypto op ≡ ok tt → universe op.id ≡ op)
      → Appends r op
  unfolding answer
  append-Appends r op replica named = on_verify (verify crypto op) refl
    where
      on_held :
          verify crypto op ≡ ok tt → (o : Option Op) → get op.id r.store.held ≡ o → Appends r op
      on_held v none e = rw (append_new r op v e) (
        record {
          sorted = insert-IsSorted op.id op r.store.held replica.sorted;
          held =
              All-insert_op op r.store.held (record { named = named v; verified = v }) replica.held;
          folded =
              retained op r.materializer (ap (λ m. get op.id m) replica.folded ∙ e)
              ∙ ap (λ m. insert op.id op m) replica.folded;
          fresh = tt;
        },
        inl (v, refl, ap answer (sym e)),
      )
      on_held v (some o) e =
          let same_log = held_again op o r.store.held replica.held (named v) e in
          rw (append_again r op o v e) (
            subst (λ m. IsReplica crypto universe (record r { store = record { held = m } }))
                (sym same_log) replica,
            inl (v, refl, ap answer (sym e)),
          )

      on_verify : (v : Result VerifyError (Unit {0})) → verify crypto op ≡ v → Appends r op
      on_verify (err e) v =
          rw (append_forged r op e v) (replica, inr ((λ c. ground arith), refl, refl))
      on_verify (ok _) v = on_held v (get op.id r.store.held) refl
