-- ===== src/Sync/Reconcile/Members.antt =====
-- Which ids the parts of a sync session go over (splittr-sync/src/reconcile.rs): the ids of a
-- replica, those of the ops that a peer lacks, and those held after ops came in.
use splittr.Prelude.{
  Bool, true, false, Option, none, some, [], ◌∷◌, List, ◌≡◌, refl, ap, ◌∙◌, arith, not, ◌||◌, ◌&&◌,
  foldl, map, inl, inr,
}
use splittr.Prelude.Ord.{same, bytes_ord, eq_of_bytes}
use splittr.Prelude.Folds.{All}
use splittr.Prelude.Lists.{filter_by}
use splittr.BTree.{BTreeMap, BTreeSet, get, insert, contains, contains_key, set_insert, values}
use splittr.BTree.Laws.{get-insert}
use splittr.BTree.Sorted.{IsSorted, Above, get-Above, Above-trans}
use splittr.Crdt.Op.{Op, OpId, Crypto}
use splittr.Store.OpStore.{MemoryOpStore, memory_store}
use splittr.Store.Repository.{Repository, append_op}
use splittr.Store.Repository.Invariant.{
  IsGenuine, IsHeld, IsReplica, Appends, append-Appends, get-named,
}
use splittr.Sync.Reconcile.{
  collect_ids, filter_map, missing_ops, ingest_all, repository_op_ids, repository_get_op,
  repository_sync, ingest,
}

-- An id is in a list.
abbrev pub is_in : OpId → List OpId → Bool
is_in q [] = false
is_in q (id ∷ ids) = same q id || is_in q ids

abbrev pub ids : List Op → List OpId
ids ops = map (λ (op : Op). op.id) ops

contains-set_insert :
    (q id : OpId) (s : BTreeSet OpId) → contains q (set_insert id s) ≡ same q id || contains q s
contains-set_insert q id s = ground (arith, get-insert q id tt s)

contains-collect_onto :
    (q : OpId) (l : List OpId) (s : BTreeSet OpId)
    → contains q (foldl (λ known id. set_insert id known) s l) ≡ contains q s || is_in q l
contains-collect_onto q [] s = ground arith
contains-collect_onto q (id ∷ l) s =
    ground (arith, contains-collect_onto q l (set_insert id s), contains-set_insert q id s)

contains-collect_ids : (q : OpId) (l : List OpId) → contains q (collect_ids l) ≡ is_in q l
unfolding get
contains-collect_ids q l = contains-collect_onto q l []

is_in-filter_by :
    (q : OpId) (p : OpId → Bool) (l : List OpId) → is_in q (filter_by p l) ≡ is_in q l && p q
is_in-filter_by q p [] = refl
is_in-filter_by q p (id ∷ l) = ground (arith, is_in-filter_by q p l, eq_of_bytes q id)

module _ (crypto : Crypto) (universe : OpId → Op) where
  is_in-keys_Above :
      (q : OpId) (m : BTreeMap OpId Op)
      → All (IsHeld crypto universe) m
      → Above q m
      → is_in q (ids (values m)) ≡ false
  is_in-keys_Above q [] a b = refl
  is_in-keys_Above q ((k, o) ∷ m) a b = ground (arith, is_in-keys_Above q m a.1 b.1, a.0.0)

  pub is_in-ids :
      (q : OpId) (m : BTreeMap OpId Op)
      → All (IsHeld crypto universe) m
      → IsSorted m
      → is_in q (ids (values m)) ≡ contains_key q m
  unfolding get
  is_in-ids q [] a s = refl
  is_in-ids q ((k, o) ∷ m) a s = ground (
    arith,
    is_in-ids q m a.1 s.1,
    is_in-keys_Above q m a.1,
    Above-trans q k m,
    get-Above q m,
    a.0.0,
    eq_of_bytes q k,
  )

  is_in-filter_map :
      (q : OpId) (m : BTreeMap OpId Op) (l : List OpId)
      → All (IsHeld crypto universe) m
      → is_in q (ids (filter_map (λ id. get id m) l)) ≡ is_in q l && contains_key q m
  unfolding filter_map
  is_in-filter_map q m [] a = refl
  is_in-filter_map q m (id ∷ l) a = on_get (get id m) refl (is_in-filter_map q m l a)
    where
      on_get :
          (o : Option Op)
          → get id m ≡ o
          → is_in q (ids (filter_map (λ id. get id m) l)) ≡ is_in q l && contains_key q m
          → is_in q (
              ids (elim o [
                | none ↦ filter_map (λ id. get id m) l
                | some y ↦ y ∷ filter_map (λ id. get id m) l
              ]))
            ≡ is_in q (id ∷ l) && contains_key q m
      on_get none e ih = ground (arith, eq_of_bytes q id)
      on_get (some o) e ih =
          ground (arith, eq_of_bytes q id, (get-named crypto universe id o m a e).0)

  filter_map-IsGenuine :
      (m : BTreeMap OpId Op) (l : List OpId)
      → All (IsHeld crypto universe) m
      → All (IsGenuine crypto universe) (filter_map (λ id. get id m) l)
  unfolding filter_map
  filter_map-IsGenuine m [] a = tt
  filter_map-IsGenuine m (id ∷ l) a = on_get (get id m) refl (filter_map-IsGenuine m l a)
    where
      on_get :
          (o : Option Op)
          → get id m ≡ o
          → All (IsGenuine crypto universe) (filter_map (λ id. get id m) l)
          → All (IsGenuine crypto universe) (elim o [
            | none ↦ filter_map (λ id. get id m) l
            | some y ↦ y ∷ filter_map (λ id. get id m) l
          ])
      on_get none e rest = rest
      on_get (some o) e rest = ((get-named crypto universe id o m a e).1, rest)

  module _ (r : Repository MemoryOpStore) (replica : IsReplica crypto universe r) where
    -- The ops that a replica sends to a peer with the ids `theirs` are those that it holds and whose
    -- ids are not among them.
    pub is_in-missing_ops :
        (q : OpId) (theirs : List OpId)
        → is_in q (ids (missing_ops ⦃sync = repository_sync crypto⦄ r theirs))
          ≡ contains_key q r.store.held && not (is_in q theirs)
    unfolding missing_ops repository_op_ids repository_get_op
    is_in-missing_ops q theirs = ground (
      arith,
      is_in-filter_map q r.store.held
          (filter_by (λ id. not (contains id (collect_ids theirs))) (ids (values r.store.held)))
          replica.held,
      is_in-filter_by q (λ id. not (contains id (collect_ids theirs))) (ids (values r.store.held)),
      is_in-ids q r.store.held replica.held replica.sorted,
      contains-collect_ids q theirs,
    )

    pub missing_ops-IsGenuine :
        (theirs : List OpId)
        → All (IsGenuine crypto universe) (missing_ops ⦃sync = repository_sync crypto⦄ r theirs)
    unfolding missing_ops repository_op_ids repository_get_op
    missing_ops-IsGenuine theirs = filter_map-IsGenuine r.store.held _ replica.held

  contains_key-insert :
      (q k : OpId) (op : Op) (m : BTreeMap OpId Op)
      → contains_key q (insert k op m) ≡ same q k || contains_key q m
  contains_key-insert q k op m = ground (arith, get-insert q k op m)

  ingest_one :
      (r : Repository MemoryOpStore) (op : Op)
      → IsReplica crypto universe r
      → IsGenuine crypto universe op
      → IsReplica crypto universe (ingest crypto r op).0
        × ((ingest crypto r op).0.store.held ≡ insert op.id op r.store.held)
  unfolding ingest
  ingest_one r op replica genuine =
      on_appends (append-Appends crypto universe r op replica (λ _. genuine.named))
    where
      on_appends :
          Appends crypto universe r op
          → IsReplica crypto universe (append_op crypto r op).0
            × ((append_op crypto r op).0.store.held ≡ insert op.id op r.store.held)
      on_appends (replica', inl (_, held, _)) = (replica', held)
      on_appends (replica', inr (forged, _, _)) = absurd (forged genuine.verified)

  -- After genuine ops came in, a replica is one, and holds those and what it held.
  pub ingest_all-holds :
      (l : List Op) (r : Repository MemoryOpStore)
      → IsReplica crypto universe r
      → All (IsGenuine crypto universe) l
      → IsReplica crypto universe (ingest_all ⦃sync = repository_sync crypto⦄ r l)
        × ((q : OpId)
            → contains_key q (ingest_all ⦃sync = repository_sync crypto⦄ r l).store.held
              ≡ contains_key q r.store.held || is_in q (ids l))
  unfolding ingest_all
  ingest_all-holds [] r replica a = (replica, λ q. ground arith)
  ingest_all-holds (op ∷ l) r replica a =
      let (replica', held) = ingest_one r op replica a.0 in
      let (replica'', holds) = ingest_all-holds l (ingest crypto r op).0 replica' a.1 in
      (
        replica'',
        (λ q.
            holds q
            ∙ ap (λ m. contains_key q m || is_in q (ids l)) held
            ∙ ap (λ b. b || is_in q (ids l)) (contains_key-insert q op.id op r.store.held)
            ∙ regroup (same q op.id) (contains_key q r.store.held) (is_in q (ids l))),
      )
    where
      regroup : (x y z : Bool) → (x || y) || z ≡ y || (x || z)
      regroup true true z = refl
      regroup true false z = refl
      regroup false y z = refl
