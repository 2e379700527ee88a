-- ===== src/BTree/Laws.antt =====
-- Reading a map after a write, and writing twice at one key.
use splittr.Prelude.{◌∷◌, [], some, true, ◌≡◌, ◌≢◌, arith}
use splittr.Prelude.Ord.{Ord}
use splittr.BTree.{BTreeMap, BTreeSet, get, insert, contains, set_insert}
use Prim.Native.Nat.Ordering.{eq}

module _ {ℓ κ} {K : Type ℓ} {V : Type κ} ⦃o : Ord K⦄ where
  -- A write at `q` is read at `q`; every other key reads what it read before.
  pub get-insert :
      (p q : K) (w : V) (m : BTreeMap K V)
      → get p (insert q w m) ≡ elim (o.cmp p q) [ eq ↦ some w | _ ↦ get p m ]
  unfolding get insert
  get-insert p q w [] = ground arith
  get-insert p q w ((k, v) ∷ m) = ground (
    arith,
    get-insert p q w m,
    o.eq_of_cmp p q,
    o.eq_of_cmp q k,
    o.eq_of_cmp p k,
    o.cmp_flip p q,
    o.cmp_flip q k,
    o.lt_trans p q k,
    o.lt_trans k q p,
    o.cmp_flip p k,
    o.cmp_self q,
  )

  pub get-insert_self : (q : K) (w : V) (m : BTreeMap K V) → get q (insert q w m) ≡ some w
  get-insert_self q w m = ground (arith, get-insert q q w m, o.cmp_self q)

  -- The later write at a key stands.
  pub insert_twice : (q : K) (v w : V) (m : BTreeMap K V) → insert q w (insert q v m) ≡ insert q w m
  unfolding insert
  insert_twice q v w [] = ground (arith, o.cmp_self q)
  insert_twice q v w ((k, u) ∷ m) = ground (arith, o.cmp_self q, insert_twice q v w m)

  -- To write back what a key holds changes nothing.
  pub insert-get : (q : K) (v : V) (m : BTreeMap K V) → get q m ≡ some v → insert q v m ≡ m
  unfolding get insert
  insert-get q v [] h = ground arith
  insert-get q v ((k, u) ∷ m) h = ground (arith, insert-get q v m, o.eq_of_cmp q k)

  -- Writes at two keys can be made in either order.
  pub insert_comm :
      (p q : K) (v w : V) (m : BTreeMap K V)
      → o.cmp p q ≢ eq
      → insert p v (insert q w m) ≡ insert q w (insert p v m)
  unfolding insert
  insert_comm p q v w [] h = ground (arith, o.cmp_flip p q)
  insert_comm p q v w ((k, u) ∷ m) h = ground (
    arith,
    insert_comm p q v w m h,
    o.cmp_flip p q,
    o.cmp_flip q k,
    o.cmp_flip p k,
    o.eq_of_cmp q k,
    o.eq_of_cmp p k,
    o.lt_trans p k q,
    o.lt_trans q k p,
    o.lt_trans p q k,
    o.lt_trans q p k,
  )

module _ {ℓ} {K : Type ℓ} ⦃o : Ord K⦄ where
  pub contains-set_insert :
      (x v : K) (s : BTreeSet K)
      → contains x (set_insert v s) ≡ (elim (o.cmp x v) [ eq ↦ true | _ ↦ contains x s ])
  contains-set_insert x v s = ground (arith, get-insert x v tt s)

  -- What a set contains it contains after an insertion, and so it does what was inserted.
  pub contains-kept :
      (x v : K) (s : BTreeSet K) → contains x s ≡ true → contains x (set_insert v s) ≡ true
  contains-kept x v s h = ground (arith, contains-set_insert x v s)

  pub contains-added : (v : K) (s : BTreeSet K) → contains v (set_insert v s) ≡ true
  contains-added v s = ground (arith, contains-set_insert v v s, o.cmp_self v)
