-- ===== src/BTree/Sorted.antt =====
-- The invariant of a map: its keys ascend. Every update keeps it.
use splittr.Prelude.{◌≡◌, none, some, Bool, [], ◌∷◌, arith, refl, if◌then◌else◌, Ordering}
use splittr.Prelude.Ord.{Ord}
use splittr.BTree.{BTreeMap, get, insert, retain}
use Prim.Native.Nat.Ordering.{lt, eq, gt}

module _ {ℓ κ} {K : Type ℓ} {V : Type κ} ⦃o : Ord K⦄ where
  abbrev pub Above : K → BTreeMap K V → Type 0
  Above q [] = Unit
  Above q ((k, _) ∷ m) = (o.cmp q k ≡ lt) × Above q m

  abbrev pub IsSorted : BTreeMap K V → Type 0
  IsSorted [] = Unit
  IsSorted ((k, _) ∷ m) = Above k m × IsSorted m

  pub get-Above : (q : K) (m : BTreeMap K V) → Above q m → get q m ≡ none
  unfolding get
  get-Above q [] h = refl
  get-Above q ((k, v) ∷ m) h = ground arith

  pub Above-trans : (p q : K) (m : BTreeMap K V) → o.cmp p q ≡ lt → Above q m → Above p m
  Above-trans p q [] h a = tt
  Above-trans p q ((k, v) ∷ m) h a = (o.lt_trans p q k h a.0, Above-trans p q m h a.1)

  Above-insert :
      (p q : K) (w : V) (m : BTreeMap K V) → o.cmp p q ≡ lt → Above p m → Above p (insert q w m)
  unfolding insert
  Above-insert p q w [] h a = (h, tt)
  Above-insert p q w ((k, v) ∷ m) h a = ground (arith, Above-insert p q w m h)

  pub insert-IsSorted : (q : K) (w : V) (m : BTreeMap K V) → IsSorted m → IsSorted (insert q w m)
  unfolding insert
  insert-IsSorted q w [] s = (tt, tt)
  insert-IsSorted q w ((k, v) ∷ m) s = split (insert-IsSorted q w m s.1) (o.cmp q k) refl
    where
      split :
          IsSorted (insert q w m)
          → (c : Ordering) → o.cmp q k ≡ c
          → IsSorted (insert q w ((k, v) ∷ m))
      split ih lt e = rw (e, insert) ((e, Above-trans q k m e s.0), s)
      split ih eq e = rw (e, insert) (rw (o.eq_of_cmp q k e) s.0, s.1)
      split ih gt e = rw (e, insert) (Above-insert k q w m (ground (arith, o.cmp_flip q k)) s.0, ih)

  Above-retain : (p : K → V → Bool) (q : K) (m : BTreeMap K V) → Above q m → Above q (retain p m)
  unfolding retain
  Above-retain p q [] a = tt
  Above-retain p q ((k, v) ∷ m) a = ground (arith, Above-retain p q m a.1)

  pub retain-IsSorted : (p : K → V → Bool) (m : BTreeMap K V) → IsSorted m → IsSorted (retain p m)
  unfolding retain
  retain-IsSorted p [] s = tt
  retain-IsSorted p ((k, v) ∷ m) s = ground (arith, retain-IsSorted p m s.1, Above-retain p k m s.0)

  -- `retain` keeps the entries that pass its test, and drops the others.
  pub get-retain :
      (p : K → V → Bool) (q : K) (m : BTreeMap K V)
      → IsSorted m
      → get q (retain p m)
        ≡ elim (get q m) [ none ↦ none | some v ↦ if p q v then some v else none ]
  unfolding get retain
  get-retain p q [] s = refl
  get-retain p q ((k, v) ∷ m) s = ground (
    arith,
    get-retain p q m s.1,
    o.eq_of_cmp q k,
    get-Above q (retain p m),
    get-Above q m,
    Above-retain p q m,
    Above-trans q k m,
  )
