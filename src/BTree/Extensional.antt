-- ===== src/BTree/Extensional.antt =====
-- A map with ascending keys is determined by what it has at each key.
use splittr.Prelude.{◌≡◌, none, some, [], ◌∷◌, arith, refl, sym, ap, ap₂, ◌∙◌}
use splittr.Prelude.Ord.{Ord}
use splittr.BTree.{BTreeMap, get}
use splittr.BTree.Sorted.{IsSorted, Above, get-Above, Above-trans}
use Prim.Native.Nat.Ordering.{gt}

module _ {ℓ κ} {K : Type ℓ} {V : Type κ} ⦃o : Ord K⦄ where
  get_first : (k : K) (v : V) (m : BTreeMap K V) → get k ((k, v) ∷ m) ≡ some v
  unfolding get
  get_first k v m = ground (arith, o.cmp_self k)

  get_rest :
      (q k : K) (v : V) (m : BTreeMap K V)
      → Above k m
      → get q m ≡ elim (o.cmp q k) [ gt ↦ get q ((k, v) ∷ m) | _ ↦ none ]
  unfolding get
  get_rest q k v m a = ground (arith, get-Above q m, Above-trans q k m, o.eq_of_cmp q k)

  same_first :
      (k j : K) (v w : V) (m n : BTreeMap K V)
      → Above k m
      → Above j n
      → ((q : K) → get q ((k, v) ∷ m) ≡ get q ((j, w) ∷ n))
      → (k ≡ j) × (v ≡ w)
  unfolding get
  same_first k j v w m n a b h = ground (
    arith,
    h k,
    h j,
    o.cmp_self k,
    o.cmp_self j,
    o.cmp_flip k j,
    o.eq_of_cmp k j,
    get-Above k n,
    get-Above j m,
    Above-trans k j n,
    Above-trans j k m,
  )

  pub eq_of_get :
      (m n : BTreeMap K V) → IsSorted m → IsSorted n → ((q : K) → get q m ≡ get q n) → m ≡ n
  unfolding get
  eq_of_get [] [] s t h = refl
  eq_of_get [] ((j, w) ∷ n) s t h = ground (arith, h j, o.cmp_self j)
  eq_of_get ((k, v) ∷ m) [] s t h = ground (arith, h k, o.cmp_self k)
  eq_of_get ((k, v) ∷ m) ((j, w) ∷ n) s t h =
      let (same_key, same_value) = same_first k j v w m n s.0 t.0 h in
      ap₂ (λ e r. e ∷ r) (ap₂ (λ x y. (x, y)) same_key same_value)
        (eq_of_get m n s.1 t.1 (λ q.
          get_rest q k v m s.0
          ∙ ap₂ (λ c g. elim c [ gt ↦ g | _ ↦ none ]) (ap (o.cmp q) same_key) (h q)
          ∙ sym (get_rest q j w n t.0)))
