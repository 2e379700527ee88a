-- ===== src/BTree/Commute.antt =====
-- Updates of a map that can be made in either order: set insertions, updates of an entry, and
-- writes that keep the greatest value by a rank.
use splittr.Prelude.{
  ◌≡◌, ◌≢◌, refl, sym, ap, ◌∙◌, arith, Bool, ◌⊎◌, inl, inr, Option-cases, Ordering,
}
use splittr.Prelude.Ord.{Ord, at_most}
use splittr.BTree.{BTreeMap, BTreeSet, get, insert, get_or, update_entry, set_insert, insert_unless}
use splittr.BTree.Laws.{get-insert, get-insert_self, insert_twice, insert_comm}
use Prim.Native.Nat.Ordering.{lt, eq, gt}

module _ {ℓ} {K : Type ℓ} ⦃o : Ord K⦄ where
  -- Two keys are one, or compare as different.
  pub key-cases : (a b : K) → (a ≡ b) ⊎ (o.cmp a b ≢ eq)
  key-cases a b = split (o.cmp a b) refl
    where
      split : (c : Ordering) → o.cmp a b ≡ c → (a ≡ b) ⊎ (o.cmp a b ≢ eq)
      split eq e = inl (o.eq_of_cmp a b e)
      split lt e = inr (ground arith)
      split gt e = inr (ground arith)

  pub set_insert_comm :
      (a b : K) (s : BTreeSet K) → set_insert a (set_insert b s) ≡ set_insert b (set_insert a s)
  set_insert_comm a b s = elim (key-cases a b) [
    | inl e ↦
        ap (λ k. set_insert k (set_insert b s)) e ∙ ap (λ k. set_insert b (set_insert k s)) (sym e)
    | inr ne ↦ insert_comm a b tt tt s ne
  ]

module _ {ℓ κ} {K : Type ℓ} {V : Type κ} ⦃o : Ord K⦄ where
  pub get-insert_ne :
      (p q : K) (w : V) (m : BTreeMap K V) → o.cmp p q ≢ eq → get p (insert q w m) ≡ get p m
  get-insert_ne p q w m ne = ground (arith, get-insert p q w m)

  -- Updates of entries commute where the two changes of a value do.
  pub update_entry_comm :
      (p q : K) (d : V) (f g : V → V) (m : BTreeMap K V)
      → ((v : V) → f (g v) ≡ g (f v))
      → update_entry p d f (update_entry q d g m) ≡ update_entry q d g (update_entry p d f m)
  update_entry_comm p q d f g m fg = elim (key-cases p q) [
    | inl e ↦ rw e (same_key q)
    | inr ne ↦ ground (
      arith,
      get-insert_ne p q (g (get_or q d m)) m ne,
      get-insert_ne q p (f (get_or p d m)) m (λ h. ne (ground (arith, o.cmp_flip q p))),
      insert_comm p q (f (get_or p d m)) (g (get_or q d m)) m ne,
    )
  ]
    where
      same_key :
          (k : K)
          → update_entry k d f (update_entry k d g m) ≡ update_entry k d g (update_entry k d f m)
      same_key k =
          let v = get_or k d m in
          ground (
            arith,
            get-insert_self k (g v) m,
            get-insert_self k (f v) m,
            insert_twice k (g v) (f (g v)) m,
            insert_twice k (f v) (g (f v)) m,
            fg v,
          )

-- The value that is there stands unless the new one has a greater rank.
abbrev pub outranks {κ ρ} : {V : Type κ} {R : Type ρ} ⦃r : Ord R⦄ → (V → R) → V → V → Bool
outranks rank v w = at_most (rank w) (rank v)

module _ {ℓ κ ρ} {K : Type ℓ} {V : Type κ} {R : Type ρ} ⦃o : Ord K⦄ ⦃r : Ord R⦄ (rank : V → R) where
  insert_greatest_same :
      (k : K) (s t : V) (m : BTreeMap K V)
      → (r.cmp (rank s) (rank t) ≡ eq → s ≡ t)
      → insert_unless (outranks rank) k t (insert_unless (outranks rank) k s m)
        ≡ insert_unless (outranks rank) k s (insert_unless (outranks rank) k t m)
  unfolding insert_unless
  insert_greatest_same k s t m same_rank = elim (Option-cases (get k m)) [
    | inl e ↦ ground (
      arith,
      get-insert_self k s m,
      get-insert_self k t m,
      insert_twice k s t m,
      insert_twice k t s m,
      r.cmp_flip (rank s) (rank t),
      same_rank,
    )
    | inr (v, e) ↦ ground (
      arith,
      get-insert_self k s m,
      get-insert_self k t m,
      insert_twice k s t m,
      insert_twice k t s m,
      r.cmp_flip (rank s) (rank t),
      r.cmp_flip (rank s) (rank v),
      r.cmp_flip (rank t) (rank v),
      r.lt_trans (rank s) (rank t) (rank v),
      r.lt_trans (rank t) (rank s) (rank v),
      r.lt_trans (rank v) (rank s) (rank t),
      r.lt_trans (rank v) (rank t) (rank s),
      r.eq_of_cmp (rank s) (rank v),
      r.eq_of_cmp (rank t) (rank v),
      r.eq_of_cmp (rank s) (rank t),
      same_rank,
    )
  ]

  -- Of two writes that keep the greater value either may come first, unless two values at one key
  -- differ and have one rank.
  pub insert_greatest_comm :
      (j k : K) (s t : V) (m : BTreeMap K V)
      → (j ≡ k → r.cmp (rank s) (rank t) ≡ eq → s ≡ t)
      → insert_unless (outranks rank) k t (insert_unless (outranks rank) j s m)
        ≡ insert_unless (outranks rank) j s (insert_unless (outranks rank) k t m)
  unfolding insert_unless
  insert_greatest_comm j k s t m same_rank = elim (key-cases j k) [
    | inl e ↦ rw e (insert_greatest_same k s t m (same_rank e))
    | inr ne ↦ ground (
      arith,
      get-insert_ne j k t m ne,
      get-insert_ne k j s m (λ h. ne (ground (arith, o.cmp_flip k j))),
      insert_comm j k s t m ne,
    )
  ]
