-- ===== src/BTree.antt =====
-- `BTreeMap` and `BTreeSet` of the Rust standard library, as far as the program uses them:
-- an association list in ascending order of its keys. Search and insertion stop at the first
-- greater key, as in the tree.
pub mod Laws
pub mod Commute
pub mod Sorted
pub mod Extensional
use splittr.Prelude.{
  ℕ, suc, List, [], ◌∷◌, map, Option, none, some, Bool, true, false, ◌≡◌, if◌then◌else◌,
}
use splittr.Prelude.Ord.{Ord}
use Prim.Native.Nat.Ordering.{lt, eq, gt}

abbrev pub BTreeMap {ℓ κ} : Type ℓ → Type κ → Type (ℓ ⊔ κ)
BTreeMap K V = List (K × V)

abbrev pub BTreeSet {ℓ} : Type ℓ → Type ℓ
BTreeSet K = BTreeMap K (Unit {0})

module _ {ℓ κ} {K : Type ℓ} {V : Type κ} where
  abbrev pub keys : BTreeMap K V → List K
  keys = map (λ (e : K × V). e.0)

  abbrev pub values : BTreeMap K V → List V
  values = map (λ (e : K × V). e.1)

  -- `retain`, and `iter().filter(..).collect()`
  unfoldable pub retain : (K → V → Bool) → BTreeMap K V → BTreeMap K V
  retain p [] = []
  retain p ((k, v) ∷ m) = if p k v then (k, v) ∷ retain p m else retain p m

module _ {ℓ κ} {K : Type ℓ} {V : Type κ} ⦃o : Ord K⦄ where
  unfoldable pub get : K → BTreeMap K V → Option V
  get q [] = none
  get q ((k, v) ∷ m) = elim (o.cmp q k) [ lt ↦ none | eq ↦ some v | gt ↦ get q m ]

  unfoldable pub insert : K → V → BTreeMap K V → BTreeMap K V
  insert q w [] = (q, w) ∷ []
  insert q w ((k, v) ∷ m) = elim (o.cmp q k) [
    | lt ↦ (q, w) ∷ (k, v) ∷ m
    | eq ↦ (q, w) ∷ m
    | gt ↦ (k, v) ∷ insert q w m
  ]

  abbrev pub contains_key : K → BTreeMap K V → Bool
  contains_key q m = elim (get q m) [ none ↦ false | some _ ↦ true ]

  -- `get(q).unwrap_or(d)`
  abbrev pub get_or : K → V → BTreeMap K V → V
  get_or q d m = elim (get q m) [ none ↦ d | some v ↦ v ]

  -- `*m.entry(q).or_insert(d) = f(..)`
  abbrev pub update_entry : K → V → (V → V) → BTreeMap K V → BTreeMap K V
  update_entry q d f m = insert q (f (get_or q d m)) m

  -- `match m.get(&q) { Some(old) if wins(old, new) => {} _ => { m.insert(q, new); } }`
  unfoldable pub insert_unless : (V → V → Bool) → K → V → BTreeMap K V → BTreeMap K V
  insert_unless wins q w m = elim (get q m) [
    | none ↦ insert q w m
    | some v ↦ if wins v w then m else insert q w m
  ]

module _ {ℓ} {K : Type ℓ} ⦃o : Ord K⦄ where
  -- `BTreeSet::insert`
  abbrev pub set_insert : K → BTreeSet K → BTreeSet K
  set_insert k s = insert k tt s

  -- `BTreeSet::contains`
  abbrev pub contains : K → BTreeSet K → Bool
  contains k s = contains_key k s
