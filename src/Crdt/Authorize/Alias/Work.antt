-- ===== src/Crdt/Authorize/Alias/Work.antt =====
-- The work left to the search for the components of the alias graph (`resolve_aliases` of
-- splittr-crdt/src/authorize.rs): the stack and the nodes that are not visited.
use splittr.Prelude.{
  ℕ, zero, suc, ◌+◌, ◌≤◌, Bool, true, false, some, [], ◌∷◌, List, ◌++◌, ◌≡◌, refl, arith,
  if◌then◌else◌, Bool-cases, inl, inr,
}
use splittr.Prelude.Ord.{bytes_ord, eq_of_bytes}
use splittr.Prelude.Lists.{length}
use splittr.Prelude.Folds.{All}
use splittr.BTree.{BTreeMap, BTreeSet, get, contains, set_insert}
use splittr.BTree.Laws.{contains-kept, contains-added}
use splittr.Domain.Ids.{UserId}
use splittr.Crdt.Authorize.Alias.{
  Aliases, push_unvisited, neighbours, search, record_component, components,
}

-- The nodes that are not visited.
unseen : BTreeSet UserId → BTreeSet UserId → ℕ
unseen visited [] = 0
unseen visited ((k, _) ∷ m) = (if contains k visited then 0 else 1) + unseen visited m

unseen-length : (visited m : BTreeSet UserId) → unseen visited m ≤ length m
unfolding unseen
unseen-length visited [] = ground arith
unseen-length visited ((k, _) ∷ m) = ground (arith, unseen-length visited m)

unseen-fewer :
    (v : UserId) (visited m : BTreeSet UserId) → unseen (set_insert v visited) m ≤ unseen visited m
unfolding unseen
unseen-fewer v visited [] = ground arith
unseen-fewer v visited ((k, _) ∷ m) =
    ground (arith, unseen-fewer v visited m, contains-kept k v visited)

-- To visit a node that was not visited leaves fewer.
unseen-less :
    (v : UserId) (visited m : BTreeSet UserId)
    → contains v m ≡ true
    → contains v visited ≡ false
    → suc (unseen (set_insert v visited) m) ≤ unseen visited m
unfolding unseen get
unseen-less v visited [] h new = ground arith
unseen-less v visited ((k, _) ∷ m) h new = ground (
  arith,
  unseen-less v visited m,
  unseen-fewer v visited m,
  contains-kept k v visited,
  contains-added v visited,
  eq_of_bytes v k,
)

module _ (nodes : BTreeSet UserId) where
  abbrev pub IsNode : UserId → Type 0
  IsNode v = contains v nodes ≡ true

  push_unvisited-work :
      (vs : List UserId) (visited : BTreeSet UserId) (stack : List UserId)
      → All IsNode vs
      → length (push_unvisited vs visited stack).1
          + unseen (push_unvisited vs visited stack).0 nodes
        ≤ length stack + unseen visited nodes
  unfolding push_unvisited
  push_unvisited-work [] visited stack h = ground arith
  push_unvisited-work (v ∷ vs) visited stack (node, others) =
      on_old (contains v visited) refl (push_unvisited-work vs visited stack others)
        (push_unvisited-work vs (set_insert v visited) (v ∷ stack) others)
    where
      work : BTreeSet UserId × List UserId → ℕ
      work (seen, pending) = length pending + unseen seen nodes

      on_old :
          (b : Bool)
          → contains v visited ≡ b
          → work (push_unvisited vs visited stack) ≤ work (visited, stack)
          → work (push_unvisited vs (set_insert v visited) (v ∷ stack))
            ≤ work (set_insert v visited, v ∷ stack)
          → work (
              push_unvisited vs
                (if b then visited else set_insert v visited)
                (if b then stack else v ∷ stack))
            ≤ work (visited, stack)
      on_old true old kept pushed = kept
      on_old false new kept pushed = omega (arith, pushed, unseen-less v visited nodes node new)

  module _ (adjacency : BTreeMap UserId (BTreeSet UserId))
      (closed : (u : UserId) → All IsNode (neighbours adjacency u)) where
    search-ends :
        (fuel : ℕ) (visited : BTreeSet UserId) (stack component : List UserId)
        → length stack + unseen visited nodes ≤ fuel
        → (found : BTreeSet UserId × List UserId) × (search fuel adjacency visited stack component
            ≡ some found)
    unfolding search
    search-ends zero visited [] component h = ((visited, component), refl)
    search-ends (suc fuel) visited [] component h = ((visited, component), refl)
    search-ends zero visited (u ∷ stack) component h = absurd (omega (arith, h))
    search-ends (suc fuel) visited (u ∷ stack) component h =
        let after = push_unvisited (neighbours adjacency u) visited stack in
        search-ends fuel after.0 after.1 (component ++ u ∷ [])
          (omega (arith, h, push_unvisited-work (neighbours adjacency u) visited stack (closed u)))

    pub components-end :
        (starts : List UserId) (visited : BTreeSet UserId) (canonical : Aliases)
        → All IsNode starts
        → (a : Aliases) × (components (length nodes) adjacency starts visited canonical ≡ some a)
    unfolding components
    components-end [] visited canonical h = (canonical, refl)
    components-end (start ∷ starts) visited canonical (node, others) =
        elim (Bool-cases (contains start visited)) [
          | inl old ↦ rw old (components-end starts visited canonical others)
          | inr new ↦ rw new (
              let (found, e) =
                search-ends (length nodes) (set_insert start visited) (start ∷ []) [] (
                  omega (
                    arith,
                    unseen-less start visited nodes node new,
                    unseen-length visited nodes,
                  )) in
              rw e (components-end starts found.0 (record_component found.1 canonical) others))
        ]
