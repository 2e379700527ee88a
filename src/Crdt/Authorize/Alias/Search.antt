-- ===== src/Crdt/Authorize/Alias/Search.antt =====
-- The search for the components of the alias graph (`resolve_aliases` of
-- splittr-crdt/src/authorize.rs) comes to its end: each round takes a node from the stack, and a node
-- is put there once.
use splittr.Prelude.{
  true, Option, none, some, [], ◌∷◌, List, ◌≡◌, sym, ap, ◌∙◌, arith, foldl, Ordering,
}
use mathlib.Core.Path.{subst}
use Prim.Native.Nat.Ordering.{lt, eq, gt}
use splittr.Prelude.Ord.{bytes_ord, cmp_bytes, bytes_self, bytes_flip}
use splittr.Prelude.Folds.{All}
use splittr.BTree.{
  BTreeMap, BTreeSet, get, get_or, insert, contains, keys, set_insert, update_entry,
}
use splittr.BTree.Laws.{get-insert, contains-kept, contains-added}
use splittr.BTree.Sorted.{IsSorted, Above, insert-IsSorted}
use splittr.Domain.Ids.{UserId}
use splittr.Crdt.Authorize.Alias.{
  Aliases, Graph, add_edge, neighbours, graph_of, resolve_graph, resolve_aliases,
}
use splittr.Crdt.Authorize.Alias.Work.{components-end}

-- Every key of a sorted set is found in it.
keys-behind :
    (k : UserId) (all m : BTreeSet UserId)
    → Above k m
    → All (λ v. contains v all ≡ true) (keys m)
    → All (λ v. contains v ((k, tt) ∷ all) ≡ true) (keys m)
unfolding get
keys-behind k all [] above h = tt
keys-behind k all ((x, _) ∷ m) (before, above) (here, rest) =
    (ground (arith, bytes_flip k x), keys-behind k all m above rest)

keys-contains : (m : BTreeSet UserId) → IsSorted m → All (λ v. contains v m ≡ true) (keys m)
unfolding get
keys-contains [] s = tt
keys-contains ((k, _) ∷ m) (above, s) =
    (ground (arith, bytes_self k), keys-behind k m m above (keys-contains m s))

All-keys-insert :
    (P : UserId → Type 0) (v : UserId) (m : BTreeSet UserId)
    → P v
    → All P (keys m)
    → All P (keys (set_insert v m))
unfolding insert
All-keys-insert P v [] p h = (p, tt)
All-keys-insert P v ((k, _) ∷ m) p (q, h) = split (cmp_bytes v k) (All-keys-insert P v m p h)
  where
    split :
        (c : Ordering)
        → All P (keys (set_insert v m))
        → All P (
            keys (elim c [
              | lt ↦ (v, tt) ∷ (k, tt) ∷ m
              | eq ↦ (v, tt) ∷ m
              | gt ↦ (k, tt) ∷ set_insert v m
            ]))
    split lt rest = (p, (q, h))
    split eq rest = (p, h)
    split gt rest = (q, rest)

All-map :
    (P Q : UserId → Type 0) → ((v : UserId) → P v → Q v) → (vs : List UserId) → All P vs → All Q vs
All-map P Q f [] h = tt
All-map P Q f (v ∷ vs) (p, h) = (f v p, All-map P Q f vs h)

-- The neighbours in a graph are among its nodes, which are in order.
record IsClosed (g : Graph) : Type 0 where
  inside : (u : UserId) → All (λ v. contains v g.nodes ≡ true) (neighbours g.adjacency u)
  ordered : IsSorted g.nodes

abbrev neighbours_in : Option (BTreeSet UserId) → List UserId
neighbours_in o = keys (elim o [ none ↦ [] | some s ↦ s ])

-- One more neighbour, which is a node.
link-closed :
    (P : UserId → Type 0) (a b : UserId) (adjacency : BTreeMap UserId (BTreeSet UserId))
    → P b
    → ((u : UserId) → All P (neighbours adjacency u))
    → (u : UserId) → All P (neighbours (update_entry a [] (set_insert b) adjacency) u)
link-closed P a b adjacency p h u =
    subst (λ (o : Option (BTreeSet UserId)). All P (neighbours_in o))
      (sym (get-insert u a linked adjacency)) (split (cmp_bytes u a))
  where
    linked : BTreeSet UserId
    linked = set_insert b (get_or a [] adjacency)

    split :
        (c : Ordering)
        → All P (
            neighbours_in (elim c as (λ _. Option (BTreeSet UserId)) [
              | eq ↦ some linked
              | _ ↦ get u adjacency
            ]))
    split lt = h u
    split eq = All-keys-insert P b (get_or a [] adjacency) p (h a)
    split gt = h u

add_edge-IsClosed : (g : Graph) (e : UserId × UserId) → IsClosed g → IsClosed (add_edge g e)
unfolding add_edge
add_edge-IsClosed g (a, b) closed =
    let nodes = set_insert b (set_insert a g.nodes) in
    let known = contains-kept a b (set_insert a g.nodes) (contains-added a g.nodes) in
    let before : (u : UserId) → All (λ v. contains v nodes ≡ true) (neighbours g.adjacency u) = λ u.
      All-map (λ v. contains v g.nodes ≡ true) (λ v. contains v nodes ≡ true)
        (λ v h. contains-kept v b (set_insert a g.nodes) (contains-kept v a g.nodes h))
        (neighbours g.adjacency u) (closed.inside u) in
    record {
      inside =
          link-closed (λ v. contains v nodes ≡ true) b a
            (update_entry a [] (set_insert b) g.adjacency) known
            (link-closed (λ v. contains v nodes ≡ true) a b g.adjacency
              (contains-added b (set_insert a g.nodes)) before);
      ordered =
          insert-IsSorted b tt (set_insert a g.nodes) (insert-IsSorted a tt g.nodes closed.ordered);
    }

edges-IsClosed :
    (edges : List (UserId × UserId)) (g : Graph) → IsClosed g → IsClosed (foldl add_edge g edges)
edges-IsClosed [] g closed = closed
edges-IsClosed (e ∷ edges) g closed =
    edges-IsClosed edges (add_edge g e) (add_edge-IsClosed g e closed)

-- Whatever aliases are recorded, the search for the components of their graph comes to its end
-- within as many rounds for a component as the graph has nodes, and gives the canonical ids.
pub resolve_graph-ends :
    (edges : List (UserId × UserId)) → resolve_graph (graph_of edges) ≡ some (resolve_aliases edges)
unfolding resolve_graph resolve_aliases get
resolve_graph-ends edges =
    let g = graph_of edges in
    let closed =
      edges-IsClosed edges (record { adjacency = []; nodes = [] })
        (record { inside = λ u. tt; ordered = tt }) in
    let (a, e) =
      components-end g.nodes g.adjacency closed.inside (keys g.nodes) [] []
        (keys-contains g.nodes closed.ordered) in
    e ∙ ap some (sym (ap (λ (o : Option Aliases). elim o [ none ↦ [] | some b ↦ b ]) e))
