-- ===== src/Crdt/Authorize/Alias.antt =====
-- splittr-crdt/src/authorize.rs: which aliases count, and the canonical id of each user.
pub mod Work
pub mod Search
use splittr.Prelude.{
  ℕ, zero, suc, Bool, Option, none, some, [], ◌∷◌, List, foldl, if◌then◌else◌, ◌||◌, ◌&&◌, ◌++◌,
  ◌>>=◌,
}
use splittr.Prelude.Ord.{same, less, bytes_ord}
use splittr.Prelude.Lists.{length}
use splittr.BTree.{BTreeMap, BTreeSet, get_or, insert, contains, keys, set_insert, update_entry}
use splittr.Domain.Ids.{UserId}
use splittr.Crdt.Identity.{user_id_for, is_placeholder}
use splittr.Crdt.Op.{Op, OpKind, add_alias}
use splittr.Crdt.Authorize.Certs.{Devices, identity_of, revoked_at}

-- user id → canonical id
abbrev pub Aliases : Type 0
Aliases = BTreeMap UserId UserId

unfoldable pub alias_authorized : UserId → UserId → UserId → Bool
alias_authorized raw_actor alias canonical =
    same raw_actor alias
    || same raw_actor canonical
    || is_placeholder alias && is_placeholder canonical

-- Stage 1: the edge that an op adds, if any.
alias_of_kind : OpKind → Devices → Op → Option (UserId × UserId)
alias_of_kind (add_alias alias canonical) devices op =
    if revoked_at devices op
    then none
    else if alias_authorized (user_id_for (identity_of devices op.author)) alias canonical
    then some (alias, canonical)
    else none
alias_of_kind _ devices op = none

unfoldable pub alias_edge : Devices → Op → Option (UserId × UserId)
unfolding alias_of_kind
alias_edge devices op = alias_of_kind op.kind devices op

unfoldable pub alias_edges : Devices → List Op → List (UserId × UserId)
alias_edges devices [] = []
alias_edges devices (op ∷ ops) = elim (alias_edge devices op) [
  | none ↦ alias_edges devices ops
  | some e ↦ e ∷ alias_edges devices ops
]

pub record Graph : Type 0 where
  pub adjacency : BTreeMap UserId (BTreeSet UserId)
  pub nodes : BTreeSet UserId

-- The first loop of `resolve_aliases`.
unfoldable pub add_edge : Graph → UserId × UserId → Graph
add_edge g (a, b) = record {
  adjacency = update_entry b [] (set_insert a) (update_entry a [] (set_insert b) g.adjacency);
  nodes = set_insert b (set_insert a g.nodes);
}

-- `if visited.insert(v) { stack.push(v) }` for each neighbour; the stack has its top first.
unfoldable pub push_unvisited :
    List UserId → BTreeSet UserId → List UserId → BTreeSet UserId × List UserId
push_unvisited [] visited stack = (visited, stack)
push_unvisited (v ∷ vs) visited stack =
    let old = contains v visited in
    push_unvisited vs (if old then visited else set_insert v visited)
      (if old then stack else v ∷ stack)

abbrev pub neighbours : BTreeMap UserId (BTreeSet UserId) → UserId → List UserId
neighbours adjacency u = keys (get_or u [] adjacency)

-- The `while let`, on what is visited, the stack and the component so far. A round takes one node
-- from the stack, and each node is put there once. `none` means that the fuel ran out.
unfoldable pub search :
    ℕ
    → BTreeMap UserId (BTreeSet UserId)
    → BTreeSet UserId
    → List UserId
    → List UserId
    → Option (BTreeSet UserId × List UserId)
search fuel adjacency visited [] component = some (visited, component)
search zero adjacency visited (u ∷ stack) component = none
search (suc fuel) adjacency visited (u ∷ stack) component =
    let (visited', stack') = push_unvisited (neighbours adjacency u) visited stack in
    search fuel adjacency visited' stack' (component ++ u ∷ [])

-- `component.iter().min()`, of a first element and the others.
abbrev pub least : UserId → List UserId → UserId
least u [] = u
least u (v ∷ vs) = least (if less v u then v else u) vs

-- `if u != canon { canonical.insert(u, canon) }` for each node of a component.
unfoldable pub redirect : UserId → List UserId → Aliases → Aliases
redirect canon [] canonical = canonical
redirect canon (u ∷ us) canonical =
    redirect canon us (if same u canon then canonical else insert u canon canonical)

abbrev pub record_component : List UserId → Aliases → Aliases
record_component [] canonical = canonical
record_component (u ∷ us) canonical = redirect (least u us) (u ∷ us) canonical

-- The loop over the nodes.
unfoldable pub components :
    ℕ → BTreeMap UserId (BTreeSet UserId) → List UserId → BTreeSet UserId → Aliases → Option Aliases
components fuel adjacency [] visited canonical = some canonical
components fuel adjacency (start ∷ starts) visited canonical =
    if contains start visited
    then components fuel adjacency starts visited canonical
    else (search fuel adjacency (set_insert start visited) (start ∷ []) [] >>= λ found.
        components fuel adjacency starts found.0 (record_component found.1 canonical))

abbrev pub graph_of : List (UserId × UserId) → Graph
graph_of edges = foldl add_edge (record { adjacency = []; nodes = [] }) edges

unfoldable pub resolve_graph : Graph → Option Aliases
resolve_graph g = components (length g.nodes) g.adjacency (keys g.nodes) [] []

-- `resolve_aliases`; the case of no fuel left does not arise.
unfoldable pub resolve_aliases : List (UserId × UserId) → Aliases
resolve_aliases edges = elim (resolve_graph (graph_of edges)) [ none ↦ [] | some a ↦ a ]

-- `Authority::resolve`
abbrev pub resolve : Aliases → UserId → UserId
resolve aliases user = get_or user user aliases
