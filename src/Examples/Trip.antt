-- ===== src/Examples/Trip.antt =====
-- Runs on a group with an expense and a settlement, and on the alias graph.
use splittr.Prelude.{◌<◌, ◌^◌, true, false, some, [], ◌∷◌, ◌≡◌, refl, arith, List}
use splittr.Prelude.Int.{pos, neg_ℤ}
use splittr.Prelude.Ord.{bytes_ord, cmp_bytes}
use splittr.Prelude.Text.{utf8}
use splittr.BTree.{get, get_or}
use splittr.Domain.Ids.{UserId, GroupId}
use splittr.Crdt.Authorize.Alias.{resolve, resolve_graph, resolve_aliases, graph_of}
use splittr.Crdt.Authorize.Alias.Search.{resolve_graph-ends}
use splittr.Crdt.Projection.{Projection, for_group}
use splittr.Crdt.Balance.{Net, net_balances, my_net_by_group}
use splittr.Crdt.Balance.Posting.{volume}
use splittr.Crdt.Balance.Exact.{postings}
use splittr.Crdt.Balance.ByGroup.Parts.{IsBetween}
use splittr.Crdt.Balance.ByGroup.Scoped.{my_net_by_group-agrees}
use splittr.Examples.Data.{alice, bob, dinner}

abbrev pub trip : GroupId
trip = utf8 "g"

abbrev pub travelling : Projection
travelling = record {
  groups =
      (
        trip,
        record {
          name = utf8 "Trip";
          currency = utf8 "EUR";
          members = (alice, tt) ∷ (bob, tt) ∷ [];
          closed_until_ms = pos 0;
        },
      )
      ∷ [];
  users = [];
  expenses =
      (utf8 "d", record { group = some trip; fields = dinner; locked = false; published = true })
      ∷ [];
  settlements =
      (utf8 "s", record { group = some trip; from = bob; to = alice; amount = pos 200 }) ∷ [];
  aliases = [];
  devices = [];
  friends = [];
}

travelling-small : volume (postings travelling) < 2 ^ 63
unfolding get neg_ℤ
travelling-small = omega arith

bob_to_alice :
    IsBetween travelling.aliases
      (resolve travelling.aliases alice)
      (record { group = some trip; from = bob; to = alice; amount = pos 200 })
unfolding get cmp_bytes
bob_to_alice = refl

my_net_by_group-agrees_example :
    (nets : Net) × (my_net_by_group travelling alice ≡ some nets)
    × ((group : GroupId)
        → (net : Net) × (net_balances (for_group travelling group) ≡ some net)
          × (get_or group (pos 0) nets ≡ get_or (resolve travelling.aliases alice) (pos 0) net))
my_net_by_group-agrees_example =
    my_net_by_group-agrees travelling alice travelling-small (bob_to_alice, tt)

abbrev merged : List (UserId × UserId)
merged = (alice, bob) ∷ (bob, utf8 "c") ∷ []

resolve_graph-ends_example : resolve_graph (graph_of merged) ≡ some (resolve_aliases merged)
resolve_graph-ends_example = resolve_graph-ends merged
