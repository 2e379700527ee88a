-- ===== src/Examples/Log.antt =====
-- Runs of the log: the fold, the repository, a sync session and the clock.
use splittr.Prelude.{List, [], ◌∷◌, ◌≡◌, ◌≢◌, ap, refl, arith, ok, not, ◌&&◌}
use splittr.Prelude.Ord.{cmp_bytes, bytes_ord}
use splittr.Prelude.Folds.{Apart}
use splittr.BTree.{contains_key}
use splittr.Crdt.Clock.{Hlc}
use splittr.Crdt.Op.{Op, verify, canonical}
use splittr.Crdt.Authorize.{build}
use splittr.Crdt.Authorize.Linear.{ClocksDiffer}
use splittr.Crdt.Materialize.{project, projection, new_materializer, apply_all}
use splittr.Crdt.Materialize.Apply.{apply, empty_folder}
use splittr.Crdt.Materialize.Commute.{apply_comm}
use splittr.Crdt.Materialize.Arrival.{projection-arrival, IdNames}
use splittr.Crdt.Converge.{build-perm, project-perm}
use splittr.Store.OpStore.{MemoryOpStore, memory_store}
use splittr.Store.Repository.{Repository, read_projection, open_repository}
use splittr.Store.Repository.Invariant.{IsGenuine, IsReplica, Appends, append-Appends}
use splittr.Store.Repository.Read.{read_projection-project, open_repository-IsReplica}
use splittr.Sync.Reconcile.{missing_ops, repository_sync}
use splittr.Sync.Reconcile.Members.{is_in, ids, is_in-missing_ops}
use splittr.Sync.Reconcile.Exchange.{
  exchange, exchange_both_open, Converged, exchange-Converged, exchange_both_open-Converged,
}
use splittr.App.Clock.{HlcGenerator, stamps, Ascending, stamps-Ascending}
use splittr.Examples.Data.{plain, found_group, name_alice, first_or_second, holding}
use mathlib.Core.List.{Permᴰ}

clocks : found_group.hlc ≢ name_alice.hlc
clocks e = absurd (omega (arith, ap (λ (h : Hlc). h.wall_ms) e))

abbrev pair : List Op
pair = found_group ∷ name_alice ∷ []

pair-Apart : Apart ClocksDiffer pair
pair-Apart = ((clocks, tt), (tt, tt))

pair-swap : Permᴰ pair (name_alice ∷ found_group ∷ [])
pair-swap = Permᴰ.swap refl refl

project-perm_example : project pair ≡ project (name_alice ∷ found_group ∷ [])
project-perm_example = project-perm pair-swap pair-Apart

build-perm_example : build pair ≡ build (name_alice ∷ found_group ∷ [])
build-perm_example = build-perm pair-swap pair-Apart

apply_comm_example :
    apply (apply empty_folder found_group) name_alice
    ≡ apply (apply empty_folder name_alice) found_group
apply_comm_example = apply_comm empty_folder found_group name_alice clocks

other_ids : IdNames found_group name_alice
other_ids e = absurd (cc)

projection-arrival_example :
    projection (apply_all new_materializer pair)
    ≡ projection (apply_all new_materializer (name_alice ∷ found_group ∷ []))
projection-arrival_example =
    projection-arrival new_materializer pair-swap ((other_ids, tt), (tt, tt))

found_group-IsGenuine : IsGenuine plain first_or_second found_group
unfolding verify canonical cmp_bytes
found_group-IsGenuine = record { named = refl; verified = refl }

name_alice-IsGenuine : IsGenuine plain first_or_second name_alice
unfolding verify canonical cmp_bytes
name_alice-IsGenuine = record { named = refl; verified = refl }

pub first-IsReplica : IsReplica plain first_or_second (holding found_group)
first-IsReplica = record {
  sorted = (tt, tt);
  held = ((refl, found_group-IsGenuine), tt);
  folded = refl;
  fresh = tt;
}

pub second-IsReplica : IsReplica plain first_or_second (holding name_alice)
second-IsReplica = record {
  sorted = (tt, tt);
  held = ((refl, name_alice-IsGenuine), tt);
  folded = refl;
  fresh = tt;
}

append-Appends_example : Appends plain first_or_second (holding found_group) name_alice
append-Appends_example =
    append-Appends plain first_or_second (holding found_group) name_alice first-IsReplica
      (λ _. name_alice-IsGenuine.named)

-- A copy of the held op with another content under its id.
abbrev tampered : Op
tampered = record found_group { hlc = name_alice.hlc }

tampered_fails : verify plain tampered ≡ ok tt → first_or_second tampered.id ≡ tampered
unfolding verify canonical cmp_bytes
tampered_fails v = absurd (cc)

-- It is rejected, and the held op stays.
tampered_is_rejected : Appends plain first_or_second (holding found_group) tampered
tampered_is_rejected =
    append-Appends plain first_or_second (holding found_group) tampered first-IsReplica
      tampered_fails

read_projection-project_example :
    ((read_projection (holding found_group)).1 ≡ project (found_group ∷ []))
    × ((read_projection (holding found_group)).0.store ≡ (holding found_group).store)
    × IsReplica plain first_or_second (read_projection (holding found_group)).0
read_projection-project_example =
    read_projection-project plain first_or_second (holding found_group) first-IsReplica

open_repository-IsReplica_example :
    (r' : Repository MemoryOpStore) × (open_repository (holding found_group).store ≡ ok r')
    × (r'.store ≡ (holding found_group).store)
    × (r'.materializer ≡ (holding found_group).materializer)
    × IsReplica plain first_or_second r'
open_repository-IsReplica_example =
    open_repository-IsReplica plain first_or_second (holding found_group) first-IsReplica

is_in-missing_ops_example :
    is_in found_group.id
      (ids (missing_ops ⦃sync = repository_sync plain⦄ (holding found_group) (name_alice.id ∷ [])))
    ≡ contains_key found_group.id (holding found_group).store.held
      && not (is_in found_group.id (name_alice.id ∷ []))
is_in-missing_ops_example =
    is_in-missing_ops plain first_or_second (holding found_group) first-IsReplica found_group.id
      (name_alice.id ∷ [])

exchange-Converged_example :
    Converged plain first_or_second
      (holding found_group)
      (holding name_alice)
      (exchange ⦃sync = repository_sync plain⦄ (holding found_group) (holding name_alice))
exchange-Converged_example =
    exchange-Converged plain first_or_second (holding found_group) (holding name_alice)
      first-IsReplica second-IsReplica

exchange_both_open-Converged_example :
    Converged plain first_or_second
      (holding found_group)
      (holding name_alice)
      (exchange_both_open ⦃sync = repository_sync plain⦄ (holding found_group) (holding name_alice))
exchange_both_open-Converged_example =
    exchange_both_open-Converged plain first_or_second (holding found_group) (holding name_alice)
      first-IsReplica second-IsReplica

abbrev fresh_clock : HlcGenerator
fresh_clock = record { site = 1; last = record { wall_ms = 0; counter = 0; site = 1 } }

-- The wall clock jumps back.
stamps-Ascending_example : Ascending fresh_clock.last (stamps fresh_clock (5 ∷ 3 ∷ 3 ∷ 9 ∷ []))
stamps-Ascending_example = stamps-Ascending (5 ∷ 3 ∷ 3 ∷ 9 ∷ []) fresh_clock (omega arith)
