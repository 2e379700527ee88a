-- ===== src/Crdt/Converge.antt =====
-- The read model is a function of the set of ops (materialize.rs, authorize.rs): replicas that hold
-- the same ops fold them to the same projection, in whatever order each has them.
use splittr.Prelude.{none, some, [], List, foldl, ◌≡◌, refl, sym, ap, ◌∙◌, arith}
use splittr.Prelude.Folds.{Apart, foldl-perm, foldl-perm_always}
use splittr.Crdt.Op.{Op}
use splittr.Domain.Ids.{UserId}
use splittr.Crdt.Authorize.Rules.{Membership, FriendDecls}
use splittr.Crdt.Authorize.{Authority, build}
use splittr.Crdt.Authorize.Certs.{Devices, collect_devices, devices_step}
use splittr.Crdt.Authorize.Alias.{Aliases, resolve_aliases, resolve_graph, alias_edges}
use splittr.Crdt.Authorize.Stages.{
  FounderPick, friend_step, founder_step, seed_founder, membership_step, bind_step, founders_of,
  no_bindings,
}
use splittr.Crdt.Authorize.Commute.{devices_step_comm, alias_edges-perm, graph_of-perm}
use splittr.Crdt.Authorize.Linear.{
  ClocksDiffer, ClocksDiffer-sym, friend_step_comm, founder_step_comm, sorted_changes,
  sorted_changes-perm,
}
use splittr.Crdt.Authorize.Bind.{bind_step_comm}
use splittr.Crdt.Materialize.{project, apply_entitled, assemble}
use splittr.Crdt.Materialize.Apply.{Folder, empty_folder}
use splittr.Crdt.Materialize.Commute.{apply_comm}
use mathlib.Core.List.{Permᴰ}

collect_devices-perm : {xs ys : List Op} → Permᴰ xs ys → collect_devices xs ≡ collect_devices ys
unfolding collect_devices
collect_devices-perm p = foldl-perm_always devices_step devices_step_comm p _

resolve_aliases-perm :
    {xs ys : List (UserId × UserId)} → Permᴰ xs ys → resolve_aliases xs ≡ resolve_aliases ys
unfolding resolve_aliases
resolve_aliases-perm p =
    ap (λ g. elim (resolve_graph g) [ none ↦ [] | some a ↦ a ]) (graph_of-perm p)

-- The build, as a function of what its first loops give.
from_stages : Devices → Aliases → FriendDecls → FounderPick → List Op → List Op → Authority
from_stages devices aliases decls pick changes ops =
    let membership = foldl (membership_step devices aliases) (foldl seed_founder [] pick) changes in
    record {
      devices = devices;
      aliases = aliases;
      founders = founders_of pick;
      membership = membership;
      bindings = foldl (bind_step devices aliases membership decls) no_bindings ops;
      friend_decls = decls;
    }

from_certs : Devices → Aliases → List Op → Authority
from_certs devices aliases ops =
    from_stages devices aliases (foldl (friend_step devices aliases) [] ops)
      (foldl (founder_step devices aliases) [] ops) (sorted_changes ops) ops

build_lem :
    (ops : List Op)
    → build ops
      ≡ from_certs
          (collect_devices ops)
          (resolve_aliases (alias_edges (collect_devices ops) ops))
          ops
unfolding build from_stages from_certs
build_lem ops = refl

-- What the stages of the build make of the ops, each as a function of what came before it.
module _ {xs ys : List Op} (p : Permᴰ xs ys) (apart : Apart ClocksDiffer xs) where
  bindings-perm :
      (devices : Devices) (aliases : Aliases) (decls : FriendDecls) (pick : FounderPick)
      (changes : List Op)
      → from_stages devices aliases decls pick changes xs
        ≡ from_stages devices aliases decls pick changes ys
  unfolding from_stages
  bindings-perm devices aliases decls pick changes =
      ap (λ b. record (from_stages devices aliases decls pick changes xs) { bindings = b })
        (foldl-perm ClocksDiffer ClocksDiffer-sym (bind_step devices aliases membership decls)
          (bind_step_comm devices aliases membership decls) p apart no_bindings)
    where
      membership : Membership
      membership = foldl (membership_step devices aliases) (foldl seed_founder [] pick) changes

  stages-perm :
      (devices : Devices) (aliases : Aliases)
      → from_certs devices aliases xs ≡ from_certs devices aliases ys
  unfolding from_certs
  stages-perm devices aliases =
      (λ i. from_stages devices aliases (friends i) (founder i) (sorted_changes-perm p apart i) xs)
      ∙ bindings-perm devices aliases _ _ _
    where
      friends :
          foldl (friend_step devices aliases) [] xs ≡ foldl (friend_step devices aliases) [] ys
      friends =
          foldl-perm_always (friend_step devices aliases) (friend_step_comm devices aliases) p []

      founder :
          foldl (founder_step devices aliases) [] xs ≡ foldl (founder_step devices aliases) [] ys
      founder =
          foldl-perm ClocksDiffer ClocksDiffer-sym (founder_step devices aliases)
            (founder_step_comm devices aliases) p apart []

  -- Two permutations of one set of ops, whose clocks are pairwise different, give the same
  -- authority: devices, aliases, founders, membership, bindings and friendships.
  pub build-perm : build xs ≡ build ys
  build-perm =
      build_lem xs
      ∙ ap (λ d. from_certs d (resolve_aliases (alias_edges d xs)) xs) (collect_devices-perm p)
      ∙ ap (λ a. from_certs (collect_devices ys) a xs)
          (resolve_aliases-perm (alias_edges-perm (collect_devices ys) p))
      ∙ stages-perm (collect_devices ys) _
      ∙ sym (build_lem ys)

apply_entitled_comm :
    (auth : Authority) (f : Folder) (a b : Op)
    → ClocksDiffer a b
    → apply_entitled auth (apply_entitled auth f a) b
      ≡ apply_entitled auth (apply_entitled auth f b) a
unfolding apply_entitled
apply_entitled_comm auth f a b ne = ground (arith, apply_comm f a b ne)

-- Two permutations of one set of ops, whose clocks are pairwise different, project to the same
-- read model.
pub project-perm : {xs ys : List Op} → Permᴰ xs ys → Apart ClocksDiffer xs → project xs ≡ project ys
unfolding project
project-perm {xs} {ys} p apart =
    ap (λ auth. assemble (foldl (apply_entitled auth) empty_folder xs) auth) (build-perm p apart)
    ∙ ap (λ f. assemble f (build ys))
        (foldl-perm ClocksDiffer ClocksDiffer-sym (apply_entitled (build ys))
          (apply_entitled_comm (build ys)) p apart empty_folder)
