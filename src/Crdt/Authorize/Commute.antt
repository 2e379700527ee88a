-- ===== src/Crdt/Authorize/Commute.antt =====
-- The loops of `Authority::build` (authorize.rs) do not see the order of the ops, as long as two
-- ops have different clocks.
use splittr.Prelude.{
  Option, none, some, [], ◌∷◌, List, ◌≡◌, refl, sym, ap, ◌∙◌, arith, if◌then◌else◌,
}
use splittr.Prelude.Ord.{Ord, Bytes, same, dual, nat_ord, bytes_ord, pair_ord}
use splittr.Prelude.Folds.{foldl-perm_always}
use splittr.BTree.{BTreeMap, BTreeSet, insert_unless, set_insert, update_entry}
use splittr.BTree.Commute.{outranks, insert_greatest_comm, set_insert_comm, update_entry_comm}
use splittr.Domain.Ids.{UserId}
use splittr.Crdt.Clock.{Hlc, hlc_ord}
use splittr.Crdt.Op.{Op, OpKind, authorize_device, revoke_device}
use splittr.Crdt.Authorize.Certs.{Devices, Certificate, cert_rank, devices_step, devices_kind}
use splittr.Crdt.Authorize.Alias.{Graph, add_edge, graph_of, alias_edge, alias_edges}
use mathlib.Core.List
use mathlib.Core.List.{Permᴰ}
use mathlib.Core.Path.{subst, subst₂}

-- What an op writes among the certificates and among the revocations.
certified : OpKind → Op → Option (Bytes × Certificate)
certified (authorize_device identity device site) op =
    if same op.author identity
    then some (device, record { hlc = op.hlc; identity = identity; site = site })
    else none
certified _ op = none

revokes : OpKind → Op → Option (Bytes × Hlc)
revokes (revoke_device identity device) op =
    if same op.author identity then some (device, op.hlc) else none
revokes _ op = none

-- A write that keeps the greatest value by a rank that tells values apart.
module _ {V R : Type 0} ⦃r : Ord R⦄ (rank : V → R)
    (rank_injective : (s t : V) → rank s ≡ rank t → s ≡ t) where
  keep_greatest : Option (Bytes × V) → BTreeMap Bytes V → BTreeMap Bytes V
  keep_greatest none m = m
  keep_greatest (some (k, v)) m = insert_unless (outranks rank) k v m

  keep_greatest_comm :
      (v w : Option (Bytes × V)) (m : BTreeMap Bytes V)
      → keep_greatest w (keep_greatest v m) ≡ keep_greatest v (keep_greatest w m)
  unfolding keep_greatest
  keep_greatest_comm none w m = refl
  keep_greatest_comm (some v) none m = refl
  keep_greatest_comm (some (j, v)) (some (k, w)) m =
      insert_greatest_comm rank j k v w m
        (λ _ e. rank_injective v w (r.eq_of_cmp (rank v) (rank w) e))

cert_rank_injective : (s t : Certificate) → cert_rank s ≡ cert_rank t → s ≡ t
cert_rank_injective s t e = ground arith

put_cert : Option (Bytes × Certificate) → BTreeMap Bytes Certificate → BTreeMap Bytes Certificate
put_cert = keep_greatest cert_rank cert_rank_injective

put_revoked : Option (Bytes × Hlc) → BTreeMap Bytes Hlc → BTreeMap Bytes Hlc
put_revoked = keep_greatest ⦃r = dual hlc_ord⦄ (λ h. h) (λ s t e. e)

authorized_law :
    (d : Devices) (op : Op)
    → (devices_step d op).authorized ≡ put_cert (certified op.kind op) d.authorized
unfolding devices_step put_cert keep_greatest certified
authorized_law d op = on_kind op.kind
  where
    on_kind :
        (k : OpKind) → (devices_kind k op d).authorized ≡ put_cert (certified k op) d.authorized
    on_kind (authorize_device identity device site) = ground arith
    on_kind (revoke_device identity device) = ground arith
    on_kind _ = refl

revoked_law :
    (d : Devices) (op : Op)
    → (devices_step d op).revoked ≡ put_revoked (revokes op.kind op) d.revoked
unfolding devices_step put_revoked keep_greatest revokes
revoked_law d op = on_kind op.kind
  where
    on_kind : (k : OpKind) → (devices_kind k op d).revoked ≡ put_revoked (revokes k op) d.revoked
    on_kind (authorize_device identity device site) = ground arith
    on_kind (revoke_device identity device) = ground arith
    on_kind _ = refl

pub devices_step_comm :
    (d : Devices) (a b : Op) → devices_step (devices_step d a) b ≡ devices_step (devices_step d b) a
unfolding put_cert put_revoked
devices_step_comm d a b = λ i. record { authorized = certs i; revoked = revocations i }
  where
    certs :
        (devices_step (devices_step d a) b).authorized
        ≡ (devices_step (devices_step d b) a).authorized
    certs =
        authorized_law (devices_step d a) b
        ∙ ap (put_cert (certified b.kind b)) (authorized_law d a)
        ∙ keep_greatest_comm cert_rank cert_rank_injective (certified a.kind a) (certified b.kind b)
            d.authorized
        ∙ sym (
            authorized_law (devices_step d b) a
            ∙ ap (put_cert (certified a.kind a)) (authorized_law d b))

    revocations :
        (devices_step (devices_step d a) b).revoked ≡ (devices_step (devices_step d b) a).revoked
    revocations =
        revoked_law (devices_step d a) b
        ∙ ap (put_revoked (revokes b.kind b)) (revoked_law d a)
        ∙ keep_greatest_comm ⦃r = dual hlc_ord⦄ (λ h. h) (λ s t e. e) (revokes a.kind a)
            (revokes b.kind b) d.revoked
        ∙ sym (
            revoked_law (devices_step d b) a
            ∙ ap (put_revoked (revokes a.kind a)) (revoked_law d b))

pub add_edge_comm :
    (g : Graph) (a b : UserId × UserId) → add_edge (add_edge g a) b ≡ add_edge (add_edge g b) a
unfolding add_edge
add_edge_comm g (p, q) (r, s) = λ i. record { adjacency = adjacent i; nodes = noded i }
  where
    link : UserId → UserId → BTreeMap UserId (BTreeSet UserId) → BTreeMap UserId (BTreeSet UserId)
    link a b m = update_entry a [] (set_insert b) m

    link_comm :
        (a b c d : UserId) (m : BTreeMap UserId (BTreeSet UserId))
        → link a b (link c d m) ≡ link c d (link a b m)
    link_comm a b c d m =
        update_entry_comm a c [] (set_insert b) (set_insert d) m (λ v. set_insert_comm b d v)

    adjacent :
        link s r (link r s (link q p (link p q g.adjacency)))
        ≡ link q p (link p q (link s r (link r s g.adjacency)))
    adjacent =
        ap (link s r) (link_comm r s q p (link p q g.adjacency))
        ∙ link_comm s r q p (link r s (link p q g.adjacency))
        ∙ ap (λ m. link q p (link s r m)) (link_comm r s p q g.adjacency)
        ∙ ap (link q p) (link_comm s r p q (link r s g.adjacency))

    noded :
        set_insert s (set_insert r (set_insert q (set_insert p g.nodes)))
        ≡ set_insert q (set_insert p (set_insert s (set_insert r g.nodes)))
    noded =
        ap (set_insert s) (set_insert_comm r q (set_insert p g.nodes))
        ∙ set_insert_comm s q (set_insert r (set_insert p g.nodes))
        ∙ ap (λ m. set_insert q (set_insert s m)) (set_insert_comm r p g.nodes)
        ∙ ap (set_insert q) (set_insert_comm s p (set_insert r g.nodes))

module _ (devices : Devices) where
  keep_edge : Option (UserId × UserId) → List (UserId × UserId) → List (UserId × UserId)
  keep_edge none es = es
  keep_edge (some e) es = e ∷ es

  alias_edges_law :
      (op : Op) (ops : List Op)
      → alias_edges devices (op ∷ ops) ≡ keep_edge (alias_edge devices op) (alias_edges devices ops)
  unfolding alias_edges keep_edge
  alias_edges_law op ops = ground arith

  keep_edge-perm :
      (e : Option (UserId × UserId)) {xs ys : List (UserId × UserId)}
      → Permᴰ xs ys
      → Permᴰ (keep_edge e xs) (keep_edge e ys)
  unfolding keep_edge
  keep_edge-perm none p = p
  keep_edge-perm (some e) p = Permᴰ.cons refl p

  keep_edge-swap :
      (d e : Option (UserId × UserId)) (xs : List (UserId × UserId))
      → Permᴰ (keep_edge d (keep_edge e xs)) (keep_edge e (keep_edge d xs))
  unfolding keep_edge
  keep_edge-swap none e xs = keep_edge-perm e (List.Permᴰ.refl xs)
  keep_edge-swap (some d) none xs = List.Permᴰ.refl (d ∷ xs)
  keep_edge-swap (some d) (some e) xs = Permᴰ.swap refl refl

  pub alias_edges-perm :
      {xs ys : List Op} → Permᴰ xs ys → Permᴰ (alias_edges devices xs) (alias_edges devices ys)
  alias_edges-perm Permᴰ.nil = List.Permᴰ.refl _
  alias_edges-perm (Permᴰ.cons {a} {l₁ = xs} {l₂ = ys} e p) =
      subst (λ b. Permᴰ (alias_edges devices (a ∷ xs)) (alias_edges devices (b ∷ ys))) e
        (rw (alias_edges_law a xs, alias_edges_law a ys)
          (keep_edge-perm (alias_edge devices a) (alias_edges-perm p)))
  alias_edges-perm (Permᴰ.swap {a} {b} {l} e d) =
      subst₂ (λ x y. Permᴰ (alias_edges devices (a ∷ b ∷ l)) (alias_edges devices (x ∷ y ∷ l))) d e
        (rw
          (
            alias_edges_law a (b ∷ l),
            alias_edges_law b (a ∷ l),
            alias_edges_law a l,
            alias_edges_law b l,
          )
          (keep_edge-swap (alias_edge devices a) (alias_edge devices b) (alias_edges devices l)))
  alias_edges-perm (Permᴰ.trans p q) = Permᴰ.trans (alias_edges-perm p) (alias_edges-perm q)

-- The graph of aliases is the same for every order of the edges.
pub graph_of-perm : {xs ys : List (UserId × UserId)} → Permᴰ xs ys → graph_of xs ≡ graph_of ys
graph_of-perm p = foldl-perm_always add_edge add_edge_comm p _
