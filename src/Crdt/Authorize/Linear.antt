-- ===== src/Crdt/Authorize/Linear.antt =====
-- The later loops of `Authority::build` (authorize.rs): friendships, founders, the order of the
-- membership changes, and the bindings of expenses and settlements.
use splittr.Prelude.{
  Option, none, some, [], ◌∷◌, List, ◌≡◌, ◌≢◌, refl, sym, ap, arith, if◌then◌else◌, Bool-cases, inl,
  inr,
}
use splittr.Prelude.Ord.{Ord, dual, nat_ord, bytes_ord, pair_ord}
use splittr.Prelude.Lists.{insert_by, sort_by}
use splittr.Prelude.Folds.{Apart, foldr-perm}
use splittr.BTree.{insert_unless, set_insert, update_entry}
use splittr.BTree.Commute.{insert_greatest_comm, set_insert_comm, update_entry_comm}
use splittr.Domain.Ids.{UserId, GroupId}
use splittr.Crdt.Clock.{hlc_ord}
use splittr.Crdt.Op.{Op, Order, order_of}
use splittr.Crdt.Authorize.Certs.{Devices}
use splittr.Crdt.Authorize.Alias.{Aliases}
use splittr.Crdt.Authorize.Rules.{FriendDecls, actor_of}
use splittr.Crdt.Authorize.Stages.{
  FounderPick, friend_step, friend_decl, founder_step, created, is_earlier, by_order,
  membership_ops, is_set_membership,
}
use mathlib.Core.List.{Permᴰ}
use Prim.Native.Nat.Ordering.{eq}

module _ (devices : Devices) (aliases : Aliases) where
  declare : Option (UserId × UserId) → FriendDecls → FriendDecls
  declare none decls = decls
  declare (some (a, b)) decls = update_entry a [] (set_insert b) decls

  declare_comm :
      (x y : Option (UserId × UserId)) (decls : FriendDecls)
      → declare y (declare x decls) ≡ declare x (declare y decls)
  unfolding declare
  declare_comm none y decls = refl
  declare_comm (some x) none decls = refl
  declare_comm (some (a, b)) (some (c, d)) decls =
      update_entry_comm c a [] (set_insert d) (set_insert b) decls (λ v. set_insert_comm d b v)

  friend_law :
      (decls : FriendDecls) (op : Op)
      → friend_step devices aliases decls op
        ≡ declare (friend_decl devices aliases op.kind op) decls
  unfolding friend_step declare
  friend_law decls op = ground arith

  pub friend_step_comm :
      (decls : FriendDecls) (a b : Op)
      → friend_step devices aliases (friend_step devices aliases decls a) b
        ≡ friend_step devices aliases (friend_step devices aliases decls b) a
  friend_step_comm decls a b = simp (friend_law) (declare_comm _ _ decls)

  pick : Option GroupId → Order × UserId → FounderPick → FounderPick
  pick none v m = m
  pick (some g) v m = insert_unless is_earlier g v m

  pick_comm :
      (g h : Option GroupId) (v w : Order × UserId) (m : FounderPick)
      → v.0 ≢ w.0
      → pick h w (pick g v m) ≡ pick g v (pick h w m)
  unfolding pick
  pick_comm none h v w m ne = refl
  pick_comm (some g) none v w m ne = refl
  pick_comm (some g) (some h) v w m ne =
      insert_greatest_comm ⦃r = dual pair_ord⦄ (λ (x : Order × UserId). x.0) g h v w m
        (λ _ e. absurd (ne (sym (pair_ord.eq_of_cmp w.0 v.0 e))))

  founder_law :
      (m : FounderPick) (op : Op)
      → founder_step devices aliases m op
        ≡ pick (created devices aliases op.kind op) (order_of op, actor_of devices aliases op) m
  unfolding founder_step pick
  founder_law m op = ground arith

  pub founder_step_comm :
      (m : FounderPick) (a b : Op)
      → a.hlc ≢ b.hlc
      → founder_step devices aliases (founder_step devices aliases m a) b
        ≡ founder_step devices aliases (founder_step devices aliases m b) a
  founder_step_comm m a b ne =
      simp (founder_law) (pick_comm _ _ _ _ m (λ e. ne (ap (λ (o : Order). o.0) e)))

module _ {A K : Type 0} ⦃r : Ord K⦄ (rank : A → K) where
  insert_by_comm :
      (a b : A) (l : List A)
      → r.cmp (rank a) (rank b) ≢ eq
      → insert_by
          (λ x y. r.cmp (rank x) (rank y))
          a
          (insert_by (λ x y. r.cmp (rank x) (rank y)) b l)
        ≡ insert_by
            (λ x y. r.cmp (rank x) (rank y))
            b
            (insert_by (λ x y. r.cmp (rank x) (rank y)) a l)
  unfolding insert_by
  insert_by_comm a b [] ne = ground (arith, r.cmp_flip (rank a) (rank b))
  insert_by_comm a b (x ∷ l) ne = ground (
    arith,
    insert_by_comm a b l ne,
    r.cmp_flip (rank a) (rank b),
    r.cmp_flip (rank a) (rank x),
    r.cmp_flip (rank b) (rank x),
    r.lt_trans (rank a) (rank x) (rank b),
    r.lt_trans (rank b) (rank x) (rank a),
    r.lt_trans (rank a) (rank b) (rank x),
    r.lt_trans (rank b) (rank a) (rank x),
    r.eq_of_cmp (rank a) (rank x),
    r.eq_of_cmp (rank b) (rank x),
  )

-- Two ops have different clocks.
abbrev pub ClocksDiffer : Op → Op → Type 0
ClocksDiffer a b = a.hlc ≢ b.hlc

pub ClocksDiffer-sym : (a b : Op) → ClocksDiffer a b → ClocksDiffer b a
ClocksDiffer-sym a b ne e = ne (sym e)

abbrev pub sorted_changes : List Op → List Op
sorted_changes ops = sort_by by_order (membership_ops ops)

place : Op → List Op → List Op
place op l = if is_set_membership op.kind then insert_by by_order op l else l

sorted_changes_law :
    (op : Op) (ops : List Op) → sorted_changes (op ∷ ops) ≡ place op (sorted_changes ops)
unfolding place membership_ops sort_by
sorted_changes_law op ops = elim (Bool-cases (is_set_membership op.kind)) [
  | inl yes_it_is ↦ rw (yes_it_is, sort_by)
  | inr other ↦ rw (other, sort_by)
]

place_comm : (l : List Op) (a b : Op) → ClocksDiffer a b → place a (place b l) ≡ place b (place a l)
unfolding place
place_comm l a b ne = ground (
  arith,
  insert_by_comm order_of a b l
      (λ e. ne (ap (λ (o : Order). o.0) (pair_ord.eq_of_cmp (order_of a) (order_of b) e))),
)

-- Sorted, the membership changes are one list for every order of the ops.
pub sorted_changes-perm :
    {xs ys : List Op} → Permᴰ xs ys → Apart ClocksDiffer xs → sorted_changes xs ≡ sorted_changes ys
sorted_changes-perm =
    foldr-perm ClocksDiffer ClocksDiffer-sym place place_comm sorted_changes sorted_changes_law
