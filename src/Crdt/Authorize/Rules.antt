-- ===== src/Crdt/Authorize/Rules.antt =====
-- splittr-crdt/src/authorize.rs: the actor of an op, membership as of an order, and friendship.
use splittr.Prelude.{
  Bool, false, Option, none, some, [], ◌∷◌, List, foldl, if◌then◌else◌, ◌||◌, ◌&&◌,
}
use splittr.Prelude.Ord.{same, at_most, bytes_ord, pair_ord}
use splittr.Prelude.Lists.{all_of}
use splittr.BTree.{BTreeMap, BTreeSet, get_or, keys, contains, set_insert, update_entry}
use splittr.Domain.Ids.{UserId, GroupId}
use splittr.Domain.Split.{Split}
use splittr.Domain.Expense.{ExpenseFields}
use splittr.Crdt.Clock.{hlc_ord}
use splittr.Crdt.Identity.{user_id_for, is_placeholder}
use splittr.Crdt.Op.{Op, Order}
use splittr.Crdt.Authorize.Certs.{Devices, identity_of}
use splittr.Crdt.Authorize.Alias.{Aliases, resolve}

-- group → user → the user's membership events in order
abbrev pub Membership : Type 0
Membership = BTreeMap GroupId (BTreeMap UserId (List (Order × Bool)))

abbrev pub FriendDecls : Type 0
FriendDecls = BTreeMap UserId (BTreeSet UserId)

-- `Authority::actor`
unfoldable pub actor_of : Devices → Aliases → Op → UserId
actor_of devices aliases op = resolve aliases (user_id_for (identity_of devices op.author))

-- `friend_decls.get(a).is_some_and(|s| s.contains(b))`
abbrev pub declared : FriendDecls → UserId → UserId → Bool
declared decls a b = contains b (get_or a [] decls)

unfoldable pub is_friend : FriendDecls → UserId → UserId → Bool
is_friend decls a b = declared decls a b && declared decls b a

unfoldable pub friend_op_ok : FriendDecls → UserId → BTreeSet UserId → Bool
unfolding is_friend
friend_op_ok decls actor parties =
    contains actor parties
    && all_of (λ p. same p actor || is_placeholder p || is_friend decls actor p) (keys parties)

-- `Authority::confirmed_friends`: the loop over what `a` declared, and the loop over `a`.
confirm : FriendDecls → UserId → FriendDecls → UserId → FriendDecls
confirm decls a out b = if is_friend decls a b then update_entry a [] (set_insert b) out else out

confirm_all : FriendDecls → FriendDecls → UserId × BTreeSet UserId → FriendDecls
unfolding confirm
confirm_all decls out (a, others) = foldl (confirm decls a) out (keys others)

unfoldable pub confirmed_friends : FriendDecls → FriendDecls
unfolding confirm_all
confirmed_friends decls = foldl (confirm_all decls) [] decls

-- `events.iter().rev().find(|(o, _)| *o <= at).map(|(_, m)| *m)`
unfoldable pub latest : Order → List (Order × Bool) → Option Bool
latest at [] = none
latest at ((o, m) ∷ events) = elim (latest at events) [
  | some later ↦ some later
  | none ↦ if at_most o at then some m else none
]

abbrev pub events_of : Membership → GroupId → UserId → List (Order × Bool)
events_of membership group user = get_or user [] (get_or group [] membership)

unfoldable pub is_member_as_of : Membership → GroupId → UserId → Order → Bool
is_member_as_of membership group user at = elim (latest at (events_of membership group user)) [
  | none ↦ false
  | some m ↦ m
]

-- `ev.last().is_some_and(|(_, is)| *is)`
abbrev pub last_is_member : List (Order × Bool) → Bool
last_is_member [] = false
last_is_member ((_, is) ∷ []) = is
last_is_member (_ ∷ e ∷ events) = last_is_member (e ∷ events)

current_in : BTreeMap UserId (List (Order × Bool)) → BTreeSet UserId
current_in [] = []
current_in ((u, events) ∷ m) =
    if last_is_member events then (u, tt) ∷ current_in m else current_in m

unfoldable pub current_members : Membership → GroupId → BTreeSet UserId
unfolding current_in
current_members membership group = current_in (get_or group [] membership)

-- The payers, then the users of the splits.
abbrev add_party : Aliases → BTreeSet UserId → UserId → BTreeSet UserId
add_party aliases set u = set_insert (resolve aliases u) set

abbrev add_split_party : Aliases → BTreeSet UserId → Split → BTreeSet UserId
add_split_party aliases set s = set_insert (resolve aliases s.user) set

unfoldable pub parties_of : Aliases → ExpenseFields → BTreeSet UserId
parties_of aliases fields =
    foldl (add_split_party aliases) (foldl (add_party aliases) [] (keys fields.paid_by))
      fields.splits

-- `[a, b].into()`
abbrev pub pair_of : UserId → UserId → BTreeSet UserId
pair_of a b = set_insert b (set_insert a [])
