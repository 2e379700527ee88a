-- ===== src/Examples/Opening.antt =====
-- Runs of opening the application and of a commit.
use splittr.Prelude.{true, some, [], ◌∷◌, ◌≡◌, refl, arith, if◌then◌else◌}
use splittr.Prelude.Ord.{Bytes, same, bytes_ord, bytes_self, cmp_bytes}
use splittr.BTree.{contains_key, values}
use splittr.Crdt.Op.{Op, OpId, OpKind, signed, verify, canonical}
use splittr.Crdt.Materialize.{project}
use splittr.Crypto.Invite.{Accepts}
use splittr.Store.OpStore.{MemoryOpStore, memory_store}
use splittr.Store.Repository.Invariant.{IsReplica}
use splittr.App.Clock.{next, new_generator}
use splittr.App.Identity.{Identity, root_key, device_public}
use splittr.App.Commands.{App, commit_signed}
use splittr.App.Session.{new_app}
use splittr.App.Session.Commits.{
  CommitsAs, commit_signed-CommitsAs, OpensAs, new_app-OpensAs, certificate, stamped,
}
use splittr.Examples.Data.{alice, key, plain, found_group, holding, at_ms}
use splittr.Examples.Commands.{plain_seeds}

plain-Accepts : Accepts plain
plain-Accepts k text = ground (arith, bytes_self text)

-- The root key is there.
abbrev unlocked : Identity plain plain_seeds
unlocked = record {
  identity_pub = key;
  user_id = alice;
  device = key;
  root = some (record { root = key; agreement = key });
}

-- The author of an op, from its id.
abbrev author_in : OpId → Bytes
author_in [] = []
author_in (_ ∷ author) = author

-- The op that an id names: the group's, or the one of kind `kind` signed at 7 by its author.
abbrev named_by : OpKind → OpId → Op
named_by kind id =
    if same id found_group.id then found_group else signed plain (at_ms 7) (author_in id) kind

holding-IsReplica : (kind : OpKind) → IsReplica plain (named_by kind) (holding found_group)
unfolding verify canonical cmp_bytes
holding-IsReplica kind = record {
  sorted = (tt, tt);
  held = ((refl, record { named = refl; verified = refl }), tt);
  folded = refl;
  fresh = tt;
}

abbrev running : App plain plain_seeds MemoryOpStore
running = record { identity = unlocked; repo = holding found_group; clock = new_generator 1 }

abbrev revoking : OpKind
revoking = OpKind.revoke_device key key

revoking-named :
    (k : Bytes)
    → (if true then root_key plain plain_seeds unlocked else some unlocked.device) ≡ some k
    → named_by revoking (stamped plain plain_seeds (named_by revoking) 7 running k revoking).id
      ≡ stamped plain plain_seeds (named_by revoking) 7 running k revoking
unfolding signed canonical next new_generator cmp_bytes
revoking-named k _ = refl

commit_signed-CommitsAs_example :
    CommitsAs plain plain_seeds
      (named_by revoking)
      (if true then root_key plain plain_seeds unlocked else some unlocked.device)
      7
      running
      revoking
      (commit_signed plain plain_seeds MemoryOpStore 7 running revoking true)
commit_signed-CommitsAs_example =
    commit_signed-CommitsAs plain plain_seeds (named_by revoking) 7 running revoking true
      plain-Accepts (holding-IsReplica revoking) revoking-named

abbrev enrolling : OpKind
enrolling = OpKind.authorize_device key key 1

enrolling-named :
    (k : Bytes)
    → root_key plain plain_seeds unlocked ≡ some k
    → named_by enrolling (certificate plain plain_seeds (named_by enrolling) 7 unlocked 1 k).id
      ≡ certificate plain plain_seeds (named_by enrolling) 7 unlocked 1 k
unfolding signed canonical next new_generator cmp_bytes
enrolling-named k _ = refl

new_app-OpensAs_example :
    OpensAs plain plain_seeds
      (named_by enrolling)
      (contains_key
        (device_public plain plain_seeds unlocked)
        (project (values (holding found_group).store.held)).devices)
      (root_key plain plain_seeds unlocked)
      7
      unlocked
      (holding found_group)
      1
      (new_app plain plain_seeds MemoryOpStore 7 unlocked (holding found_group).store 1)
new_app-OpensAs_example =
    new_app-OpensAs plain plain_seeds (named_by enrolling) 7 unlocked (holding found_group) 1
      plain-Accepts (holding-IsReplica enrolling) enrolling-named
