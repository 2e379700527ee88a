-- ===== src/Examples/Resigned.antt =====
-- Runs with two valid signatures of one content.
use splittr.Prelude.{true, [], ◌≡◌, ◌≢◌, some, refl, ap, ok}
use splittr.Prelude.Ord.{cmp_bytes, bytes_ord}
use splittr.BTree.{get}
use splittr.Crdt.Op.{Op, OpId, Crypto, verify, canonical}
use splittr.Store.Repository.Invariant.{IsReplica}
use splittr.Store.Repository.Resigned.{Parts, append-Parts}
use splittr.Examples.Data.{plain, found_group, holding}

-- Every signature is valid.
abbrev lax : Crypto
lax = record plain { check = λ k m s. true }

abbrev resigned : Op
resigned = record found_group { sig = [] }

abbrev only_group : OpId → Op
only_group id = found_group

held-IsReplica : IsReplica lax only_group (holding found_group)
unfolding verify canonical cmp_bytes
held-IsReplica = record {
  sorted = (tt, tt);
  held = ((refl, record { named = refl; verified = refl }), tt);
  folded = refl;
  fresh = tt;
}

resigned-verifies : verify lax resigned ≡ ok tt
unfolding verify canonical cmp_bytes
resigned-verifies = refl

group-held : get resigned.id (holding found_group).store.held ≡ some found_group
unfolding get cmp_bytes
group-held = refl

another : resigned ≢ found_group
another e = absurd (cc (ap (λ (o : Op). o.sig) e))

append-Parts_example : Parts lax only_group (holding found_group) resigned found_group
append-Parts_example =
    append-Parts lax only_group (holding found_group) resigned found_group held-IsReplica
      resigned-verifies group-held another
