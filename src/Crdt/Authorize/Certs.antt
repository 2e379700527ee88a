-- ===== src/Crdt/Authorize/Certs.antt =====
-- splittr-crdt/src/authorize.rs: device certificates and revocations.
use splittr.Prelude.{ℕ, Bool, false, Option, none, some, [], ◌∷◌, List, foldl, if◌then◌else◌}
use splittr.Prelude.Ord.{same, at_most, bytes_ord, pair_ord, nat_ord}
use splittr.BTree.{BTreeMap, get, contains_key, insert_unless}
use splittr.BTree.Commute.{outranks}
use splittr.Crdt.Clock.{Hlc, hlc_ord}
use splittr.Crdt.Identity.{PublicKey}
use splittr.Crdt.Op.{Op, OpKind, authorize_device, revoke_device}
use splittr.Crdt.Projection.{DeviceRecord}

-- The winning authorization of a device.
pub record Certificate : Type 0 where
  pub hlc : Hlc
  pub identity : PublicKey
  pub site : ℕ

-- Certificates compare as tuples.
abbrev pub cert_rank : Certificate → Hlc × (PublicKey × ℕ)
cert_rank c = (c.hlc, (c.identity, c.site))

pub record Devices : Type 0 where
  pub authorized : BTreeMap PublicKey Certificate
  pub revoked : BTreeMap PublicKey Hlc

abbrev identity_or : PublicKey → Option Certificate → PublicKey
identity_or author none = author
identity_or author (some c) = c.identity

unfoldable pub identity_of : Devices → PublicKey → PublicKey
identity_of d author = identity_or author (get author d.authorized)

abbrev revoked_since : Option Hlc → Hlc → Bool
revoked_since none hlc = false
revoked_since (some rh) hlc = at_most rh hlc

unfoldable pub revoked_at : Devices → Op → Bool
revoked_at d op = revoked_since (get op.author d.revoked) op.hlc

-- The body of the loop: only what the identity itself signed is honoured. The earliest revocation
-- of a device stands.
unfoldable pub devices_kind : OpKind → Op → Devices → Devices
devices_kind (authorize_device identity device site) op d =
    if same op.author identity
    then record d {
      authorized =
          insert_unless (outranks cert_rank) device
            (record { hlc = op.hlc; identity = identity; site = site }) d.authorized;
    }
    else d
devices_kind (revoke_device identity device) op d =
    if same op.author identity
    then record d { revoked = insert_unless (λ old new. at_most old new) device op.hlc d.revoked }
    else d
devices_kind _ op d = d

unfoldable pub devices_step : Devices → Op → Devices
unfolding devices_kind
devices_step d op = devices_kind op.kind op d

unfoldable pub collect_devices : List Op → Devices
unfolding devices_step
collect_devices ops = foldl devices_step (record { authorized = []; revoked = [] }) ops

-- `Authority::device_records`, over what is left of `authorized`.
device_records_of :
    BTreeMap PublicKey Hlc → BTreeMap PublicKey Certificate → BTreeMap PublicKey DeviceRecord
device_records_of revoked [] = []
device_records_of revoked ((device, c) ∷ m) =
    (device, record { identity = c.identity; site = c.site; revoked = contains_key device revoked })
    ∷ device_records_of revoked m

unfoldable pub device_records : Devices → BTreeMap PublicKey DeviceRecord
unfolding device_records_of
device_records d = device_records_of d.revoked d.authorized
