-- ===== src/App/Identity.antt =====
-- splittr-app/src/identity.rs: the identity of the local user. The seeds of keys and the agreement
-- keys belong to splittr-crypto and are parameters.
use splittr.Prelude.{[], ◌∷◌, ◌-◌, Bool, true, false, Option, none, some, if◌then◌else◌}
use splittr.Prelude.Ord.{Bytes, same, bytes_ord}
use splittr.Domain.Ids.{UserId}
use splittr.Crdt.Identity.{PublicKey, user_id_for}
use splittr.Crdt.Op.{Crypto}

-- `SigningKey::from_seed`, `AgreementKey::from_seed` and `AgreementKey::public`.
pub record Seeds (crypto : Crypto) : Type 1 where
  pub AgreementKey : Type 0
  pub signing_key : Bytes → crypto.SigningKey
  pub agreement_key : Bytes → AgreementKey
  pub agreement_of : AgreementKey → Bytes

-- The first of the 32 bytes is flipped: `seed[0] ^= 0xff`.
abbrev pub device_seed_from : Bytes → Bytes
device_seed_from [] = []
device_seed_from (b ∷ seed) = (255 - b) ∷ seed

module _ (crypto : Crypto) (seeds : Seeds crypto) where
  pub record RootSecret : Type 0 where
    pub root : crypto.SigningKey
    pub agreement : seeds.AgreementKey

  pub record Identity : Type 0 where
    pub identity_pub : PublicKey
    pub user_id : UserId
    pub device : crypto.SigningKey
    pub root : Option RootSecret

  unfoldable pub from_seeds : Bytes → Bytes → Identity
  from_seeds identity_seed device_seed =
      let root = seeds.signing_key identity_seed in
      record {
        identity_pub = crypto.public root;
        user_id = user_id_for (crypto.public root);
        device = seeds.signing_key device_seed;
        root = some (record { root = root; agreement = seeds.agreement_key identity_seed });
      }

  -- With the three seeds that the operating system gives.
  unfoldable pub generate : (root_seed device_seed agreement_seed : Bytes) → Identity
  generate root_seed device_seed agreement_seed =
      let root = seeds.signing_key root_seed in
      record {
        identity_pub = crypto.public root;
        user_id = user_id_for (crypto.public root);
        device = seeds.signing_key device_seed;
        root = some (record { root = root; agreement = seeds.agreement_key agreement_seed });
      }

  unfoldable pub from_seed : Bytes → Identity
  unfolding from_seeds
  from_seed seed = from_seeds seed (device_seed_from seed)

  unfoldable pub device_only : PublicKey → Bytes → Identity
  device_only identity_pub device_seed = record {
    identity_pub = identity_pub;
    user_id = user_id_for identity_pub;
    device = seeds.signing_key device_seed;
    root = none;
  }

  -- With the answer of `unlock`.
  unfoldable pub unlock : Identity → Bytes → Identity × Bool
  unlock self identity_seed =
      let root = seeds.signing_key identity_seed in
      if same (crypto.public root) self.identity_pub
      then (
        record self {
          root = some (record { root = root; agreement = seeds.agreement_key identity_seed });
        },
        true,
      )
      else (self, false)

  unfoldable pub lock : Identity → Identity
  lock self = record self { root = none }

  abbrev pub root_unlocked : Identity → Bool
  root_unlocked self = elim self.root [ none ↦ false | some _ ↦ true ]

  abbrev pub device_public : Identity → PublicKey
  device_public self = crypto.public self.device

  abbrev pub agreement_public : Identity → Option Bytes
  agreement_public self = elim self.root [
    | none ↦ none
    | some r ↦ some (seeds.agreement_of r.agreement)
  ]

  abbrev pub root_key : Identity → Option crypto.SigningKey
  root_key self = elim self.root [ none ↦ none | some r ↦ some r.root ]
