-- ===== src/Ffi/Api.antt =====
-- splittr-ffi/src/api.rs: the engine that the user interface holds. Each method locks the engine, so
-- the methods run one after another. The methods that only pass a call on are in Engine.
use splittr.Prelude.{
  ℕ, not, ◌&&◌, Option, none, some, List, ◌++◌, Result, ok, err, if◌then◌else◌, ◌==◌,
}
use splittr.Prelude.Int.{ℤ}
use splittr.Prelude.Ord.{Bytes, same, bytes_ord}
use splittr.Prelude.Lists.{length}
use splittr.Prelude.Text.{utf8, decimal}
use splittr.Domain.Ids.{UserId, GroupId, ExpenseId}
use splittr.Domain.Currency.{convert, minor_units}
use splittr.Crdt.Clock.{SiteId}
use splittr.Crdt.Identity.{user_id_for}
use splittr.Crdt.Op.{Crypto}
use splittr.Crypto.Aead.{Cipher}
use splittr.Crypto.Vault.{seal_seed, open_seed}
use splittr.Crypto.Invite.{Invite, verify_invite, is_expired}
use splittr.Crypto.Pairing.{short_auth_string}
use splittr.Store.OpStore.{OpStore, StoreError}
use splittr.App.Identity.{Seeds, Identity, from_seeds, device_only}
use splittr.App.Error.{AppError}
use splittr.App.Commands.{
  App, Answer, ◌then?◌, add_expense, edit_expense, set_group_currency, authorize_device,
  revoke_device,
}
use splittr.App.Groups.{create_group}
use splittr.App.Session.{new_app, unlock_root, create_invite}
use splittr.Ffi.Dto.{ExpenseInput, InviteDto}
use splittr.Ffi.Convert.{Failure, app_error, store_error, message, to_fields, rate_micro_u64}
use splittr.Ffi.Hex.{parse_hex32}

unfoldable pub seed32 : (bytes what : Bytes) → Result Failure Bytes
unfolding decimal
seed32 bytes what =
    if length bytes == 32
    then ok bytes
    else err (message (what ++ (utf8 " must be 32 bytes, got " ++ decimal (length bytes))))

-- `?`
infixl 5 ◌and?◌
abbrev pub ◌and?◌ : {E A B : Type 0} → Result E A → (A → Result E B) → Result E B
err e and? rest = err e
ok a and? rest = rest a

-- An error of the application as one of the engine.
abbrev pub lifted : {A : Type 0} → Result AppError A → Result Failure A
lifted (err e) = err (app_error e)
lifted (ok a) = ok a

module _ (crypto : Crypto) (seeds : Seeds crypto) (S : Type 0) ⦃log : OpStore S⦄ where
  -- The engine after a method, and its answer.
  abbrev pub Reply : Type 0 → Type 0
  Reply A = App crypto seeds S × Result Failure A

  abbrev pub reply : {A : Type 0} → Answer crypto seeds S A → Reply A
  reply (app, answer) = (app, lifted answer)

  -- `open_with`, over `RedbOpStore::open_encrypted`.
  abbrev pub open_with :
      (open_encrypted : (path key : Bytes) → Result StoreError S)
      → ℕ
      → (db_path : Bytes) → Identity crypto seeds
      → (db_key : Bytes) → SiteId
      → Result Failure (App crypto seeds S)
  open_with open_encrypted now db_path identity db_key site =
      seed32 db_key (utf8 "db key") and? λ key. elim (open_encrypted db_path key) [
        | err e ↦ err (store_error e)
        | ok store ↦ lifted (new_app crypto seeds S now identity store site)
      ]

  unfoldable pub open_engine :
      (open_encrypted : (path key : Bytes) → Result StoreError S)
      → ℕ
      → (db_path identity_seed device_seed db_key : Bytes) → SiteId
      → Result Failure (App crypto seeds S)
  unfolding seed32 new_app from_seeds
  open_engine open_encrypted now db_path identity_seed device_seed db_key site =
      seed32 identity_seed (utf8 "identity seed") and? λ id_seed.
      seed32 device_seed (utf8 "device seed") and? λ dev_seed.
      open_with open_encrypted now db_path (from_seeds crypto seeds id_seed dev_seed) db_key site

  unfoldable pub open_device_only :
      (open_encrypted : (path key : Bytes) → Result StoreError S)
      → ℕ
      → (db_path identity_public device_seed db_key : Bytes) → SiteId
      → Result Failure (App crypto seeds S)
  unfolding seed32 new_app device_only
  open_device_only open_encrypted now db_path identity_public device_seed db_key site =
      seed32 identity_public (utf8 "identity public key") and? λ id_pub.
      seed32 device_seed (utf8 "device seed") and? λ dev_seed.
      open_with open_encrypted now db_path (device_only crypto seeds id_pub dev_seed) db_key site

  unfoldable pub engine_unlock_root : App crypto seeds S → Bytes → Reply (Unit {0})
  unfolding seed32 unlock_root
  engine_unlock_root app identity_seed = elim (seed32 identity_seed (utf8 "identity seed")) [
    | err e ↦ (app, err e)
    | ok seed ↦ reply (unlock_root crypto seeds S app seed)
  ]

  unfoldable pub create_group_invite :
      App crypto seeds S → (group_id nonce : Bytes) → (expiry_ms : ℕ) → Result Failure Invite
  unfolding create_invite
  create_group_invite app group_id nonce expiry_ms =
      lifted (create_invite crypto seeds S app (utf8 "group:" ++ group_id) nonce expiry_ms)

  unfoldable pub create_friend_invite :
      App crypto seeds S → (nonce : Bytes) → (expiry_ms : ℕ) → Result Failure Invite
  unfolding create_invite
  create_friend_invite app nonce expiry_ms =
      lifted (create_invite crypto seeds S app (utf8 "friend") nonce expiry_ms)

  -- A group in a currency other than USD takes one more op; `v` is its wall time.
  unfoldable pub engine_create_group :
      (t u v : ℕ)
      → App crypto seeds S
      → (fresh name : Bytes) → List (ℕ × UserId)
      → (currency : Bytes) → Reply GroupId
  unfolding create_group set_group_currency
  engine_create_group t u v app fresh name members currency = reply (
      ◌then?◌ crypto seeds S (create_group crypto seeds S t u app fresh name members) (λ a group.
        if not (same currency (utf8 "USD"))
        then ◌then?◌ crypto seeds S (set_group_currency crypto seeds S v a group currency)
            (λ b _. (b, ok group))
        else (a, ok group)))

  -- The fields are converted before the engine is locked.
  unfoldable pub engine_add_expense :
      ℕ → App crypto seeds S → (fresh : Bytes) → ExpenseInput → Option (Reply ExpenseId)
  unfolding to_fields add_expense
  engine_add_expense now app fresh input = elim (to_fields input) [
    | err e ↦ some (app, err e)
    | ok fields ↦
        elim (add_expense crypto seeds S now app fresh
          (record { fields = fields; group = input.group_id; draft = input.draft })) [
            | none ↦ none
            | some answer ↦ some (reply answer)
          ]
  ]

  unfoldable pub engine_edit_expense :
      ℕ → App crypto seeds S → ExpenseId → ExpenseInput → Option (Reply (Unit {0}))
  unfolding to_fields edit_expense
  engine_edit_expense now app expense input = elim (to_fields input) [
    | err e ↦ some (app, err e)
    | ok fields ↦ elim (edit_expense crypto seeds S now app expense fields) [
      | none ↦ none
      | some answer ↦ some (reply answer)
    ]
  ]

  -- A command on the key that a text gives; `none` is the panic of `parse_hex32`.
  abbrev pub with_hex :
      App crypto seeds S
      → Bytes
      → (Bytes → Answer crypto seeds S (Unit {0}))
      → Option (Reply (Unit {0}))
  with_hex app text command = elim (parse_hex32 text) [
    | none ↦ none
    | some (err e) ↦ some (app, err e)
    | some (ok key) ↦ some (reply (command key))
  ]

  unfoldable pub engine_authorize_device :
      ℕ → App crypto seeds S → (device_hex : Bytes) → SiteId → Option (Reply (Unit {0}))
  unfolding parse_hex32 authorize_device
  engine_authorize_device now app device_hex site =
      with_hex app device_hex (λ key. authorize_device crypto seeds S now app key site)

  unfoldable pub engine_revoke_device :
      ℕ → App crypto seeds S → (device_hex : Bytes) → Option (Reply (Unit {0}))
  unfolding parse_hex32 revoke_device
  engine_revoke_device now app device_hex =
      with_hex app device_hex (λ key. revoke_device crypto seeds S now app key)

-- A negative rate is refused before the conversion.
unfoldable pub convert_currency :
    (amount_cents rate_micro : ℤ) → (from_currency to_currency : Bytes) → Result Failure ℤ
unfolding rate_micro_u64 convert minor_units
convert_currency amount_cents rate_micro from_currency to_currency =
    rate_micro_u64 rate_micro and? λ rate.
    ok (convert amount_cents rate (minor_units from_currency) (minor_units to_currency))

module _ (c : Cipher) (derive_key : (passphrase salt : Bytes) → Bytes) where
  -- `seal_root_seed`; the inner `none` is a panic of the cipher.
  unfoldable pub seal_root_seed :
      (salt nonce passphrase seed : Bytes) → Result Failure (Option Bytes)
  unfolding seed32 seal_seed
  seal_root_seed salt nonce passphrase seed =
      seed32 seed (utf8 "root seed") and? λ s. ok (seal_seed c derive_key salt nonce passphrase s)

  abbrev pub open_root_seed : (passphrase blob : Bytes) → Option Bytes
  open_root_seed passphrase blob = open_seed c derive_key passphrase blob

-- `verify_invite`, over the decoding of invites.
unfoldable pub invite_dto :
    Crypto
    → (from_bytes : Bytes → Option Invite) → (invite : Bytes) → (now_ms : ℕ) → Option InviteDto
unfolding verify_invite user_id_for
invite_dto crypto from_bytes invite now_ms = elim (from_bytes invite) [
  | none ↦ none
  | some i ↦ some (record {
    inviter = user_id_for i.inviter;
    context = i.context;
    expiry_ms = i.expiry_ms;
    valid = verify_invite crypto i && not (is_expired i now_ms);
  })
]

-- The next key of `pairing_short_auth_string`.
abbrev pub hex_and? :
    {A : Type 0} → Bytes → (Bytes → Option (Result Failure A)) → Option (Result Failure A)
hex_and? text rest = elim (parse_hex32 text) [
  | none ↦ none
  | some (err e) ↦ some (err e)
  | some (ok key) ↦ rest key
]

unfoldable pub pairing_short_auth_string :
    (blake3 : Bytes → Bytes)
    → (identity_hex primary_device_hex new_device_hex challenge : Bytes)
    → Option (Result Failure Bytes)
unfolding parse_hex32 seed32 short_auth_string
pairing_short_auth_string blake3 identity_hex primary_device_hex new_device_hex challenge =
    hex_and? identity_hex (λ identity. hex_and? primary_device_hex (λ primary.
      hex_and? new_device_hex (λ device. some (
        seed32 challenge (utf8 "challenge") and? λ nonce. ok (
          short_auth_string blake3 (record {
            identity = identity;
            primary_device = primary;
            new_device = device;
            challenge = nonce;
          }))))))
