-- ===== src/Examples/Ciphers.antt =====
-- Runs of the sealed seed, the invites and the short authentication string.
use splittr.Prelude.{ℕ, some, [], ◌∷◌, ◌++◌, ◌≡◌, refl, arith}
use splittr.Prelude.Ord.{Bytes}
use splittr.Prelude.Text.{utf8, zeros, decimal}
use splittr.Crypto.Bytes.{from_be}
use splittr.Crypto.Aead.{Cipher, Decrypts, seal}
use splittr.Crypto.Vault.{seal_seed, open_seed, open_seed-seal_seed}
use splittr.Crypto.Invite.{invite_canonical-injective}
use splittr.Crypto.Pairing.{short_auth_string}

-- A cipher that leaves the text as it is.
abbrev pub open_cipher : Cipher
open_cipher = record {
  encrypt = λ key nonce plaintext. some plaintext;
  decrypt = λ key nonce ciphertext. some ciphertext;
}

pub open_cipher-Decrypts : Decrypts open_cipher
open_cipher-Decrypts key nonce plaintext ciphertext h e = cc

abbrev expiry : ℕ
expiry = 900

abbrev salted : (passphrase salt : Bytes) → Bytes
salted passphrase salt = passphrase ++ salt

abbrev vault : Bytes
vault = 1 ∷ zeros 16 ++ (1 ∷ zeros 24 ++ zeros 32)

vault-sealed :
    seal_seed open_cipher salted (zeros 16) (zeros 24) (utf8 "1234") (zeros 32) ≡ some vault
unfolding seal_seed seal
vault-sealed = refl

open_seed-seal_seed_example : open_seed open_cipher salted (utf8 "1234") vault ≡ some (zeros 32)
open_seed-seal_seed_example =
    open_seed-seal_seed open_cipher salted (zeros 16) (zeros 24) (utf8 "1234") (zeros 32) vault
      open_cipher-Decrypts refl refl refl vault-sealed

invite_canonical-injective_example :
    ((zeros 32 ≡ zeros 32) × (utf8 "friend" ≡ utf8 "friend"))
    × ((zeros 16 ≡ zeros 16) × (expiry ≡ expiry))
invite_canonical-injective_example =
    invite_canonical-injective (zeros 32) (zeros 32) (utf8 "friend") (utf8 "friend") (zeros 16)
      (zeros 16) expiry expiry (refl, refl) (refl, refl) (omega arith, omega arith)
      (omega arith, omega arith) refl

-- The digits of a digest whose first bytes are 0, .., 0, 4, 210: 4 * 256 + 210 = 1234.
pairing_code :
    short_auth_string
      (λ _. (0 ∷ 0 ∷ 0 ∷ 0 ∷ 0 ∷ 0 ∷ 4 ∷ 210 ∷ 7 ∷ []))
      (record { identity = []; primary_device = []; new_device = []; challenge = [] })
    ≡ utf8 "001 234"
unfolding short_auth_string from_be decimal
pairing_code = refl
