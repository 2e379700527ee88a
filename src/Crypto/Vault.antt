-- ===== src/Crypto/Vault.antt =====
-- splittr-crypto/src/vault.rs: the root seed sealed under a passphrase. The key derivation is the
-- package argon2's, a parameter.
use splittr.Prelude.{
  ℕ, Option, none, some, [], ◌∷◌, ◌++◌, ◌≡◌, ◌&&◌, ◌==◌, leb, ◌>>=◌, if◌then◌else◌, >>=-eq-some,
  arith,
}
use splittr.Prelude.Ord.{Bytes}
use splittr.Prelude.Lists.{length}
use splittr.Crypto.Bytes.{take, drop, take-append, drop-append, length-append}
use splittr.Crypto.Aead.{Cipher, Decrypts, seal, open_blob, open_blob-seal}

abbrev pub salt_len : ℕ
salt_len = 16

abbrev pub vault_v1 : ℕ
vault_v1 = 1

-- `plaintext.as_slice().try_into().ok()`
abbrev pub as_seed : Bytes → Option Bytes
as_seed plaintext = if length plaintext == 32 then some plaintext else none

module _ (c : Cipher) (derive_key : (passphrase salt : Bytes) → Bytes) where
  -- With the salt and the nonce that the operating system gave.
  unfoldable pub seal_seed : (salt nonce passphrase seed : Bytes) → Option Bytes
  unfolding seal
  seal_seed salt nonce passphrase seed =
      seal c (derive_key passphrase salt) nonce seed >>= λ sealed. some (vault_v1 ∷ salt ++ sealed)

  unfoldable pub open_seed : (passphrase blob : Bytes) → Option Bytes
  unfolding open_blob
  open_seed passphrase [] = none
  open_seed passphrase (version ∷ rest) =
      if version == vault_v1 && leb salt_len (length rest)
      then (open_blob c (derive_key passphrase (take salt_len rest)) (drop salt_len rest)
          >>= as_seed)
      else none

  -- A root seed of 32 bytes sealed under a passphrase, with any salt and nonce of the right length,
  -- is opened by the passphrase again, where the cipher decrypts what it encrypted.
  pub open_seed-seal_seed :
      (salt nonce passphrase seed blob : Bytes)
      → Decrypts c
      → length salt ≡ 16
      → length nonce ≡ 24
      → length seed ≡ 32
      → seal_seed salt nonce passphrase seed ≡ some blob
      → open_seed passphrase blob ≡ some seed
  unfolding seal_seed open_seed
  open_seed-seal_seed salt nonce passphrase seed blob law hs hn hd sealed =
      let key = derive_key passphrase salt in
      let (inner, made, whole) =
        >>=-eq-some (seal c key nonce seed) (λ b. some (vault_v1 ∷ salt ++ b)) sealed in
      grind (
        arith,
        open_blob-seal c key nonce seed inner law hn made,
        take-append 16 salt inner hs,
        drop-append 16 salt inner hs,
        length-append salt inner,
      )
