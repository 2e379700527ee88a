-- ===== src/Crypto/Aead.antt =====
-- splittr-crypto/src/aead.rs: version-tagged blobs over a cipher of the package chacha20poly1305.
use splittr.Prelude.{
  ℕ, Option, none, some, [], ◌∷◌, ◌++◌, ◌≡◌, ◌&&◌, ◌==◌, leb, ◌>>=◌, if◌then◌else◌, >>=-eq-some,
  arith,
}
use splittr.Prelude.Ord.{Bytes}
use splittr.Prelude.Lists.{length}
use splittr.Crypto.Bytes.{take, drop, take-append, drop-append, length-append}

-- XChaCha20-Poly1305; `none` is an error of the package.
pub record Cipher : Type 0 where
  pub encrypt : (key nonce plaintext : Bytes) → Option Bytes
  pub decrypt : (key nonce ciphertext : Bytes) → Option Bytes

-- What the package documents: what was encrypted under a key and a nonce of 24 bytes is decrypted
-- under them.
abbrev pub Decrypts : Cipher → Type 0
Decrypts c =
    (key nonce plaintext ciphertext : Bytes)
    → length nonce ≡ 24
    → c.encrypt key nonce plaintext ≡ some ciphertext
    → c.decrypt key nonce ciphertext ≡ some plaintext

abbrev pub nonce_len : ℕ
nonce_len = 24

abbrev pub aead_v1 : ℕ
aead_v1 = 1

module _ (c : Cipher) where
  -- `seal`, with the nonce that the operating system gave; `none` is its panic.
  unfoldable pub seal : (key nonce plaintext : Bytes) → Option Bytes
  seal key nonce plaintext =
      c.encrypt key nonce plaintext >>= λ ciphertext. some (aead_v1 ∷ nonce ++ ciphertext)

  -- `open`
  unfoldable pub open_blob : (key blob : Bytes) → Option Bytes
  open_blob key [] = none
  open_blob key (version ∷ rest) =
      if version == aead_v1 && leb nonce_len (length rest)
      then c.decrypt key (take nonce_len rest) (drop nonce_len rest)
      else none

  pub open_blob-seal :
      (key nonce plaintext blob : Bytes)
      → Decrypts c
      → length nonce ≡ 24
      → seal key nonce plaintext ≡ some blob
      → open_blob key blob ≡ some plaintext
  unfolding seal open_blob
  open_blob-seal key nonce plaintext blob law h sealed =
      let (ciphertext, made, whole) =
        >>=-eq-some (c.encrypt key nonce plaintext) (λ b. some (aead_v1 ∷ nonce ++ b)) sealed in
      grind (
        arith,
        law key nonce plaintext ciphertext h made,
        take-append 24 nonce ciphertext h,
        drop-append 24 nonce ciphertext h,
        length-append nonce ciphertext,
      )
