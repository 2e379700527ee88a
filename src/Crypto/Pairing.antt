-- ===== src/Crypto/Pairing.antt =====
-- splittr-crypto/src/pairing.rs: the short authentication string of a pairing.
use splittr.Prelude.{ℕ, ◌/◌, ◌%◌, ◌^◌, ◌∷◌, ◌++◌}
use splittr.Prelude.Ord.{Bytes}
use splittr.Prelude.Text.{utf8, decimal, pad_zeros}
use splittr.Crdt.Identity.{PublicKey}
use splittr.Crypto.Bytes.{take, from_be}

pub record PairingTranscript : Type 0 where
  pub identity : PublicKey
  pub primary_device : PublicKey
  pub new_device : PublicKey
  pub challenge : Bytes

-- What the hasher is fed.
abbrev pub transcript_bytes : PairingTranscript → Bytes
transcript_bytes t =
    utf8 "splittr-pairing-sas-v1"
    ++ (t.identity ++ (t.primary_device ++ (t.new_device ++ t.challenge)))

-- The six digits of a digest.
abbrev pub sas_code : Bytes → ℕ
sas_code digest = from_be 0 (take 8 digest) % 10 ^ 6

-- `{:0width$} {:0width$}`
abbrev pub show_code : ℕ → Bytes
show_code code =
    pad_zeros 3 (decimal (code / 10 ^ 3)) ++ (b' ' ∷ pad_zeros 3 (decimal (code % 10 ^ 3)))

unfoldable pub short_auth_string : (blake3 : Bytes → Bytes) → PairingTranscript → Bytes
unfolding from_be decimal
short_auth_string blake3 t = show_code (sas_code (blake3 (transcript_bytes t)))
