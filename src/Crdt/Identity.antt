-- ===== src/Crdt/Identity.antt =====
-- splittr-crdt/src/identity.rs: the user id of a public key.
use splittr.Prelude.{ℕ, ◌+◌, ◌/◌, ◌%◌, Bool, [], ◌∷◌, ◌++◌, if◌then◌else◌, ltb}
use splittr.Prelude.Ord.{Bytes}
use splittr.Prelude.Text.{utf8, starts_with}
use splittr.Domain.Ids.{UserId}

-- The 32 bytes of an Ed25519 key.
abbrev pub PublicKey : Type 0
PublicKey = Bytes

abbrev pub hex_digit : ℕ → ℕ
hex_digit d = if ltb d 10 then 48 + d else 87 + d

unfoldable pub hex32 : Bytes → Bytes
hex32 [] = []
hex32 (b ∷ bs) = hex_digit (b / 16) ∷ hex_digit (b % 16) ∷ hex32 bs

unfoldable pub user_id_for : PublicKey → UserId
unfolding hex32
user_id_for key = utf8 "id:" ++ hex32 key

unfoldable pub is_placeholder : UserId → Bool
unfolding starts_with
is_placeholder user = starts_with user (utf8 "user:")
