-- ===== src/Ffi/Hex.antt =====
-- `parse_hex32` of splittr-ffi/src/api.rs, the inverse of `hex32` of splittr-crdt/src/identity.rs.
use splittr.Prelude.{
  ℕ, ◌+◌, ◌-◌, ◌*◌, ◌/◌, ◌%◌, ◌<◌, Bool, true, false, Option, none, some, [], ◌∷◌, ◌++◌, ◌≡◌, refl,
  ap, ◌∙◌, arith, Result, ok, err, if◌then◌else◌, ◌&&◌, ◌==◌, leb, ◌>>=◌,
}
use splittr.Prelude.Ord.{Bytes}
use splittr.Prelude.Lists.{length}
use splittr.Prelude.Folds.{All}
use splittr.Prelude.Text.{utf8, decimal}
use splittr.Crdt.Identity.{hex32, hex_digit}
use splittr.Ffi.Convert.{Failure, message}

-- `char::to_digit(16)`, of a byte.
abbrev pub digit_value : ℕ → Option ℕ
digit_value c =
    if leb 48 c && leb c 57
    then some (c - 48)
    else if leb 97 c && leb c 102
    then some (c - 87)
    else if leb 65 c && leb c 70
    then some (c - 55)
    else none

-- `u8::from_str_radix` of two bytes, which takes a plus sign in front.
unfoldable pub from_radix16 : (a b : ℕ) → Option ℕ
from_radix16 a b =
    if a == b'+'
    then digit_value b
    else (digit_value a >>= λ high. digit_value b >>= λ low. some (high * 16 + low))

-- Whether a text of UTF-8 is cut within a character before `rest`.
abbrev pub cuts_character : Bytes → Bool
cuts_character [] = false
cuts_character (c ∷ _) = leb 128 c && leb c 191

-- What comes of one pair of digits and of those after it.
abbrev pub with_pair : Option ℕ → Option (Result Failure Bytes) → Option (Result Failure Bytes)
with_pair none others = some (err (message (utf8 "invalid hex")))
with_pair (some byte) none = none
with_pair (some byte) (some (err e)) = some (err e)
with_pair (some byte) (some (ok bytes)) = some (ok (byte ∷ bytes))

-- The loop over the pairs; `none` is the panic of a slice.
unfoldable pub parse_pairs : Bytes → Option (Result Failure Bytes)
unfolding from_radix16
parse_pairs [] = some (ok [])
parse_pairs (_ ∷ []) = none
parse_pairs (a ∷ b ∷ rest) =
    let others = parse_pairs rest in
    if cuts_character rest then none else with_pair (from_radix16 a b) others

unfoldable pub parse_hex32 : Bytes → Option (Result Failure Bytes)
unfolding parse_pairs decimal
parse_hex32 s =
    if length s == 64
    then parse_pairs s
    else some (err (message (utf8 "expected 64 hex chars, got " ++ decimal (length s))))

abbrev IsByte : ℕ → Type 0
IsByte b = b < 256

length-hex32 : (bytes : Bytes) → length (hex32 bytes) ≡ length bytes + length bytes
unfolding hex32
length-hex32 [] = ground arith
length-hex32 (b ∷ bytes) = ground (arith, length-hex32 bytes)

from_radix16-hex_digit :
    (b : ℕ) → b < 256 → from_radix16 (hex_digit (b / 16)) (hex_digit (b % 16)) ≡ some b
unfolding from_radix16
from_radix16-hex_digit b h = ground arith

hex32-whole : (bytes : Bytes) → All IsByte bytes → cuts_character (hex32 bytes) ≡ false
unfolding hex32
hex32-whole [] h = refl
hex32-whole (b ∷ bytes) (h, hs) = ground arith

parse_pairs-hex32 : (bytes : Bytes) → All IsByte bytes → parse_pairs (hex32 bytes) ≡ some (ok bytes)
unfolding parse_pairs hex32
parse_pairs-hex32 [] h = refl
parse_pairs-hex32 (b ∷ bytes) (h, hs) =
    ground (arith, hex32-whole bytes hs, from_radix16-hex_digit b h, parse_pairs-hex32 bytes hs)

-- The text that `hex32` gives of a key of 32 bytes is parsed back to the key.
pub parse_hex32-hex32 :
    (key : Bytes) → length key ≡ 32 → All IsByte key → parse_hex32 (hex32 key) ≡ some (ok key)
unfolding parse_hex32
parse_hex32-hex32 key h bytes =
    ap
      (λ (b : Bool).
        if b
        then parse_pairs (hex32 key)
        else some
            (err (message (utf8 "expected 64 hex chars, got " ++ decimal (length (hex32 key))))))
      long
    ∙ parse_pairs-hex32 key bytes
  where
    long : (length (hex32 key) == 64) ≡ true
    long = ground (arith, length-hex32 key, h)
