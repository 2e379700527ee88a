-- ===== src/Prelude/Text.antt =====
-- Texts as their bytes, and decimal printing.
use Prim.Native.Char.{code}
use Prim.Native.String.{String}
use splittr.Prelude.{
  ℕ, zero, suc, ◌+◌, ◌-◌, ◌/◌, ◌%◌, [], ◌∷◌, ◌++◌, Bool, true, false, ◌==◌, leb, ◌&&◌,
  if◌then◌else◌, map,
}
use splittr.Prelude.Ord.{Bytes}
use splittr.Prelude.Lists.{length}

-- The bytes of an ASCII literal.
abbrev pub utf8 : String → Bytes
utf8 String.[] = []
utf8 (String.◌∷◌ c s) = code c ∷ utf8 s

-- `str::starts_with`
unfoldable pub starts_with : Bytes → Bytes → Bool
starts_with s [] = true
starts_with [] (_ ∷ _) = false
starts_with (x ∷ s) (y ∷ t) = if x == y then starts_with s t else false

-- `to_ascii_uppercase`
abbrev pub upper : ℕ → ℕ
upper c = if leb b'a' c && leb c b'z' then c - 32 else c

abbrev pub to_ascii_uppercase : Bytes → Bytes
to_ascii_uppercase = map upper

-- The decimal digits of a number in front of `acc`; one unit of fuel for a digit.
unfoldable pub decimal_onto : ℕ → ℕ → Bytes → Bytes
decimal_onto zero n acc = acc
decimal_onto (suc fuel) n acc =
    let rest = decimal_onto fuel (n / 10) ((48 + n % 10) ∷ acc) in
    if n / 10 == 0 then (48 + n % 10) ∷ acc else rest

-- `u64::to_string`: a `u64` has 20 digits at most.
unfoldable pub decimal : ℕ → Bytes
unfolding decimal_onto
decimal n = decimal_onto 20 n []

abbrev pub zeros : ℕ → Bytes
zeros zero = []
zeros (suc n) = b'0' ∷ zeros n

-- `{:0width$}`
abbrev pub pad_zeros : ℕ → Bytes → Bytes
pad_zeros width s = zeros (width - length s) ++ s
