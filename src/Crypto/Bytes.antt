-- ===== src/Crypto/Bytes.antt =====
-- `split_at`, `to_le_bytes`, `to_be_bytes` and their inverses, on lists of bytes.
use splittr.Prelude.{
  ℕ, zero, suc, ◌+◌, ◌*◌, ◌/◌, ◌%◌, ◌<◌, List, [], ◌∷◌, ◌++◌, ◌≡◌, refl, arith, ap, sym, ◌∙◌, ◌^◌,
}
use splittr.Prelude.Ord.{Bytes}
use splittr.Prelude.Lists.{length}

module _ {ℓ} {A : Type ℓ} where
  abbrev pub take : ℕ → List A → List A
  take zero xs = []
  take (suc n) [] = []
  take (suc n) (x ∷ xs) = x ∷ take n xs

  abbrev pub drop : ℕ → List A → List A
  drop zero xs = xs
  drop (suc n) [] = []
  drop (suc n) (x ∷ xs) = drop n xs

  pub length-append : (xs ys : List A) → length (xs ++ ys) ≡ length xs + length ys
  length-append [] ys = ground arith
  length-append (x ∷ xs) ys = ground (arith, length-append xs ys)

  pub take-append : (n : ℕ) (xs ys : List A) → length xs ≡ n → take n (xs ++ ys) ≡ xs
  take-append zero [] ys h = refl
  take-append zero (x ∷ xs) ys h = ground arith
  take-append (suc n) [] ys h = ground arith
  take-append (suc n) (x ∷ xs) ys h = ap (λ zs. x ∷ zs) (take-append n xs ys (omega arith))

  pub drop-append : (n : ℕ) (xs ys : List A) → length xs ≡ n → drop n (xs ++ ys) ≡ ys
  drop-append zero [] ys h = refl
  drop-append zero (x ∷ xs) ys h = ground arith
  drop-append (suc n) [] ys h = ground arith
  drop-append (suc n) (x ∷ xs) ys h = drop-append n xs ys (omega arith)

  -- Two texts with heads of one length agree head by head and rest by rest.
  pub append-injective :
      (n : ℕ) (xs ys us vs : List A)
      → length xs ≡ n
      → length ys ≡ n
      → xs ++ us ≡ ys ++ vs
      → (xs ≡ ys) × (us ≡ vs)
  append-injective n xs ys us vs h k e = (
    sym (take-append n xs us h) ∙ ap (take n) e ∙ take-append n ys vs k,
    sym (drop-append n xs us h) ∙ ap (drop n) e ∙ drop-append n ys vs k,
  )

-- A number in `width` bytes, the lowest first: `to_le_bytes`.
unfoldable pub le_bytes : (width n : ℕ) → Bytes
le_bytes zero n = []
le_bytes (suc w) n = n % 256 ∷ le_bytes w (n / 256)

-- `256 ^ width`
abbrev pub capacity : ℕ → ℕ
capacity zero = 1
capacity (suc w) = 256 * capacity w

pub length-le_bytes : (w n : ℕ) → length (le_bytes w n) ≡ w
unfolding le_bytes
length-le_bytes zero n = refl
length-le_bytes (suc w) n = ap suc (length-le_bytes w (n / 256))

pub le_bytes-injective :
    (w m n : ℕ) → m < capacity w → n < capacity w → le_bytes w m ≡ le_bytes w n → m ≡ n
unfolding le_bytes
le_bytes-injective zero m n h k e = omega arith
le_bytes-injective (suc w) m n h k e =
    let high = le_bytes-injective w (m / 256) (n / 256) (omega arith) (omega arith) cc in
    let low : m % 256 ≡ n % 256 = cc in omega (arith, high, low)

-- `u32::to_be_bytes`
abbrev pub be_bytes32 : ℕ → Bytes
be_bytes32 n = n / 2 ^ 24 % 256 ∷ n / 2 ^ 16 % 256 ∷ n / 2 ^ 8 % 256 ∷ n % 256 ∷ []

-- `u32::from_be_bytes` and `u64::from_be_bytes`
unfoldable pub from_be : ℕ → Bytes → ℕ
from_be acc [] = acc
from_be acc (b ∷ bs) = from_be (acc * 256 + b) bs

pub from_be-be_bytes32 : (n : ℕ) → n < 2 ^ 32 → from_be 0 (be_bytes32 n) ≡ n
unfolding from_be
from_be-be_bytes32 n h = omega arith
