-- ===== src/Domain/Split/Fair.antt =====
-- `split_by_weights` (splittr-domain/src/split.rs): how near each share is to the exact one.
use splittr.Prelude.{
  ℕ, zero, suc, ◌+◌, ◌-◌, ◌*◌, ◌/◌, ◌%◌, ◌^◌, ◌≤◌, ◌<◌, ◌≡◌, ◌≢◌, sym, ap, ◌∙◌, List, [], ◌∷◌,
  arith, some, ok, ◌⊎◌, inl, inr,
}
use splittr.Prelude.Int.{pos, ◌+ℤ◌}
use splittr.Prelude.Lists.{length, get_elem?, sort_by, length-sort_by, All-sort_by}
use splittr.Prelude.Folds.{All, Apart, Apart-perm}
use splittr.Prelude.Sorted.{sort_by-Permᴰ}
use splittr.BTree.{BTreeMap}
use splittr.Domain.Ids.{UserId}
use splittr.Domain.Split.{
  Split, Share, floored_shares, by_remainder_desc, indices, hand_out, to_splits, split_by_weights,
}
use splittr.Domain.Split.Floored.{
  AreU64, total_of, cents, remainders, floored_share-eq, floored_shares-facts,
}
use splittr.Domain.Split.Weighted.{indices-below, length-indices, cancel, split_by_weights-handed}
use splittr.Domain.Split.Rounds.{HasOnce, Apart-HasOnce, IsHanded, hand_out-IsHanded}

indices-above : (x i n : ℕ) → x < i → All (λ y. x ≢ y) (indices i n)
indices-above x i zero h = tt
indices-above x i (suc n) h = ((λ e. omega (arith, e)), indices-above x (suc i) n (omega arith))

indices-Apart : (i n : ℕ) → Apart ◌≢◌ (indices i n)
indices-Apart i zero = tt
indices-Apart i (suc n) = (indices-above i (suc i) n (omega arith), indices-Apart (suc i) n)

to_splits-get :
    (ss : List Share) (k : ℕ) (s : Share)
    → get_elem? ss k ≡ some s
    → get_elem? (to_splits ss) k ≡ some (record { user = s.user; owed = s.floored })
to_splits-get [] k s e = cc
to_splits-get (x ∷ ss) zero s e =
    let same : x ≡ s = ground arith in
    ap (λ (y : Share). some (record { user = y.user; owed = y.floored })) same
to_splits-get (x ∷ ss) (suc k) s e = to_splits-get ss k s e

module _ (t total : ℕ) (t_fits : t < 2 ^ 63) (positive : 0 < total)
    (total_fits : total < 2 ^ 127) where
  -- The share at the place of a weight, before anything is handed out.
  floored_shares-get :
      (ws : BTreeMap UserId ℕ) (k : ℕ) (u : UserId) (w : ℕ)
      → AreU64 ws
      → total_of ws ≤ total
      → get_elem? ws k ≡ some (u, w)
      → get_elem? (floored_shares (pos t) total ws) k
        ≡ some (record { user = u; floored = pos (t * w / total); remainder = t * w % total })
  unfolding floored_shares
  floored_shares-get [] k u w h le e = cc
  floored_shares-get ((v, x) ∷ ws) zero u w h le e =
      let same_user : v ≡ u = cc in
      let same_weight : x ≡ w = cc in
      rw (sym same_user, sym same_weight)
        (ap some (floored_share-eq t total t_fits positive total_fits v x h.0 (omega arith)))
  floored_shares-get ((v, x) ∷ ws) (suc k) u w h le e =
      floored_shares-get ws k u w h.1 (omega arith) e

  -- Each remainder is below the sum of the weights.
  remainders-lt :
      (ws : BTreeMap UserId ℕ)
      → AreU64 ws
      → total_of ws ≤ total
      → remainders (floored_shares (pos t) total ws) + length (floored_shares (pos t) total ws)
        ≤ length (floored_shares (pos t) total ws) * total
  unfolding floored_shares
  remainders-lt [] h le = omega arith
  remainders-lt ((v, x) ∷ ws) h le =
      let ih = remainders-lt ws h.1 (omega arith) in
      let small : t * x % total < total = grind arith in
      rw (floored_share-eq t total t_fits positive total_fits v x h.0 (omega arith))
        (grind (arith, ih, small))

below : (t s w : ℕ) → t * w < s * w → t < s
below t s w h = grind arith

-- Fewer cents are left over than there are shares.
fewer : (t c r n w : ℕ) → 0 < n → c * w + r ≡ t * w → r + n ≤ n * w → t - c < n
fewer t c r n w q e le =
    let both : (c + n) * w ≡ c * w + n * w = grind arith in
    let fits : t < c + n = below t (c + n) w (omega (arith, both)) in omega (arith, fits)

-- The split of a user of weight `w`: the exact share rounded down, or a cent more.
abbrev pub IsFair : ℕ → ℕ → UserId → ℕ → Split → Type 0
IsFair t total u w s =
    (s.user ≡ u) × ((s.owed ≡ pos (t * w / total)) ⊎ (s.owed ≡ pos (t * w / total) +ℤ pos 1))

handed-IsFair :
    (t total : ℕ) (u : UserId) (w k : ℕ) (order : List ℕ) (s : Share)
    → IsHanded 0 order k
        (record { user = u; floored = pos (t * w / total); remainder = t * w % total })
        s
    → IsFair t total u w (record { user = s.user; owed = s.floored })
handed-IsFair t total u w k order s (same_user, inl e) = (same_user, inl e)
handed-IsFair t total u w k order s (same_user, inr (e, _, _, _)) = (same_user, inr e)

-- A total that is not negative is divided by weights that are `u64`s, not all zero and below 2^127
-- together. The division succeeds, and at the place of each weight it has a split of the same user
-- whose amount is the total times the weight over the sum of the weights, rounded down, or a cent
-- more: no user gets two of the cents left over.
pub split_by_weights-IsFair :
    (t : ℕ) (e : UserId × ℕ) (es : BTreeMap UserId ℕ)
    → t < 2 ^ 63
    → AreU64 (e ∷ es)
    → total_of (e ∷ es) < 2 ^ 127
    → 0 < total_of (e ∷ es)
    → (k : ℕ) (u : UserId) (w : ℕ) → get_elem? (e ∷ es) k ≡ some (u, w)
    → (splits : List Split) × (split_by_weights (pos t) (e ∷ es) ≡ ok splits)
      × (s : Split) × (get_elem? splits k ≡ some s)
      × IsFair t (total_of (e ∷ es)) u w s
split_by_weights-IsFair t e es fits u64 bounded positive k u w found =
    let total = total_of (e ∷ es) in
    let ss = floored_shares (pos t) total (e ∷ es) in
    let order = sort_by (by_remainder_desc ss) (indices 0 (length ss)) in
    let (whole, exact, same_length) =
      floored_shares-facts t total fits positive bounded (e ∷ es) u64 (omega arith) in
    let rems = remainders-lt t total fits positive bounded (e ∷ es) u64 (omega arith) in
    let few =
      fewer t (cents ss) (remainders ss) (length ss) total (omega (arith, same_length)) exact
        rems in
    let le = cancel (cents ss) t total (remainders ss) positive exact in
    let once : HasOnce order = Apart-HasOnce order (
      Apart-perm ◌≢◌ (λ a b ne p. ne (sym p)) (sort_by-Permᴰ (by_remainder_desc ss) _)
        (indices-Apart 0 (length ss))) in
    let inside : All (λ j. j < length ss) order =
      All-sort_by (by_remainder_desc ss) (λ j. j < length ss) _
        (indices-below (length ss) 0 (length ss) (omega arith)) in
    let as_long : length order ≡ length ss =
      length-sort_by (by_remainder_desc ss) (indices 0 (length ss))
      ∙ length-indices 0 (length ss) in
    let (s', there, handed) =
      hand_out-IsHanded (t - cents ss) 0 order ss once (omega (arith, few, as_long)) whole inside
        (omega (arith, le)) k _
        (floored_shares-get t total fits positive bounded (e ∷ es) k u w u64 (omega arith) found) in
    (
      to_splits (hand_out (t - cents ss) 0 order ss),
      split_by_weights-handed t e es fits u64 bounded positive,
      record { user = s'.user; owed = s'.floored },
      to_splits-get _ k s' there,
      handed-IsFair t total u w k order s' handed,
    )
