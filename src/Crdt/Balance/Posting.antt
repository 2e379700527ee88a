-- ===== src/Crdt/Balance/Posting.antt =====
-- The running balances (splittr-crdt/src/balance.rs) as a fold of signed postings: a payment or a
-- share of an expense, or one side of a settlement.
use splittr.Prelude.{
  ℕ, ◌+◌, ◌<◌, ◌≤◌, ◌^◌, Option, some, [], ◌∷◌, List, ◌++◌, ◌≡◌, refl, sym, ap, ◌∙◌, arith,
  if◌then◌else◌, ◌>>=◌, >>=-eq-some, >>=-assoc,
}
use splittr.Prelude.Ord.{Bytes, same, bytes_ord, eq_of_bytes}
use splittr.Prelude.Int.{ℤ, pos, pos_part, neg_part, ◌+ℤ◌, ◌-ℤ◌, neg_ℤ, IsI64, int_laws}
use splittr.Prelude.Folds.{All}
use splittr.BTree.{BTreeMap, get, get_or, insert, values}
use splittr.BTree.Laws.{get-insert}
use splittr.BTree.Sorted.{IsSorted, insert-IsSorted}
use splittr.Domain.Money.{Cents, add, sub, checked}
use splittr.Domain.Money.Laws.{sum, add-eq-some, checked-IsI64}
use splittr.Crdt.Balance.{entry_add, entry_sub, for_each}

abbrev pub Posting : Type 0
Posting = Bytes × ℤ

abbrev pub post : BTreeMap Bytes Cents → Posting → Option (BTreeMap Bytes Cents)
post net (k, z) = entry_add k z net

-- What is posted to one user, as an integer with no bound.
abbrev pub posted : Bytes → List Posting → ℤ
posted q [] = pos 0
posted q ((k, z) ∷ ps) = if same q k then z +ℤ posted q ps else posted q ps

abbrev pub posted_in_all : List Posting → ℤ
posted_in_all [] = pos 0
posted_in_all ((_, z) ∷ ps) = z +ℤ posted_in_all ps

-- The sum of the magnitudes.
abbrev pub volume : List Posting → ℕ
volume [] = 0
volume ((_, z) ∷ ps) = pos_part z + neg_part z + volume ps

-- To subtract is to post the negation.
pub entry_sub_lem :
    (k : Bytes) (c : Cents) (net : BTreeMap Bytes Cents) → entry_sub k c net ≡ post net (k, neg_ℤ c)
unfolding entry_add entry_sub add sub
entry_sub_lem k c net =
    ap (λ v. checked v >>= λ w. some (insert k w net)) (minus (get_or k (pos 0) net))
  where
    minus : (v : ℤ) → v -ℤ c ≡ v +ℤ neg_ℤ c
    minus v = omega int_laws

-- Two loops over one state are a loop over both lists.
pub for_each-append :
    {A S : Type 0} (body : S → A → Option S) (xs ys : List A) (s : S)
    → for_each body (xs ++ ys) s ≡ (for_each body xs s >>= λ s'. for_each body ys s')
for_each-append body [] ys s = refl
for_each-append body (x ∷ xs) ys s =
    ap (λ f. body s x >>= f) (λ i s'. for_each-append body xs ys s' i)
    ∙ sym (>>=-assoc (body s x) (λ s'. for_each body xs s') (λ s'. for_each body ys s'))

post-eq-some :
    (net net' : BTreeMap Bytes Cents) (k : Bytes) (z : ℤ)
    → post net (k, z) ≡ some net'
    → net' ≡ insert k (get_or k (pos 0) net +ℤ z) net
unfolding entry_add
post-eq-some net net' k z h =
    let (v, added, e) = >>=-eq-some (add (get_or k (pos 0) net) z) (λ v. some (insert k v net)) h in
    ground (arith, add-eq-some (get_or k (pos 0) net) z v added)

get_or-insert :
    (q k : Bytes) (v : ℤ) (net : BTreeMap Bytes Cents)
    → get_or q (pos 0) (insert k v net) ≡ (if same q k then v else get_or q (pos 0) net)
get_or-insert q k v net = ground (arith, get-insert q k v net)

-- After the postings every user has what the user had and what was posted to the user.
pub postings-exact :
    (ps : List Posting) (net net' : BTreeMap Bytes Cents) (q : Bytes)
    → for_each post ps net ≡ some net'
    → get_or q (pos 0) net' ≡ get_or q (pos 0) net +ℤ posted q ps
postings-exact [] net net' q h = rw (sym (some_eq h)) (omega int_laws)
  where
    some_eq : some net ≡ some net' → net ≡ net'
    some_eq e = ground arith
postings-exact ((k, z) ∷ ps) net net' q h =
    let (mid, posted_k, rest) = >>=-eq-some (post net (k, z)) (λ s. for_each post ps s) h in
    postings-exact ps mid net' q rest
    ∙ ap (λ m. get_or q (pos 0) m +ℤ posted q ps) (post-eq-some net mid k z posted_k)
    ∙ ap (λ v. v +ℤ posted q ps) (get_or-insert q k (get_or k (pos 0) net +ℤ z) net)
    ∙ step
  where
    regroup : (v w x : ℤ) → (v +ℤ w) +ℤ x ≡ v +ℤ (w +ℤ x)
    regroup v w x = omega int_laws

    step :
        (if same q k then get_or k (pos 0) net +ℤ z else get_or q (pos 0) net) +ℤ posted q ps
        ≡ get_or q (pos 0) net +ℤ posted q ((k, z) ∷ ps)
    step = ground (arith, eq_of_bytes q k, regroup (get_or q (pos 0) net) z (posted q ps))

sum-insert :
    (k : Bytes) (z : ℤ) (net : BTreeMap Bytes Cents)
    → sum (values (insert k (get_or k (pos 0) net +ℤ z) net)) ≡ z +ℤ sum (values net)
unfolding insert get
sum-insert k z [] = omega int_laws
sum-insert k z ((j, w) ∷ net) =
    let rest = sum (values net) in
    ground (arith, sum-insert k z net, zero_first z, swap_first w z rest, take_out w z rest)
  where
    zero_first : (v : ℤ) → pos 0 +ℤ v ≡ v
    zero_first v = omega int_laws

    swap_first : (u v x : ℤ) → (u +ℤ v) +ℤ x ≡ v +ℤ (u +ℤ x)
    swap_first u v x = omega int_laws

    take_out : (u v x : ℤ) → u +ℤ (v +ℤ x) ≡ v +ℤ (u +ℤ x)
    take_out u v x = omega int_laws

-- The magnitude of an amount is bounded.
abbrev pub IsWithin : ℕ → Posting → Type 0
IsWithin b (_, z) = (pos_part z ≤ b) × (neg_part z ≤ b)

All-insert :
    (P : Posting → Type 0) (k : Bytes) (v : ℤ) (net : BTreeMap Bytes Cents)
    → P (k, v)
    → All P net
    → All P (insert k v net)
unfolding insert
All-insert P k v [] h a = (h, tt)
All-insert P k v ((j, w) ∷ net) h a = ground (arith, All-insert P k v net h a.1)

get_or-IsWithin :
    (b : ℕ) (k : Bytes) (net : BTreeMap Bytes Cents)
    → All (IsWithin b) net
    → IsWithin b (k, get_or k (pos 0) net)
unfolding get
get_or-IsWithin b k [] a = ground arith
get_or-IsWithin b k ((j, w) ∷ net) a = ground (arith, get_or-IsWithin b k net a.1)

All-IsWithin :
    (b c : ℕ) (net : BTreeMap Bytes Cents) → b ≤ c → All (IsWithin b) net → All (IsWithin c) net
All-IsWithin b c [] h a = tt
All-IsWithin b c ((k, z) ∷ net) h a = ((omega arith, omega arith), All-IsWithin b c net h a.1)

fits :
    (b : ℕ) (k : Bytes) (v z : ℤ)
    → IsWithin b (k, v)
    → b + (pos_part z + neg_part z) < 2 ^ 63
    → IsI64 (v +ℤ z)
unfolding ◌+ℤ◌
fits b k v z w h = ground arith

grown :
    (b : ℕ) (k : Bytes) (v z : ℤ)
    → IsWithin b (k, v)
    → IsWithin (b + (pos_part z + neg_part z)) (k, v +ℤ z)
unfolding ◌+ℤ◌
grown b k v z w = ground arith

post-made :
    (b : ℕ) (net : BTreeMap Bytes Cents) (k : Bytes) (z : ℤ)
    → All (IsWithin b) net
    → b + (pos_part z + neg_part z) < 2 ^ 63
    → (post net (k, z) ≡ some (insert k (get_or k (pos 0) net +ℤ z) net))
      × All (IsWithin (b + (pos_part z + neg_part z))) (insert k (get_or k (pos 0) net +ℤ z) net)
unfolding entry_add add
post-made b net k z a h = (
  ap (λ o. o >>= λ v. some (insert k v net))
      (checked-IsI64 (old +ℤ z) (fits b k old z old_within h)),
  All-insert (IsWithin (b + (pos_part z + neg_part z))) k (old +ℤ z) net
      (grown b k old z old_within)
      (All-IsWithin b (b + (pos_part z + neg_part z)) net (omega arith) a),
)
  where
    old : ℤ
    old = get_or k (pos 0) net

    old_within : IsWithin b (k, old)
    old_within = get_or-IsWithin b k net a

-- Postings of a volume that fits beside what is there do not overflow.
pub postings-made :
    (ps : List Posting) (b : ℕ) (net : BTreeMap Bytes Cents)
    → All (IsWithin b) net
    → b + volume ps < 2 ^ 63
    → (net' : BTreeMap Bytes Cents) × (for_each post ps net ≡ some net')
      × All (IsWithin (b + volume ps)) net'
postings-made [] b net a h = (net, refl, All-IsWithin b (b + 0) net (omega arith) a)
postings-made ((k, z) ∷ ps) b net a h =
    let w = b + (pos_part z + neg_part z) in
    let (made, within) = post-made b net k z a (omega arith) in
    let (net', rest, all) =
      postings-made ps w (insert k (get_or k (pos 0) net +ℤ z) net) within (omega arith) in
    (
      net',
      rw (made) rest,
      All-IsWithin (w + volume ps) (b + volume ((k, z) ∷ ps)) net' (omega arith) all,
    )

pub postings-IsSorted :
    (ps : List Posting) (net net' : BTreeMap Bytes Cents)
    → for_each post ps net ≡ some net'
    → IsSorted net
    → IsSorted net'
postings-IsSorted [] net net' h s = ground arith
postings-IsSorted ((k, z) ∷ ps) net net' h s =
    let (mid, posted_k, rest) = >>=-eq-some (post net (k, z)) (λ s. for_each post ps s) h in
    postings-IsSorted ps mid net' rest
      (rw (post-eq-some net mid k z posted_k) (insert-IsSorted k (get_or k (pos 0) net +ℤ z) net s))

pub postings-sum :
    (ps : List Posting) (net net' : BTreeMap Bytes Cents)
    → for_each post ps net ≡ some net'
    → sum (values net') ≡ posted_in_all ps +ℤ sum (values net)
postings-sum [] net net' h = rw (sym (some_eq h)) (omega int_laws)
  where
    some_eq : some net ≡ some net' → net ≡ net'
    some_eq e = ground arith
postings-sum ((k, z) ∷ ps) net net' h =
    let (mid, posted_k, rest) = >>=-eq-some (post net (k, z)) (λ s. for_each post ps s) h in
    postings-sum ps mid net' rest
    ∙ ap (λ m. posted_in_all ps +ℤ sum (values m)) (post-eq-some net mid k z posted_k)
    ∙ ap (λ v. posted_in_all ps +ℤ v) (sum-insert k z net)
    ∙ regroup (posted_in_all ps) z (sum (values net))
  where
    regroup : (v w x : ℤ) → v +ℤ (w +ℤ x) ≡ (w +ℤ v) +ℤ x
    regroup v w x = omega int_laws
