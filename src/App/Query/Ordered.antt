-- ===== src/App/Query/Ordered.antt =====
-- What the feed and the list of a group's expenses show, and in what order
-- (splittr-app/src/query.rs).
use splittr.Prelude.{
  ◌≡◌, ◌≢◌, refl, sym, ap, ◌∙◌, true, Option, some, none, List, [], ◌∷◌, map, ◌++◌, >>=-eq-some,
  arith,
}
use Prim.Native.Nat.Ordering.{gt}
use mathlib.Core.Path.{subst}
use splittr.Prelude.Int.{ℤ, pos, int_flip, int_ord, wrap_i64, ◌≤ℤ◌}
use splittr.Prelude.Ord.{Bytes, same, bytes_ord}
use splittr.Prelude.Text.{utf8}
use splittr.Prelude.Lists.{sort_by, filter_by}
use splittr.Prelude.Sorted.{Neighbours, IsOrdered-Neighbours, sort_by-IsOrdered, sort_by-stable}
use splittr.Domain.Ids.{UserId}
use splittr.Crdt.Op.{
  Op, OpKind, create_group, create_expense, void_expense, record_settlement, upsert_profile,
}
use splittr.Crdt.Projection.{Projection}
use splittr.App.Query.Views.{display_name}
use splittr.App.Query.Activity.{
  money, ActivityEntry, latest_first, entries_of, summary_of, activity,
}

latest_first-total : (a b : ActivityEntry) → latest_first a b ≡ gt → latest_first b a ≢ gt
latest_first-total a b h = ground (arith, int_flip a.wall_ms b.wall_ms)

-- The word under which the feed shows an op of a kind, if it shows such ops.
abbrev pub shown_as : OpKind → Option Bytes
shown_as (create_group _ _) = some (utf8 "group")
shown_as (create_expense _ _ _ _) = some (utf8 "expense")
shown_as (OpKind.edit_expense _ _) = some (utf8 "edit")
shown_as (void_expense _) = some (utf8 "delete")
shown_as (record_settlement _ _ _ _ _) = some (utf8 "settlement")
shown_as (upsert_profile _ _) = some (utf8 "person")
shown_as _ = none

-- The words and the times of the ops that are shown.
abbrev pub shown_ops : List Op → List (Bytes × ℤ)
shown_ops [] = []
shown_ops (op ∷ rest) = elim (shown_as op.kind) [
  | none ↦ shown_ops rest
  | some word ↦ (word, wrap_i64 (pos op.hlc.wall_ms)) ∷ shown_ops rest
]

abbrev pub brief : ActivityEntry → Bytes × ℤ
brief e = (e.kind, e.wall_ms)

-- Those of one time.
abbrev pub at_time : ℤ → List (Bytes × ℤ) → List (Bytes × ℤ)
at_time t = filter_by (λ x. same x.1 t)

at_time-map :
    (t : ℤ) (es : List ActivityEntry)
    → at_time t (map brief es) ≡ map brief (filter_by (λ e. same e.wall_ms t) es)
at_time-map t [] = refl
at_time-map t (e ∷ es) = ground (arith, at_time-map t es)

abbrev word_of : Option (Bytes × Bytes) → Option Bytes
word_of none = none
word_of (some (word, _)) = some word

abbrev first_word : Option (Option (Bytes × Bytes)) → Option Bytes
first_word none = none
first_word (some shown) = word_of shown

-- The code's words are those of the table.
summary_of-word :
    (p : Projection) (me : UserId) (kind : OpKind) (shown : Option (Bytes × Bytes))
    → summary_of p me kind ≡ some shown
    → shown_as kind ≡ word_of shown
unfolding summary_of
summary_of-word p me (OpKind.create_group a b) shown h = ap first_word h
summary_of-word p me (OpKind.create_expense a b c d) shown h = ap first_word h
summary_of-word p me (OpKind.edit_expense a b) shown h = ap first_word h
summary_of-word p me (OpKind.void_expense a) shown h = ap first_word h
summary_of-word p me (OpKind.upsert_profile a b) shown h = ap first_word h
summary_of-word p me (OpKind.set_group_name a b) shown h = ap first_word h
summary_of-word p me (OpKind.set_group_currency a b) shown h = ap first_word h
summary_of-word p me (OpKind.set_membership a b c) shown h = ap first_word h
summary_of-word p me (OpKind.publish_expense a) shown h = ap first_word h
summary_of-word p me (OpKind.set_expense_lock a b) shown h = ap first_word h
summary_of-word p me (OpKind.set_closed_period a b) shown h = ap first_word h
summary_of-word p me (OpKind.void_settlement a) shown h = ap first_word h
summary_of-word p me (OpKind.add_alias a b) shown h = ap first_word h
summary_of-word p me (OpKind.declare_friend a) shown h = ap first_word h
summary_of-word p me (OpKind.set_agreement_key a b) shown h = ap first_word h
summary_of-word p me (OpKind.authorize_device a b c) shown h = ap first_word h
summary_of-word p me (OpKind.revoke_device a b) shown h = ap first_word h
summary_of-word p me (record_settlement a group from to amount) shown h =
    let (text, _, rest) =
      >>=-eq-some (money p group amount)
        (λ (text : Bytes). some (
          some (
            utf8 "settlement",
            display_name p from ++ (utf8 " paid " ++ (display_name p to ++ (b' ' ∷ text))),
          )))
        h in
    ap first_word rest

entries_of-brief :
    (p : Projection) (me : UserId) (ops : List Op) (entries : List ActivityEntry)
    → entries_of p me ops ≡ some entries
    → map brief entries ≡ shown_ops ops
unfolding entries_of
entries_of-brief p me [] entries h = ground arith
entries_of-brief p me (op ∷ ops) entries h =
    let (shown, said, h1) = >>=-eq-some (summary_of p me op.kind) _ h in
    let (rest, made, h2) = >>=-eq-some (entries_of p me ops) _ h1 in
    on_shown shown rest (summary_of-word p me op.kind shown said)
      (entries_of-brief p me ops rest made) h2
  where
    time : ℤ
    time = wrap_i64 (pos op.hlc.wall_ms)

    on_shown :
        (shown : Option (Bytes × Bytes)) (rest : List ActivityEntry)
        → shown_as op.kind ≡ word_of shown
        → map brief rest ≡ shown_ops ops
        → some (elim shown as (λ _. List ActivityEntry) [
          | none ↦ rest
          | some (kind, summary) ↦ record { kind = kind; summary = summary; wall_ms = time } ∷ rest
        ])
          ≡ some entries
        → map brief entries ≡ shown_ops (op ∷ ops)
    on_shown none rest word ih e =
        let same_entries : rest ≡ entries = cc in
        rw (word, shown_ops) (ap (map brief) (sym same_entries) ∙ ih)
    on_shown (some (kind, summary)) rest word ih e =
        let same_entries : record { kind = kind; summary = summary; wall_ms = time } ∷ rest
            ≡ entries =
          cc in
        rw (word, shown_ops) (ap (map brief) (sym same_entries) ∙ ap (◌∷◌ (kind, time)) ih)

-- Each entry of the feed is no later than the one before it, and the entries of any time stand for
-- the ops of that time that are of a kind to show, under the word of the kind and in the order of
-- the ops.
pub activity-IsOrdered :
    (ops : List Op) (p : Projection) (me : UserId) (feed : List ActivityEntry)
    → activity ops p me ≡ some feed
    → Neighbours (λ (newer older : ActivityEntry). older.wall_ms ≤ℤ newer.wall_ms) feed
      × ((t : ℤ) → at_time t (map brief feed) ≡ at_time t (shown_ops ops))
unfolding activity
activity-IsOrdered ops p me feed h =
    let (entries, made, sorted) =
      >>=-eq-some (entries_of p me ops) (λ es. some (sort_by latest_first es)) h in
    let same_feed : sort_by latest_first entries ≡ feed = cc in
    subst
      (λ shown.
        Neighbours (λ (newer older : ActivityEntry). older.wall_ms ≤ℤ newer.wall_ms) shown
        × ((t : ℤ) → at_time t (map brief shown) ≡ at_time t (shown_ops ops)))
      same_feed
      (
        IsOrdered-Neighbours latest_first _ (λ newer older later. ground arith) _
            (sort_by-IsOrdered latest_first latest_first-total entries),
        λ t.
            at_time-map t (sort_by latest_first entries)
            ∙ ap (map brief) (
                sort_by-stable latest_first (λ e. same e.wall_ms t) (λ x y hx hy. tied t x y hx hy)
                  entries)
            ∙ sym (at_time-map t entries)
            ∙ ap (at_time t) (entries_of-brief p me ops entries made),
      )
  where
    tied :
        (t : ℤ) (x y : ActivityEntry)
        → same x.wall_ms t ≡ true
        → same y.wall_ms t ≡ true
        → latest_first x y ≢ gt
    tied t x y hx hy = ground (arith, int_ord.eq_of_cmp x.wall_ms t, int_ord.eq_of_cmp y.wall_ms t)
