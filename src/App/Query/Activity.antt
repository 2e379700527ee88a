-- ===== src/App/Query/Activity.antt =====
-- The feed of recent activity (splittr-app/src/query.rs).
use splittr.Prelude.{Option, none, some, List, [], ◌∷◌, ◌++◌, ◌>>=◌, if◌then◌else◌, Ordering}
use splittr.Prelude.Int.{ℤ, pos, cmp_ℤ, wrap_i64}
use splittr.Prelude.Ord.{Bytes, same, bytes_ord}
use splittr.Prelude.Lists.{sort_by}
use splittr.Prelude.Text.{utf8}
use splittr.Domain.Ids.{UserId, GroupId}
use splittr.Domain.Money.{Cents, format_units}
use splittr.Domain.Currency.{minor_units}
use splittr.Crdt.Op.{
  Op, OpKind, create_group, create_expense, void_expense, record_settlement, upsert_profile,
}
use splittr.Crdt.Projection.{Projection}
use splittr.App.Query.Views.{display_name, group_of, currency_of}

pub record ActivityEntry : Type 0 where
  pub kind : Bytes
  pub summary : Bytes
  pub wall_ms : ℤ

-- An amount in the currency of its group. `none` is a panic of `format_units`.
unfoldable pub money : Projection → Option GroupId → Cents → Option Bytes
unfolding format_units minor_units
money p group amount = format_units amount (minor_units (currency_of (group_of p group)))

-- A text in double quotes.
abbrev pub quoted : Bytes → Bytes
quoted s = b'"' ∷ s ++ b'"' ∷ []

-- What the feed says of an op, if it is shown; the outer `none` is a panic.
unfoldable pub summary_of : Projection → (me : UserId) → OpKind → Option (Option (Bytes × Bytes))
unfolding display_name money
summary_of p me (create_group _ name) =
    some (some (utf8 "group", utf8 "Created the group " ++ quoted name))
summary_of p me (create_expense _ _ fields _) =
    some (some (utf8 "expense", utf8 "Added " ++ quoted fields.description))
summary_of p me (OpKind.edit_expense _ fields) =
    some (some (utf8 "edit", utf8 "Edited " ++ quoted fields.description))
summary_of p me (void_expense _) = some (some (utf8 "delete", utf8 "Deleted an expense"))
summary_of p me (record_settlement _ group from to amount) = money p group amount >>= λ shown.
    some (
      some (
        utf8 "settlement",
        display_name p from ++ (utf8 " paid " ++ (display_name p to ++ (b' ' ∷ shown))),
      ))
summary_of p me (upsert_profile user name) = some (
    some (
      utf8 "person",
      if same user me then utf8 "You set your name to " ++ name else utf8 "Added " ++ name,
    ))
summary_of p me _ = some none

-- The `filter_map`.
unfoldable pub entries_of : Projection → (me : UserId) → List Op → Option (List ActivityEntry)
unfolding summary_of
entries_of p me [] = some []
entries_of p me (op ∷ rest) = summary_of p me op.kind >>= λ shown.
    entries_of p me rest >>= λ entries. some (elim shown [
      | none ↦ entries
      | some (kind, summary) ↦
          record { kind = kind; summary = summary; wall_ms = wrap_i64 (pos op.hlc.wall_ms) }
          ∷ entries
    ])

-- The latest first; entries of one time stay in the order of the ops.
abbrev pub latest_first : ActivityEntry → ActivityEntry → Ordering
latest_first a b = cmp_ℤ b.wall_ms a.wall_ms

unfoldable pub activity : List Op → Projection → (me : UserId) → Option (List ActivityEntry)
unfolding entries_of sort_by
activity ops p me = entries_of p me ops >>= λ entries. some (sort_by latest_first entries)
