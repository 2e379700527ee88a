-- ===== src/Examples/Shown.antt =====
-- Runs of the queries, of the identity and of the border to the user interface.
use splittr.Prelude.{ℕ, zero, suc, ◌<◌, false, none, some, List, [], ◌∷◌, map, ◌≡◌, refl, arith, ok}
use splittr.Prelude.Int.{ℤ, pos, wrap, ◌≤ℤ◌, ◌+ℤ◌, ◌-ℤ◌}
use splittr.Prelude.Ord.{Bytes, bytes_ord, cmp_bytes}
use splittr.Prelude.Folds.{All}
use splittr.Prelude.Sorted.{Neighbours}
use splittr.Prelude.Text.{utf8, zeros}
use splittr.Domain.Money.{add, sub}
use splittr.Crdt.Identity.{hex32}
use splittr.Crdt.Projection.{Projection, ExpenseRecord}
use splittr.Crdt.Balance.{net_expense}
use splittr.Domain.Debt.{simplify_debts}
use splittr.App.Query.Views.{group_detail, GroupDetail, ExpenseView, map_or_panic}
use splittr.App.Query.Activity.{ActivityEntry, activity, entries_of, summary_of}
use splittr.App.Query.Ordered.{activity-IsOrdered, at_time, brief, shown_ops}
use splittr.App.Query.Recent.{group_detail-ShowsExpenses, ShowsExpenses}
use splittr.Ffi.Hex.{parse_hex32, parse_hex32-hex32, parse_pairs, from_radix16}
use splittr.Examples.Data.{alice, bob, dinner, shared, found_group, name_alice}
use splittr.Examples.Trip.{travelling, trip}

abbrev feed : List ActivityEntry
feed =
    record { kind = utf8 "person"; summary = utf8 "Added Alice"; wall_ms = pos 2 }
    ∷ record { kind = utf8 "group"; summary = utf8 "Created the group \"Trip\""; wall_ms = pos 1 }
    ∷ []

feed-shown : activity (found_group ∷ name_alice ∷ []) shared alice ≡ some feed
unfolding activity entries_of summary_of cmp_bytes wrap
feed-shown = refl

activity-IsOrdered_example :
    Neighbours (λ (newer older : ActivityEntry). older.wall_ms ≤ℤ newer.wall_ms) feed
    × ((t : ℤ) → at_time t (map brief feed) ≡ at_time t (shown_ops (found_group ∷ name_alice ∷ [])))
activity-IsOrdered_example =
    activity-IsOrdered (found_group ∷ name_alice ∷ []) shared alice feed feed-shown

-- The trip with two drafts, the second one of a later date.
abbrev drafted : ℤ → ExpenseRecord
drafted date_ms = record {
  group = some trip;
  fields = record dinner { date_ms = date_ms };
  locked = false;
  published = false;
}

abbrev planned : Projection
planned = record travelling {
  expenses = (utf8 "d", drafted (pos 0)) ∷ (utf8 "e", drafted (pos 5)) ∷ [];
  settlements = [];
}

abbrev view_of : Bytes → ℤ → ExpenseView
view_of id date_ms = record {
  id = id;
  group = some trip;
  group_name = some (utf8 "Trip");
  description = [];
  total = pos 1000;
  currency = utf8 "EUR";
  category = utf8 "general";
  date_ms = date_ms;
  notes = none;
  my_net = pos 500;
  locked = false;
  published = false;
  original = none;
  paid_by = record { user = alice; name = alice; cents = pos 1000 } ∷ [];
  splits =
      record { user = alice; name = alice; cents = pos 500 }
      ∷ record { user = bob; name = bob; cents = pos 500 }
      ∷ [];
}

abbrev detail : GroupDetail
detail = record {
  id = trip;
  name = utf8 "Trip";
  currency = utf8 "EUR";
  members =
      record { user = alice; name = alice; net = pos 0 }
      ∷ record { user = bob; name = bob; net = pos 0 }
      ∷ [];
  expenses = view_of (utf8 "e") (pos 5) ∷ view_of (utf8 "d") (pos 0) ∷ [];
  settlements = [];
  settle_up = [];
}

detail-shown : group_detail planned alice trip ≡ some (some detail)
unfolding group_detail cmp_bytes net_expense add sub ◌+ℤ◌ ◌-ℤ◌ map_or_panic simplify_debts
detail-shown = refl

group_detail-ShowsExpenses_example : ShowsExpenses planned alice trip detail
group_detail-ShowsExpenses_example =
    group_detail-ShowsExpenses planned alice trip detail detail-shown

zeros_bytes : (n : ℕ) → All (λ b. b < 256) (zeros n)
zeros_bytes zero = tt
zeros_bytes (suc n) = (omega arith, zeros_bytes n)

parse_hex32-hex32_example : parse_hex32 (hex32 (zeros 32)) ≡ some (ok (zeros 32))
parse_hex32-hex32_example = parse_hex32-hex32 (zeros 32) refl (zeros_bytes 32)

-- A plus sign in front of a digit passes for a hexadecimal byte.
plus_taken : parse_pairs (utf8 "+f") ≡ some (ok (15 ∷ []))
unfolding parse_pairs from_radix16
plus_taken = refl

-- A character of three bytes is cut by a slice, which panics.
character_cut : parse_pairs (226 ∷ 130 ∷ 172 ∷ 48 ∷ []) ≡ none
unfolding parse_pairs
character_cut = refl
