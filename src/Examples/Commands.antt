-- ===== src/Examples/Commands.antt =====
-- Runs of the commands.
use splittr.Prelude.{true, false, none, some, [], ◌∷◌, ok, err, ◌≡◌, refl, inr}
use splittr.Prelude.Int.{pos, ◌<ℤ◌}
use splittr.Prelude.Ord.{Bytes, same, cmp_bytes, bytes_ord}
use splittr.Prelude.Text.{utf8}
use splittr.BTree.{get, get_or}
use splittr.Domain.Split.{equal}
use splittr.Crdt.Op.{verify, signed}
use splittr.Store.OpStore.{MemoryOpStore, memory_store, memory_append}
use splittr.Store.Repository.{append_op, read_projection}
use splittr.App.Clock.{next}
use splittr.App.Identity.{Seeds}
use splittr.App.Error.{validation}
use splittr.App.Fields.{ExpenseFieldsInput}
use splittr.App.Commands.{
  App, look, editable_answer, delete_expense, create_settlement, commit_signed, require_editable,
}
use splittr.App.Commands.Guards.{IsEditable, changed-IsEditable, tested, create_settlement-distinct}
use splittr.Examples.Data.{alice, bob, dinner, key, plain, shared, at_ms}
use splittr.Examples.Trip.{trip}

abbrev pub plain_seeds : Seeds plain
plain_seeds = record {
  AgreementKey = Bytes;
  signing_key = λ s. s;
  agreement_key = λ s. s;
  agreement_of = λ k. k;
}

-- The dinner and the payment are memoized; the log is of no matter here.
abbrev opened : App plain plain_seeds MemoryOpStore
opened = record {
  identity = record { identity_pub = key; user_id = alice; device = key; root = none };
  repo = record {
    store = record { held = [] };
    materializer = record { ops = [] };
    cached = some shared;
  };
  clock = record { site = 1; last = at_ms 0 };
}

abbrev typed_again : ExpenseFieldsInput
typed_again = record {
  description = utf8 "Dinner";
  paid_by = (alice, pos 1000) ∷ [];
  total = pos 1000;
  split = equal (alice ∷ bob ∷ []);
  category = [];
  notes = none;
  date_ms = pos 0;
  original = none;
}

-- The trip has closed all up to 3, and the dinner is of 5.
abbrev closing : App plain plain_seeds MemoryOpStore
closing = record opened {
  repo = record {
    store = record { held = [] };
    materializer = record { ops = [] };
    cached = some (record shared {
      groups =
          (
            trip,
            record {
              name = utf8 "Trip";
              currency = utf8 "EUR";
              members = (alice, tt) ∷ (bob, tt) ∷ [];
              closed_until_ms = pos 3;
            },
          )
          ∷ [];
      expenses =
          (
            utf8 "d",
            record {
              group = some trip;
              fields = record dinner { date_ms = pos 5 };
              locked = false;
              published = true;
            },
          )
          ∷ [];
    });
  };
}

abbrev deleted : App plain plain_seeds MemoryOpStore
deleted = (delete_expense plain plain_seeds MemoryOpStore 7 closing (utf8 "d")).0

dinner-deleted :
    delete_expense plain plain_seeds MemoryOpStore 7 closing (utf8 "d") ≡ (deleted, ok tt)
unfolding delete_expense require_editable commit_signed get read_projection cmp_bytes append_op
    verify signed next memory_append
dinner-deleted = refl

-- With all up to 5 closed, the dinner of 5 is in the closed period.
dinner-closed :
    editable_answer plain plain_seeds MemoryOpStore
      (record shared {
        groups =
            (
              trip,
              record {
                name = utf8 "Trip";
                currency = utf8 "EUR";
                members = [];
                closed_until_ms = pos 5;
              },
            )
            ∷ [];
      })
      (utf8 "d")
      (some (record {
        group = some trip;
        fields = record dinner { date_ms = pos 5 };
        locked = false;
        published = true;
      }))
    ≡ err (validation (utf8 "expense is in a closed period"))
unfolding get cmp_bytes
dinner-closed = refl

changed-IsEditable_example :
    IsEditable plain plain_seeds MemoryOpStore
      (look plain plain_seeds MemoryOpStore closing).1
      (utf8 "d")
changed-IsEditable_example =
    changed-IsEditable plain plain_seeds MemoryOpStore 7 closing deleted (utf8 "d") typed_again
      (inr dinner-deleted)

abbrev paid : App plain plain_seeds MemoryOpStore
paid =
    (create_settlement plain plain_seeds MemoryOpStore 7 opened (utf8 "x") none bob alice
      (pos 300)).0

bob-paid :
    create_settlement plain plain_seeds MemoryOpStore 7 opened (utf8 "x") none bob alice (pos 300)
    ≡ (paid, ok (utf8 "settlement:x"))
unfolding create_settlement commit_signed get read_projection cmp_bytes append_op verify signed next
    memory_append
bob-paid = refl

create_settlement-distinct_example :
    (same
        (get_or bob bob (tested plain plain_seeds MemoryOpStore opened none).1.aliases)
        (get_or alice alice (tested plain plain_seeds MemoryOpStore opened none).1.aliases)
      ≡ false)
    × (pos 0 <ℤ pos 300)
create_settlement-distinct_example =
    create_settlement-distinct plain plain_seeds MemoryOpStore 7 opened paid (utf8 "x") none bob
      alice (pos 300) (utf8 "settlement:x") bob-paid
