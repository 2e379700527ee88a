-- ===== src/Examples/Data.antt =====
-- Users, a dinner and ops for the concrete runs.
use splittr.Prelude.{ℕ, true, false, none, [], ◌∷◌, if◌then◌else◌}
use splittr.Prelude.Int.{pos}
use splittr.Prelude.Ord.{Bytes, same, bytes_ord}
use splittr.Prelude.Text.{utf8}
use splittr.Domain.Ids.{UserId}
use splittr.Domain.Expense.{ExpenseFields, new_fields}
use splittr.Crdt.Clock.{Hlc}
use splittr.Crdt.Op.{Op, OpId, Crypto, create_group, upsert_profile}
use splittr.Crdt.Projection.{Projection}
use splittr.Store.OpStore.{MemoryOpStore}
use splittr.Store.Repository.{Repository}

abbrev pub alice : UserId
alice = utf8 "a"

abbrev pub bob : UserId
bob = utf8 "b"

-- Alice paid 10.00 and both owe half.
abbrev pub dinner : ExpenseFields
dinner =
    new_fields ((alice, pos 1000) ∷ []) (pos 1000)
      (record { user = alice; owed = pos 500 } ∷ record { user = bob; owed = pos 500 } ∷ [])

-- The dinner, and 2.00 that Bob has paid back.
abbrev pub shared : Projection
shared = record {
  groups = [];
  users = [];
  expenses =
      (utf8 "d", record { group = none; fields = dinner; locked = false; published = true }) ∷ [];
  settlements = (utf8 "s", record { group = none; from = bob; to = alice; amount = pos 200 }) ∷ [];
  aliases = [];
  devices = [];
  friends = [];
}

abbrev pub key : Bytes
key = utf8 "K"

abbrev pub at_ms : ℕ → Hlc
at_ms t = record { wall_ms = t; counter = 0; site = 1 }

-- Ids and signatures that are the content itself, and a content of the time and the author.
abbrev pub plain : Crypto
plain = record {
  SigningKey = Bytes;
  public = λ k. k;
  sign = λ k m. m;
  check = λ k m s. same m s;
  hash = λ m. m;
  encode = λ hlc author kind. hlc.wall_ms ∷ author;
}

abbrev pub found_group : Op
found_group = record {
  id = 1 ∷ key;
  hlc = at_ms 1;
  author = key;
  sig = 1 ∷ key;
  kind = create_group (utf8 "g") (utf8 "Trip");
}

abbrev pub name_alice : Op
name_alice = record {
  id = 2 ∷ key;
  hlc = at_ms 2;
  author = key;
  sig = 2 ∷ key;
  kind = upsert_profile (utf8 "user:a") (utf8 "Alice");
}

abbrev pub first_or_second : OpId → Op
first_or_second id = if same id found_group.id then found_group else name_alice

abbrev pub holding : Op → Repository MemoryOpStore
holding op = record {
  store = record { held = (op.id, op) ∷ [] };
  materializer = record { ops = (op.id, op) ∷ [] };
  cached = none;
}
