-- ===== src/Examples/Durable.antt =====
-- Runs of the durable log, over a table that is a map in memory.
use splittr.Prelude.{ℕ, some, List, [], ◌∷◌, map, ◌≡◌, refl, ok, Result, true, ◌++◌}
use mathlib.Core.Path.{subst}
use splittr.Prelude.Ord.{Bytes, bytes_ord, cmp_bytes}
use splittr.Prelude.Lists.{length}
use splittr.Prelude.Text.{zeros}
use splittr.BTree.{BTreeMap, get, insert, contains_key, values}
use splittr.Crypto.Aead.{seal, open_blob}
use splittr.Store.OpStore.{MemoryOpStore}
use splittr.Store.Redb.{
  Table, Postcard, RedbOpStore, encode, decode, collect_ops, redb_append, redb_contains, redb_ops,
  redb_len,
}
use splittr.Store.Redb.Holds.{IsTable, Reads, Decodes}
use splittr.Store.Redb.Refines.{Implements, AppendsAs, redb_append-refines, redb_reads-refine}
use splittr.Examples.Data.{found_group}
use splittr.Examples.Ciphers.{open_cipher, open_cipher-Decrypts}

abbrev Rows : Type 0
Rows = BTreeMap Bytes Bytes

abbrev table : Table Rows
table = record {
  put = λ d k v. (insert k v d, ok (get k d));
  fetch = λ d k. ok (get k d);
  iter = λ d. ok (map ok d);
  count = λ d. ok (length d);
}

all_read : (d : Rows) → Reads (map ok d) d
all_read [] = tt
all_read (row ∷ d) = (refl, all_read d)

read_all : (d : Rows) (es : List (Result Bytes (Bytes × Bytes))) → table.iter d ≡ ok es → Reads es d
read_all d es e = subst (λ xs. Reads xs d) (ok_eq e) (all_read d)
  where
    ok_eq : table.iter d ≡ ok es → map ok d ≡ es
    ok_eq h = cc

table-IsTable : IsTable table
table-IsTable = record {
  rows = λ d. d;
  put_ok = λ d d' k v previous e. (cc, cc);
  put_err = λ d d' k v x e. absurd (cc);
  fetch_ok = λ d k o e. cc;
  iter_ok = read_all;
  count_ok = λ d n e. cc;
}

-- An encoding of the one op.
abbrev only_op : Postcard
only_op = record { to_allocvec = λ _. ok (5 ∷ []); from_bytes = λ _. ok found_group }

only_op-Decodes : Decodes only_op found_group
only_op-Decodes bytes e = refl

abbrev drawing : ℕ → Bytes
drawing _ = zeros 24

abbrev empty_log : RedbOpStore Rows
empty_log = record { db = []; cipher = some []; drawn = 0 }

abbrev stored_log : RedbOpStore Rows
stored_log = record {
  db = (found_group.id, 1 ∷ zeros 24 ++ (5 ∷ [])) ∷ [];
  cipher = some [];
  drawn = 1;
}

abbrev one : ℕ
one = 1

abbrev in_memory : MemoryOpStore
in_memory = record { held = (found_group.id, found_group) ∷ [] }

op-appended :
    redb_append open_cipher only_op table drawing empty_log found_group ≡ some (stored_log, ok true)
unfolding redb_append encode seal insert get
op-appended = refl

empty-Implements :
    Implements open_cipher only_op table drawing table-IsTable empty_log (record { held = [] })
unfolding table-IsTable
empty-Implements = tt

redb_append-refines_example :
    AppendsAs open_cipher only_op table drawing table-IsTable
      (stored_log, ok true)
      (record { held = [] })
      found_group
redb_append-refines_example =
    redb_append-refines open_cipher only_op table drawing table-IsTable empty_log
      (record { held = [] }) found_group (stored_log, ok true) open_cipher-Decrypts only_op-Decodes
      (λ _. refl) empty-Implements op-appended

log-Implements : Implements open_cipher only_op table drawing table-IsTable stored_log in_memory
unfolding decode open_blob table-IsTable
log-Implements = (refl, refl, tt)

log-contains : redb_contains open_cipher only_op table drawing stored_log found_group.id ≡ ok true
unfolding redb_contains get cmp_bytes
log-contains = refl

log-ops : redb_ops open_cipher only_op table drawing stored_log ≡ ok (found_group ∷ [])
unfolding redb_ops decode open_blob collect_ops
log-ops = refl

log-len : redb_len open_cipher only_op table drawing stored_log ≡ ok 1
unfolding redb_len
log-len = refl

redb_reads-refine_example :
    (true ≡ contains_key found_group.id in_memory.held)
    × ((found_group ∷ []) ≡ values in_memory.held)
    × (one ≡ length in_memory.held)
redb_reads-refine_example =
    redb_reads-refine open_cipher only_op table drawing table-IsTable stored_log in_memory
      found_group.id true (found_group ∷ []) 1 log-Implements log-contains log-ops log-len
