-- ===== src/Store/Redb/Refines.antt =====
-- The durable log (splittr-store/src/redb_store.rs) does what the log in memory does.
use splittr.Prelude.{
  ℕ, suc, Bool, Option, some, List, Result, ok, err, not, ◌≡◌, refl, sym, ap, ◌∙◌, >>=-eq-some,
}
use mathlib.Core.Path.{subst}
use splittr.Prelude.Ord.{Bytes, bytes_ord}
use splittr.Prelude.Lists.{length}
use splittr.BTree.{insert, contains_key, values}
use splittr.Crdt.Op.{Op, OpId}
use splittr.Crypto.Aead.{Cipher, Decrypts}
use splittr.Store.OpStore.{StoreError, MemoryOpStore, memory_append, backend}
use splittr.Store.Redb.{
  Table, Postcard, RedbOpStore, encode, decode, collect_ops, redb_append, redb_contains, redb_ops,
  redb_len, is_some, put_encoded, after_put, as_error,
}
use splittr.Store.Redb.Holds.{
  IsTable, Decodes, some-injective, ok-injective, Holds-insert, Holds-get, Holds-length,
  decode-encode, Holds-collect_ops, Holds,
}

module _ (c : Cipher) (postcard : Postcard) where
  module _ {D : Type 0} (table : Table D) (getrandom : ℕ → Bytes) (laws : IsTable table) where
    -- The table has the ops that a log in memory holds.
    abbrev pub Implements : RedbOpStore D → MemoryOpStore → Type 0
    Implements s m = Holds c postcard s.cipher (laws.rows s.db) m.held

    -- What an answer of `append` says of the two logs.
    abbrev pub AppendsAs : RedbOpStore D × Result StoreError Bool → MemoryOpStore → Op → Type 0
    AppendsAs (s, err e) m op = Implements s m
    AppendsAs (s, ok newly) m op =
        ((memory_append m op).1 ≡ ok newly) × Implements s (memory_append m op).0

    put-AppendsAs :
        (s : RedbOpStore D) (m : MemoryOpStore) (op : Op) (bytes : Bytes)
        → decode c postcard s.cipher bytes ≡ ok op
        → Implements s m
        → AppendsAs (after_put c postcard table getrandom s (table.put s.db op.id bytes)) m op
    unfolding memory_append
    put-AppendsAs s m op bytes d h = on_put (table.put s.db op.id bytes) refl
      where
        on_put :
            (x : D × Result Bytes (Option Bytes))
            → table.put s.db op.id bytes ≡ x
            → AppendsAs (after_put c postcard table getrandom s x) m op
        on_put (db, err e) f =
            subst (λ rows. Holds c postcard s.cipher rows m.held)
              (sym (laws.put_err s.db db op.id bytes e f)) h
        on_put (db, ok previous) f =
            let (now, before) = laws.put_ok s.db db op.id bytes previous f in
            (
              ap (λ b. ok (not b))
                  (sym (Holds-get c postcard s.cipher op.id (laws.rows s.db) m.held h)
                    ∙ ap is_some (sym before)),
              subst (λ rows. Holds c postcard s.cipher rows (insert op.id op m.held)) (sym now)
                  (Holds-insert c postcard s.cipher op.id bytes op (laws.rows s.db) m.held d h),
            )

    -- A durable log that has the ops of a log in memory answers an `append` as the log in memory does
    -- and has its ops after it, encrypted or not; if it answers with an error, its ops are as before.
    pub redb_append-refines :
        (s : RedbOpStore D) (m : MemoryOpStore) (op : Op)
        (after : RedbOpStore D × Result StoreError Bool)
        → Decrypts c
        → Decodes postcard op
        → ((n : ℕ) → length (getrandom n) ≡ 24)
        → Implements s m
        → redb_append c postcard table getrandom s op ≡ some after
        → AppendsAs after m op
    unfolding redb_append
    redb_append-refines s m op after law codec fresh h e =
        let nonce = getrandom s.drawn in
        let (encoded, made, whole) =
          >>=-eq-some (encode c postcard s.cipher nonce op)
            (λ encoded. some (
              put_encoded c postcard table getrandom (record s { drawn = suc s.drawn }) op encoded))
            e in
        on_encoded encoded made whole
      where
        on_encoded :
            (r : Result StoreError Bytes)
            → encode c postcard s.cipher (getrandom s.drawn) op ≡ some r
            → some (put_encoded c postcard table getrandom (record s { drawn = suc s.drawn }) op r)
              ≡ some after
            → AppendsAs after m op
        on_encoded (err x) f k = subst (λ a. AppendsAs a m op) (some-injective k) h
        on_encoded (ok bytes) f k =
            subst (λ a. AppendsAs a m op) (some-injective k)
              (put-AppendsAs (record s { drawn = suc s.drawn }) m op bytes
                (decode-encode c postcard s.cipher (getrandom s.drawn) bytes op law codec
                  (fresh s.drawn) f)
                h)

    -- What a durable log answers to `contains`, `ops` and `len` without an error is what the log in
    -- memory with the same ops answers, the order of the ops included.
    pub redb_reads-refine :
        (s : RedbOpStore D) (m : MemoryOpStore) (id : OpId) (b : Bool) (l : List Op) (n : ℕ)
        → Implements s m
        → redb_contains c postcard table getrandom s id ≡ ok b
        → redb_ops c postcard table getrandom s ≡ ok l
        → redb_len c postcard table getrandom s ≡ ok n
        → (b ≡ contains_key id m.held) × (l ≡ values m.held) × (n ≡ length m.held)
    unfolding redb_contains redb_ops redb_len
    redb_reads-refine s m id b l n h contained listed counted = (
      on_fetch (table.fetch s.db id) refl contained,
      on_iter (table.iter s.db) refl listed,
      on_count (table.count s.db) refl counted,
    )
      where
        on_fetch :
            (x : Result Bytes (Option Bytes))
            → table.fetch s.db id ≡ x
            → (elim x [ err e ↦ err (backend e) | ok value ↦ ok (is_some value) ]) ≡ ok b
            → b ≡ contains_key id m.held
        on_fetch (err e) f k = cc
        on_fetch (ok value) f k =
            sym (ok-injective k)
            ∙ ap is_some (laws.fetch_ok s.db id value f)
            ∙ Holds-get c postcard s.cipher id (laws.rows s.db) m.held h

        on_iter :
            (x : Result Bytes (List (Result Bytes (Bytes × Bytes))))
            → table.iter s.db ≡ x
            → (elim x [
              | err e ↦ err (backend e)
              | ok entries ↦ collect_ops c postcard s.cipher entries
            ])
              ≡ ok l
            → l ≡ values m.held
        on_iter (err e) f k = cc
        on_iter (ok es) f k =
            Holds-collect_ops c postcard s.cipher es (laws.rows s.db) m.held l
              (laws.iter_ok s.db es f) h k

        on_count :
            (x : Result Bytes ℕ)
            → table.count s.db ≡ x
            → as_error backend x ≡ ok n
            → n ≡ length m.held
        on_count (err e) f k = cc
        on_count (ok i) f k =
            sym (ok-injective k)
            ∙ laws.count_ok s.db i f
            ∙ Holds-length c postcard s.cipher (laws.rows s.db) m.held h
