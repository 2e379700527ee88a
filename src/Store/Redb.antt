-- ===== src/Store/Redb.antt =====
-- splittr-store/src/redb_store.rs: the durable log. The tables of the package redb and the encoding
-- of the package postcard are parameters.
pub mod Holds
pub mod Refines
use splittr.Prelude.{
  ℕ, suc, Bool, true, false, Option, none, some, List, [], ◌∷◌, Result, ok, err, ◌>>=◌, not,
}
use splittr.Prelude.Ord.{Bytes}
use splittr.Crdt.Op.{Op, OpId}
use splittr.Crypto.Aead.{Cipher, seal, open_blob}
use splittr.Store.OpStore.{StoreError, serialize, backend, decrypt}

-- One transaction on the table "ops" with its commit; an error is the text of the package's error.
pub record Table (D : Type 0) : Type 0 where
  pub put : D → (key value : Bytes) → D × Result Bytes (Option Bytes)
  pub fetch : D → Bytes → Result Bytes (Option Bytes)
  pub iter : D → Result Bytes (List (Result Bytes (Bytes × Bytes)))
  pub count : D → Result Bytes ℕ

pub record Postcard : Type 0 where
  pub to_allocvec : Op → Result Bytes Bytes
  pub from_bytes : Bytes → Result Bytes Op

-- `drawn` counts the appends: each takes the next of the nonces that the operating system gives.
pub record RedbOpStore (D : Type 0) : Type 0 where
  pub db : D
  pub cipher : Option Bytes
  pub drawn : ℕ

-- A `map_err`.
abbrev pub as_error : {A : Type 0} → (Bytes → StoreError) → Result Bytes A → Result StoreError A
as_error f (err e) = err (f e)
as_error f (ok a) = ok a

abbrev pub is_some : {A : Type 0} → Option A → Bool
is_some none = false
is_some (some _) = true

module _ (c : Cipher) (postcard : Postcard) where
  -- The rest of `encode`; `none` is a panic of the encryption.
  abbrev pub sealed_with :
      Option Bytes → (nonce : Bytes) → Result Bytes Bytes → Option (Result StoreError Bytes)
  sealed_with cipher nonce (err e) = some (err (serialize e))
  sealed_with none nonce (ok bytes) = some (ok bytes)
  sealed_with (some key) nonce (ok bytes) = seal c key nonce bytes >>= λ sealed. some (ok sealed)

  unfoldable pub encode : Option Bytes → (nonce : Bytes) → Op → Option (Result StoreError Bytes)
  unfolding seal
  encode cipher nonce op = sealed_with cipher nonce (postcard.to_allocvec op)

  abbrev pub decoded_op : Option Bytes → Result StoreError Op
  decoded_op none = err decrypt
  decoded_op (some bytes) = as_error serialize (postcard.from_bytes bytes)

  unfoldable pub decode : Option Bytes → Bytes → Result StoreError Op
  unfolding open_blob
  decode none stored = decoded_op (some stored)
  decode (some key) stored = decoded_op (open_blob c key stored)

  -- The loop of `ops` over the entries of the table.
  unfoldable pub collect_ops :
      Option Bytes → List (Result Bytes (Bytes × Bytes)) → Result StoreError (List Op)
  unfolding decode
  collect_ops cipher [] = ok []
  collect_ops cipher (err e ∷ _) = err (backend e)
  collect_ops cipher (ok (_, value) ∷ entries) = elim (decode cipher value) [
    | err e ↦ err e
    | ok op ↦ elim (collect_ops cipher entries) [ err e ↦ err e | ok rest ↦ ok (op ∷ rest) ]
  ]

  module _ {D : Type 0} (table : Table D) (getrandom : ℕ → Bytes) where
    -- What is answered once the row is put.
    abbrev pub after_put :
        RedbOpStore D → D × Result Bytes (Option Bytes) → RedbOpStore D × Result StoreError Bool
    after_put s (db, err e) = (record s { db = db }, err (backend e))
    after_put s (db, ok previous) = (record s { db = db }, ok (not (is_some previous)))

    abbrev pub put_encoded :
        RedbOpStore D → Op → Result StoreError Bytes → RedbOpStore D × Result StoreError Bool
    put_encoded s op (err e) = (s, err e)
    put_encoded s op (ok bytes) = after_put s (table.put s.db op.id bytes)

    unfoldable pub redb_append :
        RedbOpStore D → Op → Option (RedbOpStore D × Result StoreError Bool)
    unfolding encode
    redb_append s op = encode s.cipher (getrandom s.drawn) op >>= λ encoded.
        some (put_encoded (record s { drawn = suc s.drawn }) op encoded)

    unfoldable pub redb_contains : RedbOpStore D → OpId → Result StoreError Bool
    redb_contains s id = elim (table.fetch s.db id) [
      | err e ↦ err (backend e)
      | ok value ↦ ok (is_some value)
    ]

    unfoldable pub redb_ops : RedbOpStore D → Result StoreError (List Op)
    unfolding collect_ops
    redb_ops s = elim (table.iter s.db) [
      | err e ↦ err (backend e)
      | ok entries ↦ collect_ops s.cipher entries
    ]

    unfoldable pub redb_len : RedbOpStore D → Result StoreError ℕ
    redb_len s = as_error backend (table.count s.db)
