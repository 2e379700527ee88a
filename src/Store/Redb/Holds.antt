-- ===== src/Store/Redb/Holds.antt =====
-- When the rows of a durable log (splittr-store/src/redb_store.rs) are the ops of a map, and what the
-- packages under it document.
use splittr.Prelude.{
  ℕ, suc, Option, none, some, List, [], ◌∷◌, Result, ok, err, ◌≡◌, refl, sym, ap, ◌∙◌, arith,
  >>=-eq-some,
}
use splittr.Prelude.Ord.{Bytes, bytes_ord}
use splittr.Prelude.Lists.{length}
use splittr.BTree.{BTreeMap, get, insert, contains_key, values}
use splittr.Crdt.Op.{Op, OpId}
use splittr.Crypto.Aead.{Cipher, Decrypts, seal, open_blob-seal}
use splittr.Store.OpStore.{StoreError}
use splittr.Store.Redb.{Table, Postcard, encode, decode, collect_ops, is_some, sealed_with}

-- The entries that a pass over some rows gives: a row each, but for those that fail to be read.
abbrev pub Reads : List (Result Bytes (Bytes × Bytes)) → BTreeMap Bytes Bytes → Type 0
Reads [] [] = Unit
Reads [] (_ ∷ _) = ⊥
Reads (_ ∷ _) [] = ⊥
Reads (err _ ∷ es) (_ ∷ rows) = Reads es rows
Reads (ok e ∷ es) (row ∷ rows) = (e ≡ row) × Reads es rows

-- What redb documents: a table is an ordered map, `insert` gives the value that was there, and a
-- transaction that fails leaves the table as it was.
pub record IsTable {D : Type 0} (table : Table D) : Type 0 where
  pub rows : D → BTreeMap Bytes Bytes
  pub put_ok :
      (d d' : D) (k v : Bytes) (previous : Option Bytes)
      → table.put d k v ≡ (d', ok previous)
      → (rows d' ≡ insert k v (rows d)) × (previous ≡ get k (rows d))
  pub put_err : (d d' : D) (k v e : Bytes) → table.put d k v ≡ (d', err e) → rows d' ≡ rows d
  pub fetch_ok :
      (d : D) (k : Bytes) (o : Option Bytes) → table.fetch d k ≡ ok o → o ≡ get k (rows d)
  pub iter_ok :
      (d : D) (es : List (Result Bytes (Bytes × Bytes))) → table.iter d ≡ ok es → Reads es (rows d)
  pub count_ok : (d : D) (n : ℕ) → table.count d ≡ ok n → n ≡ length (rows d)

-- What postcard documents: an encoded op is decoded.
abbrev pub Decodes : Postcard → Op → Type 0
Decodes postcard op =
    (bytes : Bytes) → postcard.to_allocvec op ≡ ok bytes → postcard.from_bytes bytes ≡ ok op

pub some-injective : {A : Type 0} {a b : A} → some a ≡ some b → a ≡ b
some-injective e = cc

pub ok-injective : {E A : Type 0} {a b : A} → ◌≡◌ {A = Result E A} (ok a) (ok b) → a ≡ b
ok-injective e = cc

module _ (c : Cipher) (postcard : Postcard) where
  -- The rows are the ops of a map, encoded and encrypted, under the same keys.
  abbrev pub Holds : Option Bytes → BTreeMap Bytes Bytes → BTreeMap OpId Op → Type 0
  Holds cipher [] [] = Unit
  Holds cipher [] (_ ∷ _) = ⊥
  Holds cipher (_ ∷ _) [] = ⊥
  Holds cipher ((k, v) ∷ rows) ((id, op) ∷ held) =
      (k ≡ id) × (decode c postcard cipher v ≡ ok op) × Holds cipher rows held

  pub Holds-insert :
      (cipher : Option Bytes) (k v : Bytes) (op : Op) (rows : BTreeMap Bytes Bytes)
      (held : BTreeMap OpId Op)
      → decode c postcard cipher v ≡ ok op
      → Holds cipher rows held
      → Holds cipher (insert k v rows) (insert k op held)
  unfolding insert
  Holds-insert cipher k v op [] [] d h = (refl, d, tt)
  Holds-insert cipher k v op [] (_ ∷ held) d h = elim h [ ]
  Holds-insert cipher k v op (_ ∷ rows) [] d h = elim h [ ]
  Holds-insert cipher k v op ((q, w) ∷ rows) ((p, o) ∷ held) d (same_key, row, rest) =
      ground (arith, Holds-insert cipher k v op rows held d rest)

  pub Holds-get :
      (cipher : Option Bytes) (k : Bytes) (rows : BTreeMap Bytes Bytes) (held : BTreeMap OpId Op)
      → Holds cipher rows held
      → is_some (get k rows) ≡ contains_key k held
  unfolding get
  Holds-get cipher k [] [] h = refl
  Holds-get cipher k [] (_ ∷ held) h = elim h [ ]
  Holds-get cipher k (_ ∷ rows) [] h = elim h [ ]
  Holds-get cipher k ((q, w) ∷ rows) ((p, o) ∷ held) (same_key, row, rest) =
      ground (arith, Holds-get cipher k rows held rest)

  pub Holds-length :
      (cipher : Option Bytes) (rows : BTreeMap Bytes Bytes) (held : BTreeMap OpId Op)
      → Holds cipher rows held
      → length rows ≡ length held
  Holds-length cipher [] [] h = refl
  Holds-length cipher [] (_ ∷ held) h = elim h [ ]
  Holds-length cipher (_ ∷ rows) [] h = elim h [ ]
  Holds-length cipher (_ ∷ rows) (_ ∷ held) (_, _, rest) =
      ap suc (Holds-length cipher rows held rest)

  pub decode-encode :
      (cipher : Option Bytes) (nonce bytes : Bytes) (op : Op)
      → Decrypts c
      → Decodes postcard op
      → length nonce ≡ 24
      → encode c postcard cipher nonce op ≡ some (ok bytes)
      → decode c postcard cipher bytes ≡ ok op
  unfolding encode decode
  decode-encode cipher nonce bytes op law codec h e =
      on_encoded cipher (postcard.to_allocvec op) refl e
    where
      on_encoded :
          (cipher : Option Bytes) (r : Result Bytes Bytes)
          → postcard.to_allocvec op ≡ r
          → sealed_with c postcard cipher nonce r ≡ some (ok bytes)
          → decode c postcard cipher bytes ≡ ok op
      on_encoded cipher (err e) f k = cc
      on_encoded none (ok plain) f k = ground (arith, codec plain f)
      on_encoded (some key) (ok plain) f k =
          let (sealed, made, whole) = >>=-eq-some (seal c key nonce plain) (λ b. some (ok b)) k in
          ground (arith, open_blob-seal c key nonce plain sealed law h made, codec plain f)

  pub Holds-collect_ops :
      (cipher : Option Bytes) (es : List (Result Bytes (Bytes × Bytes)))
      (rows : BTreeMap Bytes Bytes) (held : BTreeMap OpId Op) (l : List Op)
      → Reads es rows
      → Holds cipher rows held
      → collect_ops c postcard cipher es ≡ ok l
      → l ≡ values held
  unfolding collect_ops
  Holds-collect_ops cipher [] [] [] l r h e = cc
  Holds-collect_ops cipher [] [] (_ ∷ held) l r h e = elim h [ ]
  Holds-collect_ops cipher [] (_ ∷ rows) held l r h e = elim r [ ]
  Holds-collect_ops cipher (_ ∷ es) [] held l r h e = elim r [ ]
  Holds-collect_ops cipher (_ ∷ es) (_ ∷ rows) [] l r h e = elim h [ ]
  Holds-collect_ops cipher (err _ ∷ es) (_ ∷ rows) (_ ∷ held) l r h e = cc
  Holds-collect_ops cipher (ok (q, v) ∷ es) ((k, w) ∷ rows) ((id, op) ∷ held) l (same_entry, r)
        (same_key, row, rest) e =
      on_rest (collect_ops c postcard cipher es)
        (λ l'. Holds-collect_ops cipher es rows held l' r rest)
        (sym (
            ap
              (λ o. elim o [
                | err e ↦ err e
                | ok op ↦ elim (collect_ops c postcard cipher es) [
                  | err e ↦ err e
                  | ok rest ↦ ok (op ∷ rest)
                ]
              ])
              (ap (λ (x : Bytes × Bytes). decode c postcard cipher x.1) same_entry ∙ row))
          ∙ e)
    where
      on_rest :
          (o : Result StoreError (List Op))
          → ((l' : List Op) → o ≡ ok l' → l' ≡ values held)
          → (elim o [ err e ↦ err e | ok rest ↦ ok (op ∷ rest) ]) ≡ ok l
          → l ≡ op ∷ values held
      on_rest (err e) ih k = cc
      on_rest (ok others) ih k = ground (arith, ih others refl)
