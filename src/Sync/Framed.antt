-- ===== src/Sync/Framed.antt =====
-- splittr-sync/src/framed.rs: messages as frames of a byte stream, a four-byte length and the bytes.
-- The encoding of a message is the package postcard's, a parameter; the stream that was written is
-- what the other end reads.
use splittr.Prelude.{
  ℕ, zero, suc, ◌*◌, ◌≤◌, ◌^◌, Option, none, some, List, [], ◌∷◌, ◌++◌, ◌≡◌, refl, leb, ltb,
  if◌then◌else◌, Result, ok, err, arith, sym, ap, ◌∙◌,
}
use splittr.Prelude.Ord.{Bytes}
use splittr.Prelude.Lists.{length}
use splittr.Prelude.Folds.{All}
use splittr.Crypto.Bytes.{
  take, drop, be_bytes32, from_be, from_be-be_bytes32, take-append, drop-append, length-append,
}
use splittr.Sync.Reconcile.{SyncMessage}

-- `to_bytes` and `from_bytes` of `SyncMessage`.
pub record Wire : Type 0 where
  pub to_bytes : SyncMessage → Bytes
  pub from_bytes : Bytes → Option SyncMessage

-- What postcard documents: an encoded message is decoded.
abbrev pub Decodes : Wire → SyncMessage → Type 0
Decodes wire m = wire.from_bytes (wire.to_bytes m) ≡ some m

-- Of the errors of a stream, the one that its end gives.
pub data FramedError : Type 0 where
  io_unexpected_eof frame_too_large decode : FramedError

abbrev pub max_frame_len : ℕ
max_frame_len = 64 * 1024 * 1024

-- `read_exact`: the bytes, and what is left of the stream.
unfoldable pub read_exact : ℕ → Bytes → Result FramedError (Bytes × Bytes)
read_exact n stream =
    if leb n (length stream) then ok (take n stream, drop n stream) else err io_unexpected_eof

read_exact-append :
    (n : ℕ) (xs rest : Bytes) → length xs ≡ n → read_exact n (xs ++ rest) ≡ ok (xs, rest)
unfolding read_exact
read_exact-append n xs rest h =
    grind (arith, take-append n xs rest h, drop-append n xs rest h, length-append xs rest)

append_assoc : (xs ys zs : Bytes) → (xs ++ ys) ++ zs ≡ xs ++ (ys ++ zs)
append_assoc [] ys zs = refl
append_assoc (x ∷ xs) ys zs = ap (λ r. x ∷ r) (append_assoc xs ys zs)

module _ (wire : Wire) where
  -- The bytes put on the stream. A length that is no `u32` is refused as one beyond the maximum is.
  unfoldable pub send : SyncMessage → Result FramedError Bytes
  send msg =
      let bytes = wire.to_bytes msg in
      let len = length bytes in
      if leb (2 ^ 32) len
      then err frame_too_large
      else if ltb max_frame_len len
      then err frame_too_large
      else ok (be_bytes32 len ++ bytes)

  -- `SyncMessage::from_bytes(&buf).ok_or(FramedError::Decode)`
  abbrev pub decoded : Bytes × Bytes → Result FramedError (SyncMessage × Bytes)
  decoded (buf, rest) = elim (wire.from_bytes buf) [ none ↦ err decode | some msg ↦ ok (msg, rest) ]

  abbrev pub with_length : Bytes × Bytes → Result FramedError (SyncMessage × Bytes)
  with_length (len_buf, rest) =
      let len = from_be 0 len_buf in
      if ltb max_frame_len len
      then err frame_too_large
      else elim (read_exact len rest) [ err e ↦ err e | ok parts ↦ decoded parts ]

  -- A message from the stream, with what is left of it.
  unfoldable pub recv : Bytes → Result FramedError (SyncMessage × Bytes)
  unfolding read_exact from_be
  recv stream = elim (read_exact 4 stream) [ err e ↦ err e | ok parts ↦ with_length parts ]

  -- All the messages that one end sends, in order; the first that is too large ends it.
  unfoldable pub send_all : List SyncMessage → Result FramedError Bytes
  unfolding send
  send_all [] = ok []
  send_all (m ∷ ms) = elim (send m) [
    | err e ↦ err e
    | ok bytes ↦ elim (send_all ms) [ err e ↦ err e | ok rest ↦ ok (bytes ++ rest) ]
  ]

  -- So many messages from the stream.
  unfoldable pub recv_many : ℕ → Bytes → Result FramedError (List SyncMessage × Bytes)
  unfolding recv
  recv_many zero stream = ok ([], stream)
  recv_many (suc n) stream = elim (recv stream) [
    | err e ↦ err e
    | ok (m, after) ↦ elim (recv_many n after) [ err e ↦ err e | ok (ms, rest) ↦ ok (m ∷ ms, rest) ]
  ]

  -- A message is sent if and only if its encoding fits a frame.
  send-fits :
      (m : SyncMessage) (stream : Bytes)
      → send m ≡ ok stream
      → (length (wire.to_bytes m) ≤ max_frame_len)
        × (be_bytes32 (length (wire.to_bytes m)) ++ wire.to_bytes m ≡ stream)
  unfolding send
  send-fits m stream h = ground arith

  recv-frame :
      (buf rest : Bytes)
      → length buf ≤ max_frame_len
      → recv ((be_bytes32 (length buf) ++ buf) ++ rest) ≡ decoded (buf, rest)
  unfolding recv
  recv-frame buf rest h =
      let len = length buf in
      let header =
        ap (λ stream. read_exact 4 stream) (append_assoc (be_bytes32 len) buf rest)
        ∙ read_exact-append 4 (be_bytes32 len) (buf ++ rest) refl in
      let body = read_exact-append len buf rest refl in
      let value = from_be-be_bytes32 len (omega arith) in ground (arith, header, body, value)

  sent_parts :
      (m : SyncMessage) (ms : List SyncMessage) (stream : Bytes)
      → send_all (m ∷ ms) ≡ ok stream
      → (first others : Bytes) × (send m ≡ ok first)
        × (send_all ms ≡ ok others)
        × (first ++ others ≡ stream)
  unfolding send_all
  sent_parts m ms stream h = on_sent (send m) (send_all ms) refl refl h
    where
      on_sent :
          (o p : Result FramedError Bytes)
          → send m ≡ o
          → send_all ms ≡ p
          → elim o [
            | err e ↦ err e
            | ok bytes ↦ elim p [ err e ↦ err e | ok rest ↦ ok (bytes ++ rest) ]
          ]
            ≡ ok stream
          → (first others : Bytes) × (send m ≡ ok first)
            × (send_all ms ≡ ok others)
            × (first ++ others ≡ stream)
      on_sent (err e) p f g k = cc
      on_sent (ok b) (err e) f g k = cc
      on_sent (ok b) (ok c) f g k = (b, c, f, g, cc)

  recv-send :
      (m : SyncMessage) (stream rest : Bytes)
      → Decodes wire m
      → send m ≡ ok stream
      → recv (stream ++ rest) ≡ ok (m, rest)
  recv-send m stream rest law h =
      let (fits, whole) = send-fits m stream h in
      ap (λ s. recv (s ++ rest)) (sym whole)
      ∙ recv-frame (wire.to_bytes m) rest fits
      ∙ ap (λ o. elim o [ none ↦ err decode | some msg ↦ ok (msg, rest) ]) law

  -- Messages that one end sends, each within the maximal size of a frame, are received by the other
  -- end as they were sent and in that order, and what follows on the stream is left there.
  pub recv_many-send_all :
      (ms : List SyncMessage) (stream rest : Bytes)
      → All (Decodes wire) ms
      → send_all ms ≡ ok stream
      → recv_many (length ms) (stream ++ rest) ≡ ok (ms, rest)
  unfolding recv_many send_all
  recv_many-send_all [] stream rest law h = ground arith
  recv_many-send_all (m ∷ ms) stream rest (law, laws) h =
      let (first, others, sent, sent_others, whole) = sent_parts m ms stream h in
      let here =
        ap recv (ap (λ s. s ++ rest) (sym whole) ∙ append_assoc first others rest)
        ∙ recv-send m first (others ++ rest) law sent in
      ground (arith, here, recv_many-send_all ms others rest laws sent_others)
