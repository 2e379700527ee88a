-- ===== src/Crypto/Invite.antt =====
-- splittr-crypto/src/invite.rs: signed, expiring invite tokens.
use splittr.Prelude.{ℕ, ◌<◌, ◌^◌, Bool, true, ◌++◌, ◌≡◌, refl, leb}
use splittr.Prelude.Ord.{Bytes}
use splittr.Prelude.Lists.{length}
use splittr.Prelude.Text.{utf8}
use splittr.Crdt.Identity.{PublicKey}
use splittr.Crdt.Op.{Crypto}
use splittr.Crypto.Bytes.{le_bytes, le_bytes-injective, length-le_bytes, append-injective}

pub record Invite : Type 0 where
  pub inviter : PublicKey
  pub context : Bytes
  pub nonce : Bytes
  pub expiry_ms : ℕ
  pub sig : Bytes

-- `canonical`: what is signed.
unfoldable pub invite_canonical :
    (inviter : PublicKey) (context nonce : Bytes) (expiry_ms : ℕ) → Bytes
unfolding le_bytes
invite_canonical inviter context nonce expiry_ms =
    utf8 "splittr-invite-v1"
    ++ (inviter ++ (le_bytes 8 (length context) ++ (context ++ (nonce ++ le_bytes 8 expiry_ms))))

module _ (crypto : Crypto) where
  unfoldable pub create_invite_with :
      crypto.SigningKey → (context nonce : Bytes) → (expiry_ms : ℕ) → Invite
  create_invite_with key context nonce expiry_ms =
      let inviter = crypto.public key in
      record {
        inviter = inviter;
        context = context;
        nonce = nonce;
        expiry_ms = expiry_ms;
        sig = crypto.sign key (invite_canonical inviter context nonce expiry_ms);
      }

  unfoldable pub verify_invite : Invite → Bool
  verify_invite self =
      crypto.check self.inviter
        (invite_canonical self.inviter self.context self.nonce self.expiry_ms) self.sig

-- `is_expired`
abbrev pub is_expired : Invite → ℕ → Bool
is_expired self now_ms = leb self.expiry_ms now_ms

-- Invites of 32-byte keys, 16-byte nonces and `u64` expiries whose contexts are shorter than 2^64
-- have one signed text only if all their fields agree.
pub invite_canonical-injective :
    (k l : PublicKey) (c d m n : Bytes) (e f : ℕ)
    → (length k ≡ 32) × (length l ≡ 32)
    → (length m ≡ 16) × (length n ≡ 16)
    → (length c < 2 ^ 64) × (length d < 2 ^ 64)
    → (e < 2 ^ 64) × (f < 2 ^ 64)
    → invite_canonical k c m e ≡ invite_canonical l d n f
    → ((k ≡ l) × (c ≡ d)) × ((m ≡ n) × (e ≡ f))
unfolding invite_canonical
invite_canonical-injective k l c d m n e f (hk, hl) (hm, hn) (hc, hd) (he, hf) same_text =
    let (_, t1) =
      append-injective 17 (utf8 "splittr-invite-v1") (utf8 "splittr-invite-v1") _ _ refl refl
        same_text in
    let (keys, t2) = append-injective 32 k l _ _ hk hl t1 in
    let (lens, t3) =
      append-injective 8 _ _ _ _ (length-le_bytes 8 (length c)) (length-le_bytes 8 (length d)) t2 in
    let len = le_bytes-injective 8 (length c) (length d) hc hd lens in
    let (contexts, t4) = append-injective (length d) c d _ _ len refl t3 in
    let (nonces, t5) = append-injective 16 m n _ _ hm hn t4 in
    ((keys, contexts), (nonces, le_bytes-injective 8 e f he hf t5))

module _ (crypto : Crypto) where
  -- The documented law of signatures: what a key signs, its public key accepts.
  abbrev pub Accepts : Type 0
  Accepts =
      (key : crypto.SigningKey) (text : Bytes)
      → crypto.check (crypto.public key) text (crypto.sign key text) ≡ true

  pub verify_invite-create :
      (key : crypto.SigningKey) (context nonce : Bytes) (expiry_ms : ℕ)
      → Accepts
      → verify_invite crypto (create_invite_with crypto key context nonce expiry_ms) ≡ true
  unfolding verify_invite create_invite_with
  verify_invite-create key context nonce expiry_ms law =
      law key (invite_canonical (crypto.public key) context nonce expiry_ms)
