-- ===== src/Crypto.antt =====
-- splittr-crypto/src: what the crate builds around the ciphers, key derivations and signatures of
-- other packages.
pub mod Bytes
pub mod Aead
pub mod Vault
pub mod Invite
pub mod Pairing
