-- ===== src/Crypto.antt =====
-- The crypto crate, crypto/src: words, identities, invite codes, signing inputs and encryption.
pub mod Wordlist
pub mod Aead
pub mod Ecdh
pub mod Identity
pub mod Invite
pub mod Sig
pub mod Tests
