-- ===== src/Crypto/Aead/RoundTrip.antt =====
-- What is encrypted by crypto/src/aead.rs is decrypted again, also by the partner with the key of
-- crypto/src/ecdh.rs.
use little_love.Prelude.{ℕ, ◌≡◌, refl, sym, some, List, [], length, nat_Eq}
use little_love.Crypto.Aead
use little_love.Crypto.Aead.{
  Crates, Envelope, nonce_len, encrypt_wire, decrypt_wire, or_error, ◌>>=◌,
}
use little_love.Crypto.Ecdh
use little_love.Crypto.Ecdh.{derive_room_key}
use little_love.Crypto.Identity.{Hkdf}

-- The crates decode what they encode, and the cipher opens what it sealed.
pub record Faithful (c : Crates) : Type 0 where
  pub base64 : (bytes : List ℕ) → c.b64_decode (c.b64_encode bytes) ≡ some bytes
  pub json :
      (env : Envelope)
      → (bytes : List ℕ) × (c.to_vec env ≡ some bytes) × (c.from_slice bytes ≡ some env)
  pub cipher :
      (key nonce msg aad ct : List ℕ)
      → c.encrypts key nonce msg aad ≡ some ct
      → c.decrypts key nonce ct aad ≡ some msg

-- If the crates decode what they encode, the cipher opens what it sealed, and it accepts the message,
-- encryption with a nonce of 24 bytes gives a wire text, which decrypts under the same key to the message.
pub decrypt_wire-encrypt_wire :
    (c : Crates) (nonce key plaintext ct : List ℕ)
    → Faithful c
    → length nonce ≡ nonce_len
    → c.encrypts key nonce plaintext [] ≡ some ct
    → (wire : List ℕ) × (encrypt_wire c nonce key plaintext ≡ Aead.ok wire)
      × (decrypt_wire c key wire ≡ Aead.ok plaintext)
unfolding encrypt_wire decrypt_wire or_error ◌>>=◌
decrypt_wire-encrypt_wire c nonce key plaintext ct law long sealed =
    let env : Envelope = record { ciphertext = c.b64_encode ct; nonce = c.b64_encode nonce } in
    let (inner, written, read) = law.json env in
    (
      c.b64_encode inner,
      rw (sealed, written) refl,
      rw
          (
            law.base64 inner,
            read,
            law.base64 ct,
            law.base64 nonce,
            long,
            law.cipher key nonce plaintext [] ct sealed,
          )
          refl,
    )

-- With the same crates: if the secrets of two partners agree under Diffie-Hellman, what one of them
-- encrypts, with a nonce of 24 bytes, under the key that is derived for a room, the other decrypts under the
-- key that is derived on the other side.
pub partner_decrypts :
    (c : Crates) (diffie_hellman : List ℕ → List ℕ → List ℕ) (public_key : List ℕ → List ℕ)
    (kdf : Hkdf) (mine theirs room_id nonce key plaintext ct : List ℕ)
    → Faithful c
    → diffie_hellman mine (public_key theirs) ≡ diffie_hellman theirs (public_key mine)
    → length nonce ≡ nonce_len
    → derive_room_key diffie_hellman kdf mine (public_key theirs) room_id ≡ Ecdh.ok key
    → c.encrypts key nonce plaintext [] ≡ some ct
    → (wire : List ℕ) × (encrypt_wire c nonce key plaintext ≡ Aead.ok wire)
      × ((their_key : List ℕ) × (derive_room_key diffie_hellman kdf theirs (public_key mine) room_id
            ≡ Ecdh.ok their_key)
          × (decrypt_wire c their_key wire ≡ Aead.ok plaintext))
unfolding derive_room_key
partner_decrypts c diffie_hellman public_key kdf mine theirs room_id nonce key plaintext ct law
      agree long derived sealed =
    let (wire, sent, got) = decrypt_wire-encrypt_wire c nonce key plaintext ct law long sealed in
    (wire, sent, (key, rw (sym agree, derive_room_key) derived, got))
