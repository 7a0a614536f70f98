-- ===== src/Crypto/Ecdh.antt =====
-- crypto/src/ecdh.rs: the key of a room. X25519 and HKDF come from other crates and are parameters.
use little_love.Prelude.{ℕ, none, some, List}
use little_love.Crypto.Wordlist.{codes}
use little_love.Crypto.Identity.{Hkdf}

abbrev pub hkdf_salt : List ℕ
hkdf_salt = codes "littlelove.v0.2.room"

pub data EcdhError : Type 0 where
  bad_pubkey bad_privkey : ℕ → EcdhError
  hkdf : EcdhError

pub data Result {ℓ} (A : Type ℓ) : Type ℓ where
  ok : A → Result A
  err : EcdhError → Result A

-- The secret that `diffie_hellman` makes of one's own secret and the other's public key.
unfoldable pub derive_room_key :
    (List ℕ → List ℕ → List ℕ) → Hkdf → List ℕ → List ℕ → List ℕ → Result (List ℕ)
derive_room_key diffie_hellman kdf my_x25519_priv peer_x25519_pub room_id =
    elim (kdf hkdf_salt (diffie_hellman my_x25519_priv peer_x25519_pub) room_id) [
      | none ↦ err hkdf
      | some out ↦ ok out
    ]
