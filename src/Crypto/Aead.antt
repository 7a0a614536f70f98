-- ===== src/Crypto/Aead.antt =====
-- crypto/src/aead.rs: a message under a room key, in its envelope. A text is its
-- code points. Base64, the JSON of the envelope,
-- the cipher and the random bytes come from other crates and are parameters.
pub mod RoundTrip
use little_love.Prelude.{ℕ, Option, none, some, List, [], ◌==◌, nat_Eq, length, if◌then◌else◌}

abbrev pub nonce_len : ℕ
nonce_len = 24

pub data AeadError : Type 0 where
  base64 json : AeadError
  wrong_nonce_len : ℕ → AeadError
  decrypt encrypt : AeadError

pub data Result {ℓ} (A : Type ℓ) : Type ℓ where
  ok : A → Result A
  err : AeadError → Result A

pub record Envelope : Type 0 where
  pub ciphertext : List ℕ
  pub nonce : List ℕ

-- What other crates do: base64, `to_vec` and `from_slice` of the envelope's JSON, and XChaCha20-Poly1305
-- with a key, a nonce, a text and additional data.
pub record Crates : Type 0 where
  pub b64_encode : List ℕ → List ℕ
  pub b64_decode : List ℕ → Option (List ℕ)
  pub to_vec : Envelope → Option (List ℕ)
  pub from_slice : List ℕ → Option Envelope
  pub encrypts : List ℕ → List ℕ → List ℕ → List ℕ → Option (List ℕ)
  pub decrypts : List ℕ → List ℕ → List ℕ → List ℕ → Option (List ℕ)

-- `map_err`
unfoldable pub or_error {ℓ} : {A : Type ℓ} → AeadError → Option A → Result A
or_error e none = err e
or_error e (some a) = ok a

infixl 5 ◌>>=◌
unfoldable pub ◌>>=◌ {ℓ κ} : {A : Type ℓ} {B : Type κ} → Result A → (A → Result B) → Result B
err e >>= f = err e
ok a >>= f = f a

module _ (c : Crates) where
  -- `bytes` is what the random source fills the nonce with.
  unfoldable pub encrypt_wire : List ℕ → List ℕ → List ℕ → Result (List ℕ)
  unfolding or_error ◌>>=◌
  encrypt_wire bytes key plaintext = do
    ct ← or_error encrypt (c.encrypts key bytes plaintext [])
    inner ←
        or_error json
          (c.to_vec (record { ciphertext = c.b64_encode ct; nonce = c.b64_encode bytes }))
    ok (c.b64_encode inner)

  unfoldable pub decrypt_wire : List ℕ → List ℕ → Result (List ℕ)
  unfolding or_error ◌>>=◌
  decrypt_wire key wire = do
    inner ← or_error base64 (c.b64_decode wire)
    env ← or_error json (c.from_slice inner)
    ct ← or_error base64 (c.b64_decode env.ciphertext)
    nonce ← or_error base64 (c.b64_decode env.nonce)
    if length nonce == nonce_len
        then or_error decrypt (c.decrypts key nonce ct [])
        else err (wrong_nonce_len (length nonce))
