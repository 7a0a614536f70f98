-- ===== src/Crypto/Sig.antt =====
-- crypto/src/sig.rs: what is signed, and how a signature is checked. Texts and keys are bytes; the
-- curve is `Ed25519`, which other crates implement.
pub mod Domains
use Prim.Native.String
use little_love.Prelude.{
  ℕ, ◌≡◌, Bool, true, false, String, List, [], ◌∷◌, ◌++◌, ◌==◌, nat_Eq, length, if◌then◌else◌,
}
use little_love.Crypto.Wordlist.{codes}

pub data AuthError : Type 0 where
  bad_pubkey bad_signature : ℕ → AuthError
  invalid_base64 mismatch : AuthError

pub data Verdict : Type 0 where
  verified : Verdict
  rejected : AuthError → Verdict

-- `VerifyingKey::from_bytes` succeeds; `verify_strict` of a key, a message and a signature.
pub record Ed25519 : Type 0 where
  pub valid_key : List ℕ → Bool
  pub verify_strict : List ℕ → List ℕ → List ℕ → Bool

abbrev pub challenge_domain_tag : List ℕ
challenge_domain_tag = codes "littlelove.v0.2.challenge"

abbrev pub invite_consume_domain_tag : List ℕ
invite_consume_domain_tag = codes "littlelove.v0.2.invite-consume"

unfoldable pub signing_input : List ℕ → List ℕ → List ℕ
signing_input tag payload = tag ++ (0 ∷ payload)

unfoldable pub challenge_signing_input : List ℕ → List ℕ
unfolding signing_input
challenge_signing_input nonce = signing_input challenge_domain_tag nonce

unfoldable pub invite_consume_signing_input : List ℕ → List ℕ
unfolding signing_input
invite_consume_signing_input token = signing_input invite_consume_domain_tag token

module _ (c : Ed25519) where
  unfoldable pub verify_domain_separated : List ℕ → List ℕ → List ℕ → Verdict
  verify_domain_separated pub_key input signature =
      if length pub_key == 32
      then (if length signature == 64
          then (if c.valid_key pub_key
              then (if c.verify_strict pub_key input signature then verified else rejected mismatch)
              else rejected (bad_pubkey 32))
          else rejected (bad_signature (length signature)))
      else rejected (bad_pubkey (length pub_key))

  unfoldable pub verify_signature : List ℕ → List ℕ → List ℕ → Verdict
  unfolding verify_domain_separated challenge_signing_input
  verify_signature pub_key nonce signature =
      verify_domain_separated pub_key (challenge_signing_input nonce) signature

  unfoldable pub verify_invite_consume_signature : List ℕ → List ℕ → List ℕ → Verdict
  unfolding verify_domain_separated invite_consume_signing_input
  verify_invite_consume_signature pub_key token signature =
      verify_domain_separated pub_key (invite_consume_signing_input token) signature
