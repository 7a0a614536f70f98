-- ===== src/Server/Ws/Handshake/Verified.antt =====
-- Whom the handshake of server/src/ws.rs lets in.
use little_love.Prelude.{
  ℕ, ◌≡◌, true, some, List, [], ◌∷◌, ◌++◌, nat_Eq, length, arith, Option-cases, inl, inr,
}
use little_love.Crypto.Sig.{
  Ed25519, verified, verify_signature, verify_domain_separated, challenge_signing_input,
  signing_input, challenge_domain_tag,
}
use little_love.Server.Accounts.{AccountRecord, lookup_ed25519_pub, lookup_full_account}
use little_love.Server.World.{World, Env, ◌>>=◌, pure, stop, gets, query, execute, call_db}
use little_love.Server.Ws.Guards.{need_store_quietly, some_or_stop}
use little_love.Server.Ws.Handshake.{IdentifyPayload, handshake}

-- What an accepted signature says of the key and the signed bytes.
verify_signature_strict :
    (c : Ed25519) (key nonce sig : List ℕ)
    → verify_signature c key nonce sig ≡ verified
    → (length key ≡ 32)
      × (length sig ≡ 64)
      × (c.valid_key key ≡ true)
      × (c.verify_strict key (challenge_domain_tag ++ (0 ∷ nonce)) sig ≡ true)
unfolding verify_signature verify_domain_separated challenge_signing_input signing_input
verify_signature_strict c key nonce sig h =
    (ground (arith, h), ground (arith, h), ground (arith, h), ground (arith, h))

-- When no database call fails, a session opens only for an account that exists under the name that was
-- given, and whose stored key, of 32 bytes, verifies the signature, of 64 bytes, over the challenge after
-- its tag and a NUL.
pub handshake-verified :
    (env : Env) (nonce : List ℕ) (p : IdentifyPayload) (w : World) (a : AccountRecord)
    → w.faults ≡ []
    → (handshake env nonce (some p) w).0 ≡ some a
    → (key sig : List ℕ) × (lookup_ed25519_pub p.username w.db ≡ some key)
      × (env.b64_decode p.signature ≡ some sig)
      × (verify_signature env.ed25519 key nonce sig ≡ verified)
      × (lookup_full_account p.username w.db ≡ some a)
      × (length key ≡ 32)
      × (length sig ≡ 64)
      × (env.ed25519.valid_key key ≡ true)
      × (env.ed25519.verify_strict key (challenge_domain_tag ++ (0 ∷ nonce)) sig ≡ true)
unfolding handshake need_store_quietly some_or_stop ◌>>=◌ pure stop gets query execute call_db
handshake-verified env nonce p w a nf h = elim (Option-cases (lookup_ed25519_pub p.username w.db)) [
  | inl e ↦ absurd (ground (arith, h, e, nf))
  | inr (key, e) ↦ elim (Option-cases (env.b64_decode p.signature)) [
    | inl f ↦ absurd (ground (arith, h, e, f, nf))
    | inr (sig, f) ↦
        let good : verify_signature env.ed25519 key nonce sig ≡ verified =
          ground (arith, h, e, f, nf) in
        let (long_key, long_sig, valid, strict) =
          verify_signature_strict env.ed25519 key nonce sig good in
        (key, sig, e, f, good, ground (arith, h, e, f, nf), long_key, long_sig, valid, strict)
  ]
]
