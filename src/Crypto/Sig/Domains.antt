-- ===== src/Crypto/Sig/Domains.antt =====
-- Domain separation: a signing input fixes its tag and its payload.
use little_love.Prelude.{
  ℕ, ◌≡◌, ◌≢◌, refl, ap, Bool, true, not, List, [], ◌∷◌, arith, nat_eq, length, all,
}
use little_love.Crypto.Sig.{
  challenge_domain_tag, invite_consume_domain_tag, signing_input, challenge_signing_input,
  invite_consume_signing_input,
}

abbrev pub no_nul : List ℕ → Bool
no_nul = all (λ b. not (nat_eq b 0))

-- With tags that hold no NUL byte, equal inputs come from equal tags and equal payloads.
pub signing_input-injective :
    (s t xs ys : List ℕ)
    → no_nul s ≡ true
    → no_nul t ≡ true
    → signing_input s xs ≡ signing_input t ys
    → (s ≡ t) × (xs ≡ ys)
unfolding signing_input
signing_input-injective [] [] xs ys p q e = (refl, ground arith)
signing_input-injective [] (b ∷ t) xs ys p q e = absurd (ground arith)
signing_input-injective (b ∷ s) [] xs ys p q e = absurd (ground arith)
signing_input-injective (b ∷ s) (c ∷ t) xs ys p q e =
    ground (arith, signing_input-injective s t xs ys)

-- No challenge and no invite token give the same bytes to sign, whatever the two payloads are.
pub challenge-ne-invite_consume :
    (nonce token : List ℕ) → challenge_signing_input nonce ≢ invite_consume_signing_input token
unfolding challenge_signing_input invite_consume_signing_input
challenge-ne-invite_consume nonce token e =
    let tags =
      (signing_input-injective challenge_domain_tag invite_consume_domain_tag nonce token refl refl
        e).0 in
    absurd (omega (arith, ap length tags))
