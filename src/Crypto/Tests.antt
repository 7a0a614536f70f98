-- ===== src/Crypto/Tests.antt =====
-- Examples: each theorem applied where its hypotheses hold.
use little_love.Prelude.{
  ap, sym, ℕ, zero, suc, ◌+◌, Option, some, Bool, nat_eq, ◌<◌, ◌≡◌, ◌≢◌, ◌⊎◌, refl, List, [], ◌∷◌,
  ◌++◌, none, length, All, ◌^◌, arith, nat_Eq, list_Eq,
}
use little_love.Crypto.Wordlist.{bip39_en, codes}
use little_love.Crypto.Invite.{
  wrong_word_count, unknown_word, ok, UnicodeText, KeepsPlain, canonical_token_from_n44,
  encode_code, decode_code, decode_parts, split, index_of, zero_padding,
}
use little_love.Crypto.Invite.RoundTrip.{
  decode_code-encode_code, encode_code-decode_code, decode_code_errors,
}
use little_love.Crypto.Aead
use little_love.Crypto.Aead.{Crates, Envelope, encrypt_wire, decrypt_wire}
use little_love.Crypto.Aead.RoundTrip.{Faithful, decrypt_wire-encrypt_wire, partner_decrypts}
use little_love.Crypto.Ecdh
use little_love.Crypto.Ecdh.{derive_room_key}
use little_love.Crypto.Identity
use little_love.Crypto.Identity.{take, split_whitespace, seed_to_phrase, phrase_to_seed}
use little_love.Crypto.Identity.Words.{PartsWords}
use little_love.Crypto.Identity.RoundTrip.{phrase_to_seed-seed_to_phrase}
use little_love.Crypto.Identity.Errors.{FirstUnknown, phrase_to_seed_cases}
use little_love.Crypto.Sig.{challenge_signing_input, invite_consume_signing_input}
use little_love.Crypto.Sig.Domains.{signing_input-injective, challenge-ne-invite_consume}

abbrev plain_text : UnicodeText
plain_text = record { trim = λ s. s; to_lowercase = λ s. s }

plain_text-KeepsPlain : KeepsPlain plain_text
plain_text-KeepsPlain = record { trim_plain = λ s h. refl; lower_plain = λ s h. refl }

decode_code-encode_code_example :
    decode_code plain_text (encode_code (canonical_token_from_n44 123456789))
    ≡ ok (canonical_token_from_n44 123456789)
decode_code-encode_code_example =
    decode_code-encode_code plain_text 123456789 plain_text-KeepsPlain (omega arith)

encode_code-decode_code_example :
    ((n : ℕ) × (n < 2 ^ 44) × (canonical_token_from_n44 123456789 ≡ canonical_token_from_n44 n))
    × (encode_code (canonical_token_from_n44 123456789)
        ≡ plain_text.to_lowercase
            (plain_text.trim (encode_code (canonical_token_from_n44 123456789))))
encode_code-decode_code_example =
    encode_code-decode_code plain_text (encode_code (canonical_token_from_n44 123456789))
      (canonical_token_from_n44 123456789)
      (decode_code-encode_code plain_text 123456789 plain_text-KeepsPlain (omega arith))

decode_code_errors_example :
    let parts = split (plain_text.to_lowercase (plain_text.trim [])) in
    ((length parts ≢ 4) × (wrong_word_count 4 1 ≡ wrong_word_count 4 (length parts)))
    ⊎ ((length parts ≡ 4)
        × ((known rest : List (List ℕ)) × (w : List ℕ) × (parts ≡ known ++ w ∷ rest)
            × (All (λ v. index_of v bip39_en ≢ none) known)
            × (index_of w bip39_en ≡ none)
            × (wrong_word_count 4 1 ≡ unknown_word w)))
unfolding decode_code decode_parts
decode_code_errors_example = decode_code_errors plain_text [] (wrong_word_count 4 1) refl

abbrev tag : List ℕ
tag = 1 ∷ []

signing_input-injective_example : (tag ≡ tag) × (tag ≡ tag)
signing_input-injective_example = signing_input-injective tag tag tag tag refl refl refl

challenge-ne-invite_consume_example :
    challenge_signing_input (1 ∷ []) ≢ invite_consume_signing_input (1 ∷ [])
challenge-ne-invite_consume_example = challenge-ne-invite_consume (1 ∷ []) (1 ∷ [])

abbrev is_space : ℕ → Bool
is_space c = nat_eq c b' '

is_space-PartsWords : PartsWords is_space
is_space-PartsWords = record { space = refl; letter = λ c h. ground arith }

phrase_to_seed-seed_to_phrase_example :
    phrase_to_seed is_space (seed_to_phrase (7 ∷ zero_padding 31))
    ≡ Identity.ok (7 ∷ zero_padding 31)
phrase_to_seed-seed_to_phrase_example =
    phrase_to_seed-seed_to_phrase is_space (7 ∷ zero_padding 31) is_space-PartsWords refl
      (omega arith)

phrase_to_seed_cases_example :
    let words = split_whitespace is_space (codes "zoo zoo") in
    ((length words ≢ 24)
      × (phrase_to_seed is_space (codes "zoo zoo")
          ≡ Identity.err (Identity.wrong_word_count (length words))))
    ⊎ ((length words ≡ 24)
        × (((w : List ℕ) × FirstUnknown words w
              × (phrase_to_seed is_space (codes "zoo zoo")
                  ≡ Identity.err (Identity.unknown_word w)))
            ⊎ (All (λ v. index_of v bip39_en ≢ none) words
                × ((seed : List ℕ) × (phrase_to_seed is_space (codes "zoo zoo")
                      ≡ Identity.ok seed)))))
phrase_to_seed_cases_example = phrase_to_seed_cases is_space (codes "zoo zoo")

-- Stand-ins for the other crates: an envelope is the length of its first text, and both texts.
abbrev drop : ℕ → List ℕ → List ℕ
drop zero xs = xs
drop (suc n) [] = []
drop (suc n) (x ∷ xs) = drop n xs

take-length : (xs ys : List ℕ) → take (length xs) (xs ++ ys) ≡ xs
unfolding take
take-length [] ys = refl
take-length (x ∷ xs) ys = rw (take-length xs ys) refl

drop-length : (xs ys : List ℕ) → drop (length xs) (xs ++ ys) ≡ ys
drop-length [] ys = refl
drop-length (x ∷ xs) ys = drop-length xs ys

abbrev crates : Crates
crates = record {
  b64_encode = λ bytes. bytes;
  b64_decode = λ text. some text;
  to_vec = λ env. some (length env.ciphertext ∷ env.ciphertext ++ env.nonce);
  from_slice = read;
  encrypts = λ key nonce msg aad. some (0 ∷ msg);
  decrypts = λ key nonce ct aad. tail ct;
}
  where
    read : List ℕ → Option Envelope
    read [] = none
    read (n ∷ text) = some (record { ciphertext = take n text; nonce = drop n text })

    tail : List ℕ → Option (List ℕ)
    tail [] = none
    tail (x ∷ xs) = some xs

crates-Faithful : Faithful crates
crates-Faithful = record {
  base64 = λ bytes. refl;
  json = λ env. (
    _,
    refl,
    rw (take-length env.ciphertext env.nonce, drop-length env.ciphertext env.nonce) refl,
  );
  cipher = λ key nonce msg aad ct h.
      ap (λ o. elim o [ none ↦ none | some text ↦ crates.decrypts key nonce text aad ]) (sym h);
}

decrypt_wire-encrypt_wire_example :
    (wire : List ℕ) × (encrypt_wire crates (zero_padding 24) (9 ∷ []) (codes "hi") ≡ Aead.ok wire)
    × (decrypt_wire crates (9 ∷ []) wire ≡ Aead.ok (codes "hi"))
decrypt_wire-encrypt_wire_example =
    decrypt_wire-encrypt_wire crates (zero_padding 24) (9 ∷ []) (codes "hi") (0 ∷ codes "hi")
      crates-Faithful refl refl

-- A shared secret that does not depend on the order, and an expansion that keeps it.
abbrev agreed : List ℕ → List ℕ → List ℕ
agreed a b = zero_padding (length a + length b)

partner_decrypts_example :
    (wire : List ℕ) × (encrypt_wire crates (zero_padding 24) (zero_padding 3) (codes "hi")
      ≡ Aead.ok wire)
    × ((their_key : List ℕ) × (derive_room_key agreed
            (λ salt ikm info. some ikm)
            (2 ∷ 3 ∷ [])
            (1 ∷ [])
            (codes "room")
          ≡ Ecdh.ok their_key)
        × (decrypt_wire crates their_key wire ≡ Aead.ok (codes "hi")))
unfolding derive_room_key
partner_decrypts_example =
    partner_decrypts crates agreed (λ k. k) (λ salt ikm info. some ikm) (1 ∷ []) (2 ∷ 3 ∷ [])
      (codes "room") (zero_padding 24) (zero_padding 3) (codes "hi") (0 ∷ codes "hi")
      crates-Faithful refl refl refl refl
