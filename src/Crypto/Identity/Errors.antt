-- ===== src/Crypto/Identity/Errors.antt =====
-- Which phrases `phrase_to_seed` refuses.
use little_love.Prelude.{
  ℕ, suc, ◌≡◌, ◌≢◌, ◌⊎◌, refl, ap, inl, inr, Bool, none, List, [], ◌∷◌, ◌++◌, length, All, arith,
  nat_eq, Option-cases, Bool-cases,
}
use little_love.Crypto.Wordlist.{bip39_en}
use little_love.Crypto.Invite.{index_of, zero_padding}
use little_love.Crypto.Identity.{
  IdentityError, wrong_word_count, unknown_word, Result, ok, err, split_whitespace, write_bits,
  write_words, take, phrase_to_seed,
}

Result-cases :
    {A : Type 0} (r : Result A) → ((a : A) × (r ≡ ok a)) ⊎ ((e : IdentityError) × (r ≡ err e))
Result-cases (ok a) = inl (a, refl)
Result-cases (err e) = inr (e, refl)

-- The first word that is not in the list, after words that are.
abbrev pub FirstUnknown : List (List ℕ) → List ℕ → Type 0
FirstUnknown words w =
    (known rest : List (List ℕ)) × (words ≡ known ++ w ∷ rest)
    × (All (λ v. index_of v bip39_en ≢ none) known)
    × (index_of w bip39_en ≡ none)

write_words_error :
    (ws : List (List ℕ)) (i : ℕ) (bits : List ℕ) (e : IdentityError)
    → write_words ws i bits ≡ err e
    → (w : List ℕ) × (e ≡ unknown_word w) × FirstUnknown ws w
unfolding write_words
write_words_error [] i bits e h = absurd (cc h)
write_words_error (w ∷ ws) i bits e h = elim (Option-cases (index_of w bip39_en)) [
  | inl missing ↦ (w, cc (missing, h), ([], ws, refl, tt, missing))
  | inr (idx, found) ↦
      let (v, same, (known, rest, at, ks, m)) =
        write_words_error ws (suc i) (write_bits idx i 11 0 bits) e (cc (found, h)) in
      (v, same, (w ∷ known, rest, ap (◌∷◌ w) at, ((λ n. cc (found, n)), ks), m))
]

write_words_known :
    (ws : List (List ℕ)) (i : ℕ) (bits after : List ℕ)
    → write_words ws i bits ≡ ok after
    → All (λ v. index_of v bip39_en ≢ none) ws
unfolding write_words
write_words_known [] i bits after h = tt
write_words_known (w ∷ ws) i bits after h = elim (Option-cases (index_of w bip39_en)) [
  | inl missing ↦ absurd (cc (missing, h))
  | inr (idx, found) ↦ (
    (λ n. cc (found, n)),
    write_words_known ws (suc i) (write_bits idx i 11 0 bits) after (cc (found, h)),
  )
]

-- A phrase of other than 24 words is refused with their number, a phrase of 24 words with the first one
-- that is not in the list, and every other phrase gives a seed.
pub phrase_to_seed_cases :
    (is_whitespace : ℕ → Bool) (phrase : List ℕ)
    → let words = split_whitespace is_whitespace phrase in
      ((length words ≢ 24)
        × (phrase_to_seed is_whitespace phrase ≡ err (wrong_word_count (length words))))
      ⊎ ((length words ≡ 24)
          × (((w : List ℕ) × FirstUnknown words w
                × (phrase_to_seed is_whitespace phrase ≡ err (unknown_word w)))
              ⊎ (All (λ v. index_of v bip39_en ≢ none) words
                  × ((seed : List ℕ) × (phrase_to_seed is_whitespace phrase ≡ ok seed)))))
unfolding phrase_to_seed
phrase_to_seed_cases is_whitespace phrase =
    let words = split_whitespace is_whitespace phrase in
    elim (Bool-cases (nat_eq (length words) 24)) [
      | inr other ↦ inl (ground (arith, other), rw other refl)
      | inl all ↦ inr (
        ground (arith, all),
        elim (Result-cases (write_words words 0 (zero_padding 33))) [
          | inr (e, bad) ↦
              let (w, same, first) = write_words_error words 0 (zero_padding 33) e bad in
              inl (w, first, rw (all, bad) (ap err same))
          | inl (bits, good) ↦ inr (
            write_words_known words 0 (zero_padding 33) bits good,
            (take 32 bits, rw (all, good) refl),
          )
        ],
      )
    ]
