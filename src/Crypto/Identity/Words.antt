-- ===== src/Crypto/Identity/Words.antt =====
-- The words of a phrase: splitting undoes joining.
use mathlib.Core.List.{append-nil, append_assoc}
use little_love.Prelude.{
  ℕ, zero, suc, ◌*◌, ◌≡◌, ◌∙◌, refl, sym, ap, Bool, true, false, List, [], ◌∷◌, ◌++◌, length, all,
  All, arith,
}
use little_love.Crypto.Wordlist.{is_lower, is_word}
use little_love.Crypto.Invite.Indices.{is_word-bip39_en_at}
use little_love.Crypto.Identity.Bits.{read_bits_below}
use little_love.Crypto.Identity.{
  flush, pieces_from, split_whitespace, join_spaces, read_bits, words_from,
}

-- What a phrase relies on: a space is white space and no lower-case letter is.
pub record PartsWords (is_whitespace : ℕ → Bool) : Type 0 where
  pub space : is_whitespace b' ' ≡ true
  pub letter : (c : ℕ) → is_lower c ≡ true → is_whitespace c ≡ false

module _ (is_whitespace : ℕ → Bool) (parts : PartsWords is_whitespace) where
  pieces_from-letters :
      (piece w rest : List ℕ)
      → all is_lower w ≡ true
      → pieces_from is_whitespace piece (w ++ rest) ≡ pieces_from is_whitespace (piece ++ w) rest
  unfolding pieces_from
  pieces_from-letters piece [] rest h = rw append-nil refl
  pieces_from-letters piece (c ∷ w) rest h =
      let letter = parts.letter c (ground (arith, h)) in
      let step = pieces_from-letters (piece ++ c ∷ []) w rest (ground (arith, h)) in
      rw (letter, step, append_assoc piece (c ∷ []) w) refl

  flush_word : (w : List ℕ) (later : List (List ℕ)) → is_word w ≡ true → flush w later ≡ w ∷ later
  flush_word [] later h = cc h
  flush_word (c ∷ w) later h = refl

  pieces_from_end : (w : List ℕ) → is_word w ≡ true → pieces_from is_whitespace [] w ≡ w ∷ []
  unfolding pieces_from
  pieces_from_end w h =
      ap (pieces_from is_whitespace []) (sym (append-nil w))
      ∙ pieces_from-letters [] w [] (ground (arith, h))
      ∙ flush_word w [] h

  pieces_from_space :
      (w rest : List ℕ)
      → is_word w ≡ true
      → pieces_from is_whitespace [] (w ++ (b' ' ∷ rest)) ≡ w ∷ pieces_from is_whitespace [] rest
  unfolding pieces_from
  pieces_from_space w rest h =
      let later = pieces_from is_whitespace [] rest in
      let at_space : pieces_from is_whitespace w (b' ' ∷ rest) ≡ flush w later =
        rw parts.space refl in
      pieces_from-letters [] w (b' ' ∷ rest) (ground (arith, h)) ∙ at_space ∙ flush_word w later h

  pub split_whitespace-join_spaces :
      (ws : List (List ℕ))
      → All (λ w. is_word w ≡ true) ws
      → split_whitespace is_whitespace (join_spaces ws) ≡ ws
  unfolding split_whitespace join_spaces pieces_from
  split_whitespace-join_spaces [] h = refl
  split_whitespace-join_spaces (w ∷ []) h = pieces_from_end w h.0
  split_whitespace-join_spaces (w ∷ v ∷ ws) h =
      pieces_from_space w (join_spaces (v ∷ ws)) h.0
      ∙ ap (◌∷◌ w) (split_whitespace-join_spaces (v ∷ ws) h.1)

pub words_from-is_word :
    (bits : List ℕ) (n i : ℕ) → All (λ w. is_word w ≡ true) (words_from bits n i)
unfolding words_from
words_from-is_word bits zero i = tt
words_from-is_word bits (suc n) i = (
  is_word-bip39_en_at (read_bits bits 11 (i * 11) 0) (read_bits_below bits (i * 11)),
  words_from-is_word bits n (suc i),
)

pub length-words_from : (bits : List ℕ) (n i : ℕ) → length (words_from bits n i) ≡ n
unfolding words_from
length-words_from bits zero i = refl
length-words_from bits (suc n) i = ap suc (length-words_from bits n (suc i))
