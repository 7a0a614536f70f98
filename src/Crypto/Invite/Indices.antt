-- ===== src/Crypto/Invite/Indices.antt =====
-- The word list as a table: a word is found again at its index, and a word that is found is the one at
-- the index that is returned.
use little_love.Prelude.{
  ℕ, zero, suc, ◌<◌, ◌≡◌, refl, true, false, some, List, [], ◌∷◌, arith, ◌==◌, nat_Eq, list_Eq,
  list_beq_iff, length, all, Bool-cases, Option-cases, inl, inr,
}
use little_love.Crypto.Wordlist.{
  bip39_en, lex_lt, rises, is_word, length-bip39_en, rises-bip39_en, is_word-bip39_en,
}
use little_love.Crypto.Invite.{word_at, index_of}

lex_lt_irrefl : (xs : List ℕ) → lex_lt xs xs ≡ false
lex_lt_irrefl [] = refl
lex_lt_irrefl (x ∷ xs) = ground (arith, lex_lt_irrefl xs)

lex_lt_trans : (xs ys zs : List ℕ) → lex_lt xs ys ≡ true → lex_lt ys zs ≡ true → lex_lt xs zs ≡ true
lex_lt_trans [] [] zs p q = cc
lex_lt_trans [] (y ∷ ys) [] p q = cc
lex_lt_trans [] (y ∷ ys) (z ∷ zs) p q = refl
lex_lt_trans (x ∷ xs) [] zs p q = cc
lex_lt_trans (x ∷ xs) (y ∷ ys) [] p q = cc
lex_lt_trans (x ∷ xs) (y ∷ ys) (z ∷ zs) p q = ground (arith, lex_lt_trans xs ys zs)

-- The first word is below every later one.
lex_lt-word_at :
    (x : List ℕ) (xs : List (List ℕ)) (i : ℕ)
    → rises (x ∷ xs) ≡ true
    → i < length xs
    → lex_lt x (word_at xs i) ≡ true
unfolding word_at
lex_lt-word_at x [] i r h = elim h [ ]
lex_lt-word_at x (y ∷ xs) zero r h = ground arith
lex_lt-word_at x (y ∷ xs) (suc i) r h =
    lex_lt_trans x y (word_at xs i) (ground arith)
      (lex_lt-word_at y xs i (ground arith) (omega arith))

rises_tail : (x : List ℕ) (xs : List (List ℕ)) → rises (x ∷ xs) ≡ true → rises xs ≡ true
rises_tail x xs r = ground arith

index_of-word_at :
    (ws : List (List ℕ)) (i : ℕ)
    → rises ws ≡ true
    → i < length ws
    → index_of (word_at ws i) ws ≡ some i
unfolding word_at index_of
index_of-word_at [] i r h = elim h [ ]
index_of-word_at (w ∷ ws) zero r h = ground (arith, list_beq_iff w w)
index_of-word_at (w ∷ ws) (suc i) r h = ground (
  arith,
  list_beq_iff w (word_at ws i),
  lex_lt-word_at w ws i r (omega arith),
  lex_lt_irrefl w,
  index_of-word_at ws i (rises_tail w ws r) (omega arith),
)

word_at-index_of :
    (word : List ℕ) (ws : List (List ℕ)) (i : ℕ)
    → index_of word ws ≡ some i
    → (word_at ws i ≡ word) × (i < length ws)
unfolding word_at index_of
word_at-index_of word [] i h = cc
word_at-index_of word (w ∷ ws) i h = elim (Bool-cases (w == word)) [
  | inl here ↦
      let e : i ≡ 0 = ground (arith, here, h) in rw e ((list_beq_iff w word).0 here, omega arith)
  | inr later ↦ elim (Option-cases (index_of word ws)) [
    | inl missing ↦ absurd (ground (arith, later, missing, h))
    | inr (j, found) ↦
        let e : i ≡ suc j = ground (arith, later, found, h) in
        let (at, below) = word_at-index_of word ws j found in rw e (at, omega arith)
  ]
]

is_word-word_at :
    (ws : List (List ℕ)) (i : ℕ)
    → all is_word ws ≡ true
    → i < length ws
    → is_word (word_at ws i) ≡ true
unfolding word_at
is_word-word_at [] i a h = elim h [ ]
is_word-word_at (w ∷ ws) zero a h = ground arith
is_word-word_at (w ∷ ws) (suc i) a h = is_word-word_at ws i (ground arith) (omega arith)

-- The same for the list of the program.
pub index_of-bip39_en : (i : ℕ) → i < 2048 → index_of (word_at bip39_en i) bip39_en ≡ some i
index_of-bip39_en i h = index_of-word_at bip39_en i rises-bip39_en (rw length-bip39_en h)

pub bip39_en-index_of :
    (word : List ℕ) (i : ℕ)
    → index_of word bip39_en ≡ some i
    → (word_at bip39_en i ≡ word) × (i < 2048)
bip39_en-index_of word i h = rw length-bip39_en at (word_at-index_of word bip39_en i h)

pub is_word-bip39_en_at : (i : ℕ) → i < 2048 → is_word (word_at bip39_en i) ≡ true
is_word-bip39_en_at i h = is_word-word_at bip39_en i is_word-bip39_en (rw length-bip39_en h)
