-- ===== src/Crypto/Wordlist.antt =====
-- crypto/src/wordlist.rs: the BIP39 English words, each as its code points, and what the invite codes
-- need of them: there are 2048, they rise, and they are lower-case letters.
mod WordsA
mod WordsB
mod WordsC
mod WordsD
use Prim.Native.Char.{code}
use Prim.Native.String
use little_love.Prelude.{
  ℕ, String, ◌≡◌, refl, Bool, true, false, ◌&&◌, List, [], ◌∷◌, ◌++◌, map, ltb, leb, nat_eq, length,
  all, is_empty, not, if◌then◌else◌,
}
use WordsA.{words_0, words_1}
use WordsB.{words_2, words_3}
use WordsC.{words_4, words_5}
use WordsD.{words_6, words_7}

abbrev pub codes : String → List ℕ
codes String.[] = []
codes (String.◌∷◌ c s) = code c ∷ codes s

unfoldable pub bip39_en : List (List ℕ)
bip39_en = map codes (
    words_0
    ++ (words_1 ++ (words_2 ++ (words_3 ++ (words_4 ++ (words_5 ++ (words_6 ++ words_7)))))))

-- Lexicographic order of code points.
abbrev pub lex_lt : List ℕ → List ℕ → Bool
lex_lt [] [] = false
lex_lt [] (y ∷ ys) = true
lex_lt (x ∷ xs) [] = false
lex_lt (x ∷ xs) (y ∷ ys) = if nat_eq x y then lex_lt xs ys else ltb x y

abbrev pub rises : List (List ℕ) → Bool
rises [] = true
rises (x ∷ xs) = elim xs [ [] ↦ true | y ∷ ys ↦ lex_lt x y ] && rises xs

abbrev pub is_lower : ℕ → Bool
is_lower c = leb b'a' c && leb c b'z'

abbrev pub is_word : List ℕ → Bool
is_word w = not (is_empty w) && all is_lower w

pub length-bip39_en : length bip39_en ≡ 2048
unfolding bip39_en
length-bip39_en = refl

pub rises-bip39_en : rises bip39_en ≡ true
unfolding bip39_en
rises-bip39_en = refl

pub is_word-bip39_en : all is_word bip39_en ≡ true
unfolding bip39_en
is_word-bip39_en = refl
