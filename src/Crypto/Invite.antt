-- ===== src/Crypto/Invite.antt =====
-- crypto/src/invite.rs: invite codes of four BIP39 words and the canonical token of 32 bytes. A text is
-- its code points. `trim` and `to_lowercase` are Rust's, over Unicode tables, and are a parameter;
-- randomness and SHA-256 come from other crates and are arguments too.
pub mod Indices
pub mod RoundTrip
use little_love.Prelude.{
  ℕ, zero, suc, ◌+◌, ◌*◌, ◌/◌, ◌%◌, ◌^◌, ◌<◌, ◌≡◌, Bool, true, false, Option, none, some, List, [],
  ◌∷◌, ◌++◌, ◌==◌, nat_Eq, list_Eq, nat_eq, length, all, ◌||◌, ◌⊎◌, inl, inr, refl, if◌then◌else◌,
}
use little_love.Crypto.Wordlist.{bip39_en, is_lower}

abbrev pub code_words : ℕ
code_words = 4

pub data InviteCodeError : Type 0 where
  -- expected, got
  wrong_word_count : ℕ → ℕ → InviteCodeError
  unknown_word : List ℕ → InviteCodeError

pub data Result {ℓ} (A : Type ℓ) : Type ℓ where
  ok : A → Result A
  err : InviteCodeError → Result A

pub Result-cases {ℓ} :
    {A : Type ℓ} (r : Result A) → ((a : A) × (r ≡ ok a)) ⊎ ((e : InviteCodeError) × (r ≡ err e))
Result-cases (ok a) = inl (a, refl)
Result-cases (err e) = inr (e, refl)

abbrev pub zero_padding : ℕ → List ℕ
zero_padding zero = []
zero_padding (suc n) = 0 ∷ zero_padding n

-- `n44 << 4` in a u64, then its low 48 bits byte by byte.
unfoldable pub canonical_token_from_n44 : ℕ → List ℕ
canonical_token_from_n44 n44 =
    let p = n44 * 16 % 2 ^ 64 in
    p / 2 ^ 40 % 256
    ∷ p / 2 ^ 32 % 256
    ∷ p / 2 ^ 24 % 256
    ∷ p / 2 ^ 16 % 256
    ∷ p / 2 ^ 8 % 256
    ∷ p % 256
    ∷ zero_padding 26

-- The loop over the first bytes; `(n << 8) | b` in a u64.
unfoldable pub read_prefix : ℕ → ℕ → List ℕ → ℕ
read_prefix zero n token = n
read_prefix (suc k) n [] = n
read_prefix (suc k) n (b ∷ token) = read_prefix k (n * 256 % 2 ^ 64 + b) token

unfoldable pub n44_from_token_prefix : List ℕ → ℕ
unfolding read_prefix
n44_from_token_prefix token = read_prefix 6 0 token / 16

-- BIP39_EN[i], for an index below 2048.
unfoldable pub word_at : List (List ℕ) → ℕ → List ℕ
word_at [] i = []
word_at (w ∷ ws) zero = w
word_at (w ∷ ws) (suc i) = word_at ws i

-- The four 11-bit indices, most significant first.
abbrev pub indices_of : ℕ → List ℕ
indices_of n44 = n44 / 2 ^ 33 % 2048 ∷ n44 / 2 ^ 22 % 2048 ∷ n44 / 2 ^ 11 % 2048 ∷ n44 % 2048 ∷ []

unfoldable pub join : List (List ℕ) → List ℕ
join [] = []
join (w ∷ ws) = elim ws [ [] ↦ w | v ∷ vs ↦ w ++ (b'-' ∷ join ws) ]

abbrev pub words_of : List ℕ → List (List ℕ)
words_of [] = []
words_of (i ∷ is) = word_at bip39_en i ∷ words_of is

unfoldable pub encode_code : List ℕ → List ℕ
unfolding join word_at n44_from_token_prefix
encode_code token = join (words_of (indices_of (n44_from_token_prefix token)))

-- `split('-')`: the pieces between the dashes; there is always one.
unfoldable pub split_from : List ℕ → List ℕ → List (List ℕ)
split_from piece [] = piece ∷ []
split_from piece (c ∷ cs) =
    if nat_eq c b'-' then piece ∷ split_from [] cs else split_from (piece ++ c ∷ []) cs

unfoldable pub split : List ℕ → List (List ℕ)
unfolding split_from
split code = split_from [] code

-- The lookup map of `word_index_lookup`; the words are distinct.
unfoldable pub index_of : List ℕ → List (List ℕ) → Option ℕ
index_of word [] = none
index_of word (w ∷ ws) =
    if w == word then some 0 else elim (index_of word ws) [ none ↦ none | some i ↦ some (suc i) ]

-- The loop that fills `indices`, and stops at the first unknown word.
unfoldable pub look_up_all : List (List ℕ) → Result (List ℕ)
unfolding index_of
look_up_all [] = ok []
look_up_all (w ∷ ws) = elim (index_of w bip39_en) [
  | none ↦ err (unknown_word w)
  | some i ↦ elim (look_up_all ws) [ err e ↦ err e | ok is ↦ ok (i ∷ is) ]
]

-- The indices are below 2048, so the `|` of the shifted indices is their sum.
abbrev pub n44_of : List ℕ → ℕ
n44_of [] = 0
n44_of (i ∷ []) = i
n44_of (i ∷ j ∷ is) = elim is [
  | [] ↦ i * 2 ^ 11 + j
  | k ∷ ks ↦ elim ks [
    | [] ↦ i * 2 ^ 22 + j * 2 ^ 11 + k
    | l ∷ ls ↦ i * 2 ^ 33 + j * 2 ^ 22 + k * 2 ^ 11 + l
  ]
]

unfoldable pub decode_parts : List (List ℕ) → Result (List ℕ)
unfolding look_up_all
decode_parts parts =
    if length parts == code_words
    then elim (look_up_all parts) [
      | err e ↦ err e
      | ok is ↦ ok (canonical_token_from_n44 (n44_of is))
    ]
    else err (wrong_word_count code_words (length parts))

-- Rust's `str::trim` and `str::to_lowercase`.
pub record UnicodeText : Type 0 where
  pub trim : List ℕ → List ℕ
  pub to_lowercase : List ℕ → List ℕ

-- A text of lower-case letters and dashes.
abbrev pub is_plain : List ℕ → Bool
is_plain = all (λ c. is_lower c || nat_eq c b'-')

-- What the codes rely on: there is nothing to trim from such a text, and it is in lower case.
pub record KeepsPlain (u : UnicodeText) : Type 0 where
  pub trim_plain : (s : List ℕ) → is_plain s ≡ true → u.trim s ≡ s
  pub lower_plain : (s : List ℕ) → is_plain s ≡ true → u.to_lowercase s ≡ s

unfoldable pub decode_code : UnicodeText → List ℕ → Result (List ℕ)
unfolding decode_parts split
decode_code u code = decode_parts (split (u.to_lowercase (u.trim code)))

-- `raw` is the eight random bytes, `sha256` the hash; `from_be_bytes` of the first six, then `>> 4`.
unfoldable pub generate_invite : List ℕ → (List ℕ → List ℕ) → List ℕ × List ℕ × List ℕ
unfolding encode_code
generate_invite raw sha256 =
    let canonical = canonical_token_from_n44 (n44_from_token_prefix raw) in
    (canonical, encode_code canonical, sha256 canonical)
