-- ===== src/Crypto/Identity.antt =====
-- crypto/src/identity.rs: a seed of 32 bytes, its phrase of 24 words, and the keys derived from it. A
-- text is its code points. HKDF and the curves come from other crates and are parameters, and so is
-- Unicode's white space.
pub mod Bits
pub mod Words
pub mod RoundTrip
pub mod Errors
use Prim.Native.Nat.{bit_or}
use little_love.Prelude.{
  ℕ, zero, suc, ◌+◌, ◌-◌, ◌*◌, ◌/◌, ◌%◌, ◌^◌, Bool, true, false, Option, none, some, List, [], ◌∷◌,
  ◌++◌, ◌==◌, nat_Eq, length, if◌then◌else◌,
}
use little_love.Crypto.Wordlist.{bip39_en, codes}
use little_love.Crypto.Invite.{word_at, index_of, zero_padding}

abbrev pub seed_len : ℕ
seed_len = 32

abbrev salt_master : List ℕ
salt_master = codes "littlelove.v0.2.master"

abbrev salt_signing : List ℕ
salt_signing = codes "littlelove.v0.2.signing"

abbrev salt_encryption : List ℕ
salt_encryption = codes "littlelove.v0.2.encryption"

pub data IdentityError : Type 0 where
  wrong_word_count : ℕ → IdentityError
  unknown_word : List ℕ → IdentityError
  hkdf : IdentityError

pub data Result {ℓ} (A : Type ℓ) : Type ℓ where
  ok : A → Result A
  err : IdentityError → Result A

-- `bytes[k]`, for an index inside the array.
unfoldable pub byte_at : List ℕ → ℕ → ℕ
byte_at [] k = 0
byte_at (x ∷ xs) zero = x
byte_at (x ∷ xs) (suc k) = byte_at xs k

-- `(bits[b / 8] >> (7 - (b % 8))) & 1`
unfoldable pub bit_at : List ℕ → ℕ → ℕ
unfolding byte_at
bit_at bits b = byte_at bits (b / 8) / 2 ^ (7 - b % 8) % 2

-- The inner loop: `n` more bits from `b` on; the lowest bit of `v << 1` is free.
unfoldable pub read_bits : List ℕ → ℕ → ℕ → ℕ → ℕ
unfolding bit_at
read_bits bits zero b v = v
read_bits bits (suc n) b v = read_bits bits n (suc b) (v * 2 % 2 ^ 16 + bit_at bits b)

-- The outer loop: the words of `n` more indices, from the `i`-th on.
unfoldable pub words_from : List ℕ → ℕ → ℕ → List (List ℕ)
unfolding read_bits word_at
words_from bits zero i = []
words_from bits (suc n) i =
    word_at bip39_en (read_bits bits 11 (i * 11) 0) ∷ words_from bits n (suc i)

-- `words.join(" ")`
unfoldable pub join_spaces : List (List ℕ) → List ℕ
join_spaces [] = []
join_spaces (w ∷ ws) = elim ws [ [] ↦ w | v ∷ vs ↦ w ++ (b' ' ∷ join_spaces ws) ]

-- The seed and a byte of zeros: 264 bits.
unfoldable pub seed_to_phrase : List ℕ → List ℕ
unfolding words_from join_spaces
seed_to_phrase seed = join_spaces (words_from (seed ++ 0 ∷ []) 24 0)

-- A piece is dropped when it is empty.
abbrev pub flush : List ℕ → List (List ℕ) → List (List ℕ)
flush [] later = later
flush (p ∷ piece) later = (p ∷ piece) ∷ later

-- `split_whitespace`: the pieces between white space that are not empty.
unfoldable pub pieces_from : (ℕ → Bool) → List ℕ → List ℕ → List (List ℕ)
pieces_from is_whitespace piece [] = flush piece []
pieces_from is_whitespace piece (c ∷ cs) =
    let later = pieces_from is_whitespace [] cs in
    let longer = pieces_from is_whitespace (piece ++ c ∷ []) cs in
    if is_whitespace c then flush piece later else longer

unfoldable pub split_whitespace : (ℕ → Bool) → List ℕ → List (List ℕ)
unfolding pieces_from
split_whitespace is_whitespace phrase = pieces_from is_whitespace [] phrase

-- `bytes[k] |= m`
unfoldable pub or_at : List ℕ → ℕ → ℕ → List ℕ
or_at [] k m = []
or_at (x ∷ xs) zero m = bit_or x m ∷ xs
or_at (x ∷ xs) (suc k) m = x ∷ or_at xs k m

-- The inner loop: the bits of the `i`-th index, `n` more from the `j`-th on.
unfoldable pub write_bits : ℕ → ℕ → ℕ → ℕ → List ℕ → List ℕ
unfolding or_at
write_bits idx i zero j bits = bits
write_bits idx i (suc n) j bits =
    let global = i * 11 + j in
    let bit = idx / 2 ^ (10 - j) % 2 in
    write_bits idx i n (suc j) (or_at bits (global / 8) (bit * 2 ^ (7 - global % 8)))

-- The loop over the words; it stops at the first unknown one.
unfoldable pub write_words : List (List ℕ) → ℕ → List ℕ → Result (List ℕ)
unfolding index_of write_bits
write_words [] i bits = ok bits
write_words (w ∷ ws) i bits = elim (index_of w bip39_en) [
  | none ↦ err (unknown_word w)
  | some idx ↦ write_words ws (suc i) (write_bits idx i 11 0 bits)
]

-- `bits[..n]`
unfoldable pub take : ℕ → List ℕ → List ℕ
take zero xs = []
take (suc n) [] = []
take (suc n) (x ∷ xs) = x ∷ take n xs

unfoldable pub phrase_to_seed : (ℕ → Bool) → List ℕ → Result (List ℕ)
unfolding split_whitespace write_words take
phrase_to_seed is_whitespace phrase =
    let words = split_whitespace is_whitespace phrase in
    if length words == 24
    then elim (write_words words 0 (zero_padding 33)) [
      | err e ↦ err e
      | ok bits ↦ ok (take seed_len bits)
    ]
    else err (wrong_word_count (length words))

-- `salt`, `ikm` and `info` to 32 bytes, or nothing when the expansion fails.
abbrev pub Hkdf : Type 0
Hkdf = List ℕ → List ℕ → List ℕ → Option (List ℕ)

unfoldable pub hkdf_extract_expand : Hkdf → List ℕ → List ℕ → List ℕ → Result (List ℕ)
hkdf_extract_expand kdf salt ikm info = elim (kdf salt ikm info) [
  | none ↦ err hkdf
  | some out ↦ ok out
]

-- The signing key and the secret are the bytes that they are made from.
pub record Identity : Type 0 where
  pub master : List ℕ
  pub ed25519_signing : List ℕ
  pub x25519_secret : List ℕ

unfoldable pub derive_identity : Hkdf → List ℕ → Result Identity
unfolding hkdf_extract_expand
derive_identity kdf seed = elim (hkdf_extract_expand kdf salt_master seed []) [
  | err e ↦ err e
  | ok master ↦ elim (hkdf_extract_expand kdf salt_signing master []) [
    | err e ↦ err e
    | ok signing ↦ elim (hkdf_extract_expand kdf salt_encryption master []) [
      | err e ↦ err e
      | ok secret ↦
          ok (record { master = master; ed25519_signing = signing; x25519_secret = secret })
    ]
  ]
]
