-- ===== src/Crypto/Identity/RoundTrip.antt =====
-- A phrase gives back its seed, and with it the identity.
use little_love.Prelude.{
  ℕ, zero, suc, ◌*◌, ◌<◌, ◌+◌, ◌-◌, ◌/◌, ◌%◌, ◌^◌, ◌≡◌, ◌∙◌, refl, sym, ap, subst, Bool, some, List,
  [], ◌∷◌, ◌++◌, length, All, arith, length-append,
}
use little_love.Crypto.Wordlist.{bip39_en}
use little_love.Crypto.Invite.{word_at, index_of, zero_padding}
use little_love.Crypto.Invite.Indices.{index_of-bip39_en}
use little_love.Crypto.Identity.{
  ok, byte_at, bit_at, read_bits, words_from, seed_to_phrase, write_bits, write_words, take,
  phrase_to_seed,
}
use little_love.Crypto.Identity.Bits.{IsBytes, Copied, read_bits_below, write_bits-Copied}
use little_love.Crypto.Identity.Words.{
  PartsWords, split_whitespace-join_spaces, words_from-is_word, length-words_from,
}

write_known :
    (w : List ℕ) (ws : List (List ℕ)) (idx i : ℕ) (bits : List ℕ)
    → index_of w bip39_en ≡ some idx
    → write_words (w ∷ ws) i bits ≡ write_words ws (suc i) (write_bits idx i 11 0 bits)
unfolding write_words
write_known w ws idx i bits found = rw (found, write_words) refl

-- The words write the bits that they were read from.
write_words-Copied :
    (source : List ℕ) (n i : ℕ) (bits : List ℕ)
    → i + n ≡ 24
    → Copied source (i * 11) bits
    → (after : List ℕ) × (write_words (words_from source n i) i bits ≡ ok after)
      × Copied source 264 after
unfolding write_words words_from
write_words-Copied source zero i bits e copied =
    let all_bits : i * 11 ≡ 264 = omega arith in
    (bits, refl, subst (λ g. Copied source g bits) all_bits copied)
write_words-Copied source (suc n) i bits e copied =
    let idx = read_bits source 11 (i * 11) 0 in
    let found = index_of-bip39_en idx (read_bits_below source (i * 11)) in
    let start : i * 11 ≡ i * 11 + 0 = omega arith in
    let next : i * 11 + 11 ≡ suc i * 11 = omega arith in
    let written =
      write_bits-Copied source i 11 0 bits (omega arith) refl
        (subst (λ g. Copied source g bits) start copied) in
    let (after, same, done) =
      write_words-Copied source n (suc i) (write_bits idx i 11 0 bits) (omega arith)
        (subst (λ g. Copied source g (write_bits idx i 11 0 bits)) next written) in
    let rest = words_from source n (suc i) in
    (after, write_known (word_at bip39_en idx) rest idx i bits found ∙ same, done)

byte_at_zeros : (n k : ℕ) → byte_at (zero_padding n) k ≡ 0
unfolding byte_at
byte_at_zeros zero k = refl
byte_at_zeros (suc n) zero = refl
byte_at_zeros (suc n) (suc k) = byte_at_zeros n k

zero_bits : (t : ℕ) → 0 / 2 ^ t % 2 ≡ 0
zero_bits t = omega arith

zeros-Copied : (source : List ℕ) → Copied source 0 (zero_padding 33)
unfolding bit_at
zeros-Copied source = record {
  size = refl;
  bytes = λ k. rw byte_at_zeros (omega arith);
  same = λ b.
      ap (λ x. x / 2 ^ (7 - b % 8) % 2) (byte_at_zeros 33 (b / 8))
      ∙ ground (arith, zero_bits (7 - b % 8));
}

-- A byte is its eight bits.
byte-bits :
    (x y : ℕ)
    → x < 256
    → y < 256
    → ((t : ℕ) → t < 8 → x / 2 ^ (7 - t) % 2 ≡ y / 2 ^ (7 - t) % 2)
    → x ≡ y
byte-bits x y hx hy h = omega (
  arith,
  h 0 (omega arith),
  h 1 (omega arith),
  h 2 (omega arith),
  h 3 (omega arith),
  h 4 (omega arith),
  h 5 (omega arith),
  h 6 (omega arith),
  h 7 (omega arith),
)

byte_at-ext :
    (xs ys : List ℕ)
    → length xs ≡ length ys
    → ((k : ℕ) → k < length xs → byte_at xs k ≡ byte_at ys k)
    → xs ≡ ys
unfolding byte_at
byte_at-ext [] [] e h = refl
byte_at-ext [] (y ∷ ys) e h = absurd (omega (arith, e))
byte_at-ext (x ∷ xs) [] e h = absurd (omega (arith, e))
byte_at-ext (x ∷ xs) (y ∷ ys) e h =
    let head = h 0 (omega arith) in
    let tail = byte_at-ext xs ys (omega (arith, e)) (λ k b. h (suc k) (omega (arith, b))) in
    rw (head, tail) refl

Copied-all :
    (source bits : List ℕ)
    → length source ≡ 33
    → IsBytes source
    → Copied source 264 bits
    → bits ≡ source
unfolding bit_at
Copied-all source bits size bytes copied = byte_at-ext bits source (copied.size ∙ sym size) (λ k b.
    byte-bits (byte_at bits k) (byte_at source k) (copied.bytes k) (bytes k) (λ t ht.
      let g = 8 * k + t in
      let below : g < 264 = omega (arith, b, ht, copied.size) in
      let fact : byte_at bits (g / 8) / 2 ^ (7 - g % 8) % 2
          ≡ byte_at source (g / 8) / 2 ^ (7 - g % 8) % 2 =
        copied.same g ∙ ground (arith, below) in
      let quotient : g / 8 ≡ k = omega (arith, ht) in
      let rest : g % 8 ≡ t = omega (arith, ht) in rw (quotient, rest) at fact))

take-append : (xs ys : List ℕ) → take (length xs) (xs ++ ys) ≡ xs
unfolding take
take-append [] ys = refl
take-append (x ∷ xs) ys = ap (◌∷◌ x) (take-append xs ys)

All-IsBytes : (xs : List ℕ) → All (λ x. x < 256) xs → IsBytes (xs ++ 0 ∷ [])
unfolding byte_at
All-IsBytes [] h zero = omega arith
All-IsBytes [] h (suc k) = omega arith
All-IsBytes (x ∷ xs) h zero = h.0
All-IsBytes (x ∷ xs) h (suc k) = All-IsBytes xs h.1 k

-- The phrase of a seed of 32 bytes gives the seed back, if a space is white space and no lower-case
-- letter is.
pub phrase_to_seed-seed_to_phrase :
    (is_whitespace : ℕ → Bool) (seed : List ℕ)
    → PartsWords is_whitespace
    → length seed ≡ 32
    → All (λ x. x < 256) seed
    → phrase_to_seed is_whitespace (seed_to_phrase seed) ≡ ok seed
unfolding phrase_to_seed seed_to_phrase
phrase_to_seed-seed_to_phrase is_whitespace seed parts size bytes =
    let source = seed ++ 0 ∷ [] in
    let words = words_from source 24 0 in
    let split =
      split_whitespace-join_spaces is_whitespace parts words (words_from-is_word source 24 0) in
    let (bits, wrote, copied) =
      write_words-Copied source 24 0 (zero_padding 33) refl (zeros-Copied source) in
    let same =
      Copied-all source bits (omega (arith, length-append seed (0 ∷ []), size))
        (All-IsBytes seed bytes) copied in
    let taken : take 32 source ≡ seed =
      ap (λ n. take n source) (sym size) ∙ take-append seed (0 ∷ []) in
    rw (split, length-words_from source 24 0, wrote, same, taken) refl
