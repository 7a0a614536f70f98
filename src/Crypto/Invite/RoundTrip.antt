-- ===== src/Crypto/Invite/RoundTrip.antt =====
-- Encoding and decoding invite codes are inverse to each other.
use mathlib.Core.List.{append-nil, append_assoc}
use little_love.Prelude.{
  ℕ, suc, ◌/◌, ◌%◌, ◌^◌, ◌<◌, ◌≡◌, ◌≢◌, refl, sym, ap, ◌∙◌, Bool, true, not, none, List, [], ◌∷◌,
  ◌++◌, arith, ◌⊎◌, nat_eq, nat_eq_iff, Bool-cases, Option-cases, inl, inr, length, all, All,
}
use little_love.Crypto.Wordlist.{bip39_en, is_word, is_lower}
use little_love.Crypto.Invite.{
  InviteCodeError, unknown_word, wrong_word_count, Result-cases, ok, err, UnicodeText, KeepsPlain,
  is_plain, canonical_token_from_n44, n44_from_token_prefix, word_at, indices_of, join, words_of,
  encode_code, split_from, split, index_of, look_up_all, n44_of, decode_parts, decode_code,
}
use little_love.Crypto.Invite.Indices.{index_of-bip39_en, bip39_en-index_of, is_word-bip39_en_at}

-- The token's prefix gives the number back.
n44_from_token_prefix-canonical :
    (n : ℕ) → n < 2 ^ 44 → n44_from_token_prefix (canonical_token_from_n44 n) ≡ n
unfolding n44_from_token_prefix canonical_token_from_n44
n44_from_token_prefix-canonical n h = omega arith

n44_of-indices_of : (n : ℕ) → n < 2 ^ 44 → n44_of (indices_of n) ≡ n
n44_of-indices_of n h = omega arith

abbrev no_dash : List ℕ → Bool
no_dash = all (λ c. not (nat_eq c b'-'))

split_from-no_dash : (piece w : List ℕ) → no_dash w ≡ true → split_from piece w ≡ (piece ++ w) ∷ []
unfolding split_from
split_from-no_dash piece [] h = rw append-nil
split_from-no_dash piece (c ∷ w) h =
    ground (arith, split_from-no_dash (piece ++ c ∷ []) w, append_assoc piece (c ∷ []) w)

split_from-dash :
    (piece w rest : List ℕ)
    → no_dash w ≡ true
    → split_from piece (w ++ (b'-' ∷ rest)) ≡ (piece ++ w) ∷ split_from [] rest
unfolding split_from
split_from-dash piece [] rest h = rw append-nil
split_from-dash piece (c ∷ w) rest h =
    ground (arith, split_from-dash (piece ++ c ∷ []) w rest, append_assoc piece (c ∷ []) w)

-- Splitting undoes joining, for pieces that hold no dash.
split-join :
    (w : List ℕ) (ws : List (List ℕ))
    → All (λ v. no_dash v ≡ true) (w ∷ ws)
    → split (join (w ∷ ws)) ≡ w ∷ ws
unfolding split join
split-join w [] h = split_from-no_dash [] w h.0
split-join w (v ∷ ws) h =
    split_from-dash [] w (join (v ∷ ws)) h.0 ∙ ap (◌∷◌ w) (split-join v ws h.1)

split_from_cons :
    (piece cs : List ℕ) → (v : List ℕ) × (vs : List (List ℕ)) × (split_from piece cs ≡ v ∷ vs)
unfolding split_from
split_from_cons piece [] = (piece, [], refl)
split_from_cons piece (c ∷ cs) = elim (Bool-cases (nat_eq c b'-')) [
  | inl dash ↦ (piece, split_from [] cs, rw dash)
  | inr other ↦ rw other (split_from_cons (piece ++ c ∷ []) cs)
]

join_one : {w : List ℕ} → join (w ∷ []) ≡ w
unfolding join
join_one = refl

join-split_from_dash :
    (piece cs : List ℕ)
    → join (piece ∷ split_from [] cs) ≡ piece ++ (b'-' ∷ join (split_from [] cs))
unfolding join
join-split_from_dash piece cs = let (v, vs, e) = split_from_cons [] cs in rw e

-- And joining undoes splitting.
join-split_from : (piece cs : List ℕ) → join (split_from piece cs) ≡ piece ++ cs
unfolding split_from
join-split_from piece [] = rw append-nil join_one
join-split_from piece (c ∷ cs) = elim (Bool-cases (nat_eq c b'-')) [
  | inl dash ↦
      rw (dash, (nat_eq_iff c b'-').0 dash, join-split_from_dash piece cs, join-split_from [] cs)
  | inr other ↦ rw other (join-split_from (piece ++ c ∷ []) cs ∙ append_assoc piece (c ∷ []) cs)
]

all-is_lower-no_dash : (w : List ℕ) → all is_lower w ≡ true → no_dash w ≡ true
all-is_lower-no_dash [] h = refl
all-is_lower-no_dash (c ∷ w) h = ground (arith, all-is_lower-no_dash w)

is_word-no_dash : (w : List ℕ) → is_word w ≡ true → no_dash w ≡ true
is_word-no_dash w h = all-is_lower-no_dash w (ground arith)

is_plain-word : (w : List ℕ) → all is_lower w ≡ true → is_plain w ≡ true
is_plain-word [] h = refl
is_plain-word (c ∷ w) h = ground (arith, is_plain-word w)

is_plain-append :
    (xs ys : List ℕ) → is_plain xs ≡ true → is_plain ys ≡ true → is_plain (xs ++ ys) ≡ true
is_plain-append [] ys p q = q
is_plain-append (x ∷ xs) ys p q = ground (arith, is_plain-append xs ys)

is_plain-join : (ws : List (List ℕ)) → All (λ w. is_word w ≡ true) ws → is_plain (join ws) ≡ true
unfolding join
is_plain-join [] h = refl
is_plain-join (w ∷ []) h = is_plain-word w (ground (arith, h.0))
is_plain-join (w ∷ v ∷ ws) h =
    is_plain-append w (b'-' ∷ join (v ∷ ws)) (is_plain-word w (ground (arith, h.0)))
      (ground (arith, is_plain-join (v ∷ ws) h.1))

abbrev Below2048 : List ℕ → Type 0
Below2048 = All (λ i. i < 2048)

look_up_all-words_of : (is : List ℕ) → Below2048 is → look_up_all (words_of is) ≡ ok is
unfolding look_up_all
look_up_all-words_of [] b = refl
look_up_all-words_of (i ∷ is) b =
    ground (arith, index_of-bip39_en i b.0, look_up_all-words_of is b.1)

words_of-look_up_all :
    (ws : List (List ℕ)) (is : List ℕ)
    → look_up_all ws ≡ ok is
    → (words_of is ≡ ws) × Below2048 is × (length is ≡ length ws)
unfolding look_up_all
words_of-look_up_all [] is h = let e : is ≡ [] = ground arith in rw e (refl, tt, refl)
words_of-look_up_all (w ∷ ws) is h = elim (Option-cases (index_of w bip39_en)) [
  | inl missing ↦ absurd (cc (missing, h))
  | inr (i, found) ↦ elim (Result-cases (look_up_all ws)) [
    | inr (e, bad) ↦ absurd (cc (found, bad, h))
    | inl (js, good) ↦
        let e : is ≡ i ∷ js = cc (found, good, h) in
        let (at, below) = bip39_en-index_of w i found in
        let (words, bounds, len) = words_of-look_up_all ws js good in
        rw e (cc (at, words), (below, bounds), ap suc len)
  ]
]

words_of_are_words : (is : List ℕ) → Below2048 is → All (λ w. is_word w ≡ true) (words_of is)
words_of_are_words [] b = tt
words_of_are_words (i ∷ is) b = (is_word-bip39_en_at i b.0, words_of_are_words is b.1)

words_of-no_dash : (is : List ℕ) → Below2048 is → All (λ w. no_dash w ≡ true) (words_of is)
words_of-no_dash [] b = tt
words_of-no_dash (i ∷ is) b =
    (is_word-no_dash (word_at bip39_en i) (is_word-bip39_en_at i b.0), words_of-no_dash is b.1)

indices_of_below : (n : ℕ) → Below2048 (indices_of n)
indices_of_below n = omega arith

split-words_of :
    (i : ℕ) (is : List ℕ)
    → Below2048 (i ∷ is)
    → split (join (words_of (i ∷ is))) ≡ words_of (i ∷ is)
split-words_of i is b = split-join (word_at bip39_en i) (words_of is) (words_of-no_dash (i ∷ is) b)

decode_parts-words_of :
    (n : ℕ) → n < 2 ^ 44 → decode_parts (words_of (indices_of n)) ≡ ok (canonical_token_from_n44 n)
unfolding decode_parts
decode_parts-words_of n h =
    rw (look_up_all-words_of (indices_of n) (indices_of_below n))
      (ap (λ k. ok (canonical_token_from_n44 k)) (n44_of-indices_of n h))

-- The code of the canonical token of any 44-bit number decodes to that token, if trimming and
-- lower-casing leave texts of lower-case letters and dashes as they are.
pub decode_code-encode_code :
    (u : UnicodeText) (n : ℕ)
    → KeepsPlain u
    → n < 2 ^ 44
    → decode_code u (encode_code (canonical_token_from_n44 n)) ≡ ok (canonical_token_from_n44 n)
unfolding decode_code encode_code
decode_code-encode_code u n k h =
    let code = join (words_of (indices_of n)) in
    let plain =
      is_plain-join (words_of (indices_of n))
        (words_of_are_words (indices_of n) (indices_of_below n)) in
    let coded = ap (λ k. join (words_of (indices_of k))) (n44_from_token_prefix-canonical n h) in
    let same = ap u.to_lowercase (k.trim_plain code plain) ∙ k.lower_plain code plain in
    ap (λ c. decode_parts (split (u.to_lowercase (u.trim c)))) coded
    ∙ ap (λ c. decode_parts (split c)) same
    ∙ ap decode_parts (
        split-words_of (n / 2 ^ 33 % 2048) (n / 2 ^ 22 % 2048 ∷ n / 2 ^ 11 % 2048 ∷ n % 2048 ∷ [])
          (indices_of_below n))
    ∙ decode_parts-words_of n h

indices_back :
    (i j k l : ℕ)
    → Below2048 (i ∷ j ∷ k ∷ l ∷ [])
    → let n = n44_of (i ∷ j ∷ k ∷ l ∷ []) in
      (n / 2 ^ 33 % 2048 ≡ i) × (n / 2 ^ 22 % 2048 ≡ j) × (n / 2 ^ 11 % 2048 ≡ k) × (n % 2048 ≡ l)
indices_back i j k l b = omega arith

-- Four indices below 2048 make a number of 44 bits with just those indices.
indices_of-n44_of :
    (is : List ℕ)
    → Below2048 is
    → length is ≡ 4
    → (indices_of (n44_of is) ≡ is) × (n44_of is < 2 ^ 44)
indices_of-n44_of (i ∷ j ∷ k ∷ l ∷ []) b h =
    let (w₀, w₁, w₂, w₃) = indices_back i j k l b in (rw (w₀, w₁, w₂, w₃), omega arith)
indices_of-n44_of _ b h = absurd (omega arith)

decode_parts-ok :
    (parts : List (List ℕ)) (token : List ℕ)
    → decode_parts parts ≡ ok token
    → (n : ℕ) × (n < 2 ^ 44)
      × (token ≡ canonical_token_from_n44 n)
      × (words_of (indices_of n) ≡ parts)
unfolding decode_parts
decode_parts-ok parts token h = elim (Bool-cases (nat_eq (length parts) 4)) [
  | inr other ↦ absurd (ground (arith, other, h))
  | inl four ↦ elim (Result-cases (look_up_all parts)) [
    | inr (e, bad) ↦ absurd (ground (arith, four, bad, h))
    | inl (is, good) ↦
        let (words, below, len) = words_of-look_up_all parts is good in
        let (back, bound) =
          indices_of-n44_of is below (len ∙ (nat_eq_iff (length parts) 4).0 four) in
        (n44_of is, bound, ground (arith, four, good, h), ap words_of back ∙ words)
  ]
]

-- Whatever code is accepted, its token is the canonical token of a 44-bit number, and encoding the
-- token gives the code back as it was after trimming and lower-casing.
pub encode_code-decode_code :
    (u : UnicodeText) (code token : List ℕ)
    → decode_code u code ≡ ok token
    → ((n : ℕ) × (n < 2 ^ 44) × (token ≡ canonical_token_from_n44 n))
      × (encode_code token ≡ u.to_lowercase (u.trim code))
unfolding decode_code encode_code
encode_code-decode_code u code token h =
    let (n, bound, e, words) = decode_parts-ok (split (u.to_lowercase (u.trim code))) token h in
    (
      (n, bound, e),
      ap encode_code e
          ∙ ap (λ k. join (words_of (indices_of k))) (n44_from_token_prefix-canonical n bound)
          ∙ ap join words
          ∙ unfold split in join-split_from [] (u.to_lowercase (u.trim code)),
    )

look_up_all_error :
    (ws : List (List ℕ)) (e : InviteCodeError)
    → look_up_all ws ≡ err e
    → (known rest : List (List ℕ)) × (w : List ℕ) × (ws ≡ known ++ w ∷ rest)
      × (All (λ v. index_of v bip39_en ≢ none) known)
      × (index_of w bip39_en ≡ none)
      × (e ≡ unknown_word w)
unfolding look_up_all
look_up_all_error [] e h = absurd (cc h)
look_up_all_error (w ∷ ws) e h = elim (Option-cases (index_of w bip39_en)) [
  | inl missing ↦ ([], ws, w, refl, tt, missing, cc (missing, h))
  | inr (i, found) ↦ elim (Result-cases (look_up_all ws)) [
    | inl (is, good) ↦ absurd (cc (found, good, h))
    | inr (e', bad) ↦
        let same : e ≡ e' = cc (found, bad, h) in
        let (known, rest, v, at, ks, m, u) = look_up_all_error ws e (bad ∙ ap err (sym same)) in
        (w ∷ known, rest, v, ap (◌∷◌ w) at, ((λ n. cc (found, n)), ks), m, u)
  ]
]

-- A code of other than four parts is refused with the number of its parts, and so is a code with a
-- word that is not in the list, with the first such word.
pub decode_code_errors :
    (u : UnicodeText) (code : List ℕ) (e : InviteCodeError)
    → decode_code u code ≡ err e
    → let parts = split (u.to_lowercase (u.trim code)) in
      ((length parts ≢ 4) × (e ≡ wrong_word_count 4 (length parts)))
      ⊎ ((length parts ≡ 4)
          × ((known rest : List (List ℕ)) × (w : List ℕ) × (parts ≡ known ++ w ∷ rest)
              × (All (λ v. index_of v bip39_en ≢ none) known)
              × (index_of w bip39_en ≡ none)
              × (e ≡ unknown_word w)))
unfolding decode_code decode_parts
decode_code_errors u code e h =
    let parts = split (u.to_lowercase (u.trim code)) in
    elim (Bool-cases (nat_eq (length parts) 4)) [
      | inr other ↦ inl (ground (arith, other), ground (arith, other, h))
      | inl four ↦ inr (ground (arith, four), look_up_all_error parts e (ground (arith, four, h)))
    ]
