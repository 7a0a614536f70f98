-- ===== src/Crypto/Identity/Bits.antt =====
-- The bits of the seed: what is read as indices is written back.
use Prim.Native.Nat.{bit_or}
use little_love.Prelude.{
  ℕ, zero, suc, ◌+◌, ◌-◌, ◌*◌, ◌/◌, ◌%◌, ◌^◌, ◌<◌, ◌≡◌, ◌∙◌, refl, ap, subst, inl, inr, Bool, true,
  false, ◌&&◌, List, [], ◌∷◌, ◌==◌, nat_Eq, nat_eq_iff, all_below, all_below_sound, ltb, ltb→lt,
  length, arith, Bool-cases, if◌then◌else◌,
}
use little_love.Crypto.Identity.{byte_at, bit_at, read_bits, or_at, write_bits}

-- Setting the bit `s` of a byte sets that bit only.
abbrev or_right : ℕ → ℕ → ℕ → ℕ → Bool
or_right x c s t =
    bit_or x (c * 2 ^ s) / 2 ^ t % 2 == (if s == t && c == 1 then 1 else x / 2 ^ t % 2)

abbrev or_byte : ℕ → ℕ → ℕ → Bool
or_byte x c s = ltb (bit_or x (c * 2 ^ s)) 256 && all_below 8 (or_right x c s)

or_table : all_below 256 (λ x. all_below 2 (λ c. all_below 8 (or_byte x c))) ≡ true
or_table = refl

or_right_all :
    (x c s t : ℕ)
    → x < 256
    → c < 2
    → s < 8
    → t < 8
    → (bit_or x (c * 2 ^ s) < 256)
      × (bit_or x (c * 2 ^ s) / 2 ^ t % 2 ≡ (if s == t && c == 1 then 1 else x / 2 ^ t % 2))
or_right_all x c s t hx hc hs ht =
    let at_x =
      all_below_sound 256 (λ x. all_below 2 (λ c. all_below 8 (or_byte x c))) x or_table hx in
    let at_c = all_below_sound 2 (λ c. all_below 8 (or_byte x c)) c at_x hc in
    let at_s = all_below_sound 8 (or_byte x c) s at_c hs in
    let inside : all_below 8 (or_right x c s) ≡ true = ground (arith, at_s) in
    (
      ltb→lt (bit_or x (c * 2 ^ s)) 256 (ground (arith, at_s)),
      (nat_eq_iff _ _).0 (all_below_sound 8 (or_right x c s) t inside ht),
    )

-- The byte at `k` of `or_at`.
byte_at-or_at :
    (xs : List ℕ) (k m j : ℕ)
    → k < length xs
    → byte_at (or_at xs k m) j ≡ (if k == j then bit_or (byte_at xs k) m else byte_at xs j)
unfolding byte_at or_at
byte_at-or_at [] k m j h = absurd (omega (arith, h))
byte_at-or_at (x ∷ xs) zero m zero h = refl
byte_at-or_at (x ∷ xs) zero m (suc j) h = ground arith
byte_at-or_at (x ∷ xs) (suc k) m zero h = ground arith
byte_at-or_at (x ∷ xs) (suc k) m (suc j) h = ground (arith, byte_at-or_at xs k m j (omega arith))

pub length-or_at : (xs : List ℕ) (k m : ℕ) → length (or_at xs k m) ≡ length xs
unfolding or_at
length-or_at [] k m = refl
length-or_at (x ∷ xs) zero m = refl
length-or_at (x ∷ xs) (suc k) m = ap suc (length-or_at xs k m)

abbrev pub IsBytes : List ℕ → Type 0
IsBytes xs = (k : ℕ) → byte_at xs k < 256

-- One bit is set, if it was not: the others stay.
bit_at-or_at :
    (xs : List ℕ) (g c b : ℕ)
    → IsBytes xs
    → c < 2
    → g < 8 * length xs
    → bit_at (or_at xs (g / 8) (c * 2 ^ (7 - g % 8))) b
      ≡ (if g == b && c == 1 then 1 else bit_at xs b)
unfolding bit_at
bit_at-or_at xs g c b bytes hc hg =
    let k = g / 8 in
    let s = 7 - g % 8 in
    let t = 7 - b % 8 in
    let byte = byte_at-or_at xs k (c * 2 ^ s) (b / 8) (omega arith) in
    elim (Bool-cases (k == b / 8)) [
      | inl here ↦
          let bits = or_right_all (byte_at xs k) c s t (bytes k) hc (omega arith) (omega arith) in
          let moved = ap (λ x. x / 2 ^ t % 2) (ap (byte_at xs) ((nat_eq_iff k (b / 8)).0 here)) in
          let same : (s == t) ≡ (g == b) = ground (arith, here) in
          let set : bit_at (or_at xs k (c * 2 ^ s)) b
              ≡ bit_or (byte_at xs k) (c * 2 ^ s) / 2 ^ t % 2 =
            ap (λ x. x / 2 ^ t % 2) (ground (arith, byte, here)) in
          set ∙ ground (arith, same, bits.1, moved)
      | inr there ↦
          let other : (g == b) ≡ false = ground (arith, there) in
          let kept : bit_at (or_at xs k (c * 2 ^ s)) b ≡ bit_at xs b =
            ap (λ x. x / 2 ^ t % 2) (ground (arith, byte, there)) in
          kept ∙ ground (arith, other)
    ]

or_at-IsBytes :
    (xs : List ℕ) (g c : ℕ)
    → IsBytes xs
    → c < 2
    → g < 8 * length xs
    → IsBytes (or_at xs (g / 8) (c * 2 ^ (7 - g % 8)))
or_at-IsBytes xs g c bytes hc hg j =
    let k = g / 8 in
    let s = 7 - g % 8 in
    ground (
      arith,
      byte_at-or_at xs k (c * 2 ^ s) j (omega arith),
      bytes j,
      or_right_all (byte_at xs k) c s 0 (bytes k) hc (omega arith) (omega arith),
    )

-- The first `g` bits are those of `source`, and the later ones are unset.
pub record Copied (source : List ℕ) (g : ℕ) (bits : List ℕ) : Type 0 where
  pub size : length bits ≡ 33
  pub bytes : IsBytes bits
  pub same : (b : ℕ) → bit_at bits b ≡ (if ltb b g then bit_at source b else 0)

bit_at_below : (xs : List ℕ) (b : ℕ) → bit_at xs b < 2
unfolding bit_at
bit_at_below xs b = omega arith

Copied-or_at :
    (source bits : List ℕ) (g c : ℕ)
    → Copied source g bits
    → g < 264
    → c ≡ bit_at source g
    → Copied source (suc g) (or_at bits (g / 8) (c * 2 ^ (7 - g % 8)))
Copied-or_at source bits g c copied bound e =
    let small : c < 2 = rw e (bit_at_below source g) in
    let inside : g < 8 * length bits = rw copied.size bound in
    record {
      size = length-or_at bits (g / 8) (c * 2 ^ (7 - g % 8)) ∙ copied.size;
      bytes = or_at-IsBytes bits g c copied.bytes small inside;
      same = λ b.
          ground
            (arith, e, small, bit_at-or_at bits g c b copied.bytes small inside, copied.same b);
    }

-- Eleven bits as a number, and its bits again.
abbrev number : (a b c d e f g h i j k : ℕ) → ℕ
number a b c d e f g h i j k =
    ((((((((((a * 2 + b) * 2 + c) * 2 + d) * 2 + e) * 2 + f) * 2 + g) * 2 + h) * 2 + i) * 2 + j) * 2
      + k)

read_bits-number :
    (bits : List ℕ) (s : ℕ)
    → read_bits bits 11 s 0
      ≡ number
          (bit_at bits s)
          (bit_at bits (suc s))
          (bit_at bits (suc (suc s)))
          (bit_at bits (suc (suc (suc s))))
          (bit_at bits (suc (suc (suc (suc s)))))
          (bit_at bits (suc (suc (suc (suc (suc s))))))
          (bit_at bits (suc (suc (suc (suc (suc (suc s)))))))
          (bit_at bits (suc (suc (suc (suc (suc (suc (suc s))))))))
          (bit_at bits (suc (suc (suc (suc (suc (suc (suc (suc s)))))))))
          (bit_at bits (suc (suc (suc (suc (suc (suc (suc (suc (suc s))))))))))
          (bit_at bits (suc (suc (suc (suc (suc (suc (suc (suc (suc (suc s)))))))))))
unfolding read_bits
read_bits-number bits s = omega (
  arith,
  bit_at_below bits s,
  bit_at_below bits (suc s),
  bit_at_below bits (suc (suc s)),
  bit_at_below bits (suc (suc (suc s))),
  bit_at_below bits (suc (suc (suc (suc s)))),
  bit_at_below bits (suc (suc (suc (suc (suc s))))),
  bit_at_below bits (suc (suc (suc (suc (suc (suc s)))))),
  bit_at_below bits (suc (suc (suc (suc (suc (suc (suc s))))))),
  bit_at_below bits (suc (suc (suc (suc (suc (suc (suc (suc s)))))))),
  bit_at_below bits (suc (suc (suc (suc (suc (suc (suc (suc (suc s))))))))),
  bit_at_below bits (suc (suc (suc (suc (suc (suc (suc (suc (suc (suc s)))))))))),
)

number_bit :
    (a b c d e f g h i j k : ℕ)
    → a < 2
    → b < 2
    → c < 2
    → d < 2
    → e < 2
    → f < 2
    → g < 2
    → h < 2
    → i < 2
    → j < 2
    → k < 2
    → (number a b c d e f g h i j k / 2 ^ 10 % 2 ≡ a)
      × (number a b c d e f g h i j k / 2 ^ 9 % 2 ≡ b)
      × (number a b c d e f g h i j k / 2 ^ 8 % 2 ≡ c)
      × (number a b c d e f g h i j k / 2 ^ 7 % 2 ≡ d)
      × (number a b c d e f g h i j k / 2 ^ 6 % 2 ≡ e)
      × (number a b c d e f g h i j k / 2 ^ 5 % 2 ≡ f)
      × (number a b c d e f g h i j k / 2 ^ 4 % 2 ≡ g)
      × (number a b c d e f g h i j k / 2 ^ 3 % 2 ≡ h)
      × (number a b c d e f g h i j k / 2 ^ 2 % 2 ≡ i)
      × (number a b c d e f g h i j k / 2 ^ 1 % 2 ≡ j)
      × (number a b c d e f g h i j k / 2 ^ 0 % 2 ≡ k)
number_bit a b c d e f g h i j k ha hb hc hd he hf hg hh hi hj hk = (
  omega arith,
  omega arith,
  omega arith,
  omega arith,
  omega arith,
  omega arith,
  omega arith,
  omega arith,
  omega arith,
  omega arith,
  omega arith,
)

pub read_bits_below : (bits : List ℕ) (s : ℕ) → read_bits bits 11 s 0 < 2048
read_bits_below bits s = omega (
  arith,
  read_bits-number bits s,
  bit_at_below bits s,
  bit_at_below bits (suc s),
  bit_at_below bits (suc (suc s)),
  bit_at_below bits (suc (suc (suc s))),
  bit_at_below bits (suc (suc (suc (suc s)))),
  bit_at_below bits (suc (suc (suc (suc (suc s))))),
  bit_at_below bits (suc (suc (suc (suc (suc (suc s)))))),
  bit_at_below bits (suc (suc (suc (suc (suc (suc (suc s))))))),
  bit_at_below bits (suc (suc (suc (suc (suc (suc (suc (suc s)))))))),
  bit_at_below bits (suc (suc (suc (suc (suc (suc (suc (suc (suc s))))))))),
  bit_at_below bits (suc (suc (suc (suc (suc (suc (suc (suc (suc (suc s)))))))))),
)

bits_of :
    (bits : List ℕ) (s : ℕ)
    → let v =
        number
          (bit_at bits s)
          (bit_at bits (suc s))
          (bit_at bits (suc (suc s)))
          (bit_at bits (suc (suc (suc s))))
          (bit_at bits (suc (suc (suc (suc s)))))
          (bit_at bits (suc (suc (suc (suc (suc s))))))
          (bit_at bits (suc (suc (suc (suc (suc (suc s)))))))
          (bit_at bits (suc (suc (suc (suc (suc (suc (suc s))))))))
          (bit_at bits (suc (suc (suc (suc (suc (suc (suc (suc s)))))))))
          (bit_at bits (suc (suc (suc (suc (suc (suc (suc (suc (suc s))))))))))
          (bit_at bits (suc (suc (suc (suc (suc (suc (suc (suc (suc (suc s))))))))))) in
      (v / 2 ^ 10 % 2 ≡ bit_at bits s)
      × (v / 2 ^ 9 % 2 ≡ bit_at bits (suc s))
      × (v / 2 ^ 8 % 2 ≡ bit_at bits (suc (suc s)))
      × (v / 2 ^ 7 % 2 ≡ bit_at bits (suc (suc (suc s))))
      × (v / 2 ^ 6 % 2 ≡ bit_at bits (suc (suc (suc (suc s)))))
      × (v / 2 ^ 5 % 2 ≡ bit_at bits (suc (suc (suc (suc (suc s))))))
      × (v / 2 ^ 4 % 2 ≡ bit_at bits (suc (suc (suc (suc (suc (suc s)))))))
      × (v / 2 ^ 3 % 2 ≡ bit_at bits (suc (suc (suc (suc (suc (suc (suc s))))))))
      × (v / 2 ^ 2 % 2 ≡ bit_at bits (suc (suc (suc (suc (suc (suc (suc (suc s)))))))))
      × (v / 2 ^ 1 % 2 ≡ bit_at bits (suc (suc (suc (suc (suc (suc (suc (suc (suc s))))))))))
      × (v / 2 ^ 0 % 2 ≡ bit_at bits (suc (suc (suc (suc (suc (suc (suc (suc (suc (suc s)))))))))))
bits_of bits s =
    number_bit (bit_at bits s) (bit_at bits (suc s)) (bit_at bits (suc (suc s)))
      (bit_at bits (suc (suc (suc s)))) (bit_at bits (suc (suc (suc (suc s)))))
      (bit_at bits (suc (suc (suc (suc (suc s))))))
      (bit_at bits (suc (suc (suc (suc (suc (suc s)))))))
      (bit_at bits (suc (suc (suc (suc (suc (suc (suc s))))))))
      (bit_at bits (suc (suc (suc (suc (suc (suc (suc (suc s)))))))))
      (bit_at bits (suc (suc (suc (suc (suc (suc (suc (suc (suc s))))))))))
      (bit_at bits (suc (suc (suc (suc (suc (suc (suc (suc (suc (suc s)))))))))))
      (bit_at_below bits s) (bit_at_below bits (suc s)) (bit_at_below bits (suc (suc s)))
      (bit_at_below bits (suc (suc (suc s)))) (bit_at_below bits (suc (suc (suc (suc s)))))
      (bit_at_below bits (suc (suc (suc (suc (suc s))))))
      (bit_at_below bits (suc (suc (suc (suc (suc (suc s)))))))
      (bit_at_below bits (suc (suc (suc (suc (suc (suc (suc s))))))))
      (bit_at_below bits (suc (suc (suc (suc (suc (suc (suc (suc s)))))))))
      (bit_at_below bits (suc (suc (suc (suc (suc (suc (suc (suc (suc s))))))))))
      (bit_at_below bits (suc (suc (suc (suc (suc (suc (suc (suc (suc (suc s)))))))))))

-- The bit `j` of the index that starts at `s`.
pub read_bits_bit :
    (bits : List ℕ) (s j b : ℕ)
    → j < 11
    → b ≡ s + j
    → read_bits bits 11 s 0 / 2 ^ (10 - j) % 2 ≡ bit_at bits b
read_bits_bit bits s zero b h e =
    rw read_bits-number ((bits_of bits s).0 ∙ ap (bit_at bits) (omega arith))
read_bits_bit bits s (suc zero) b h e =
    rw read_bits-number ((bits_of bits s).1 ∙ ap (bit_at bits) (omega arith))
read_bits_bit bits s (suc (suc zero)) b h e =
    rw read_bits-number ((bits_of bits s).2 ∙ ap (bit_at bits) (omega arith))
read_bits_bit bits s (suc (suc (suc zero))) b h e =
    rw read_bits-number ((bits_of bits s).3 ∙ ap (bit_at bits) (omega arith))
read_bits_bit bits s (suc (suc (suc (suc zero)))) b h e =
    rw read_bits-number ((bits_of bits s).4 ∙ ap (bit_at bits) (omega arith))
read_bits_bit bits s (suc (suc (suc (suc (suc zero))))) b h e =
    rw read_bits-number ((bits_of bits s).5 ∙ ap (bit_at bits) (omega arith))
read_bits_bit bits s (suc (suc (suc (suc (suc (suc zero)))))) b h e =
    rw read_bits-number ((bits_of bits s).6 ∙ ap (bit_at bits) (omega arith))
read_bits_bit bits s (suc (suc (suc (suc (suc (suc (suc zero))))))) b h e =
    rw read_bits-number ((bits_of bits s).7 ∙ ap (bit_at bits) (omega arith))
read_bits_bit bits s (suc (suc (suc (suc (suc (suc (suc (suc zero)))))))) b h e =
    rw read_bits-number ((bits_of bits s).8 ∙ ap (bit_at bits) (omega arith))
read_bits_bit bits s (suc (suc (suc (suc (suc (suc (suc (suc (suc zero))))))))) b h e =
    rw read_bits-number ((bits_of bits s).9 ∙ ap (bit_at bits) (omega arith))
read_bits_bit bits s (suc (suc (suc (suc (suc (suc (suc (suc (suc (suc zero)))))))))) b h e =
    rw read_bits-number ((bits_of bits s).10 ∙ ap (bit_at bits) (omega arith))
read_bits_bit bits s j b h e = absurd (omega arith)

-- The bits of an index are copied to their places.
pub write_bits-Copied :
    (source : List ℕ) (i n j : ℕ) (bits : List ℕ)
    → i < 24
    → j + n ≡ 11
    → Copied source (i * 11 + j) bits
    → Copied source (i * 11 + 11) (write_bits (read_bits source 11 (i * 11) 0) i n j bits)
unfolding write_bits
write_bits-Copied source i zero j bits hi hj copied =
    let e : i * 11 + j ≡ i * 11 + 11 = omega arith in subst (λ g. Copied source g bits) e copied
write_bits-Copied source i (suc n) j bits hi hj copied =
    let g = i * 11 + j in
    let c = read_bits source 11 (i * 11) 0 / 2 ^ (10 - j) % 2 in
    let next =
      Copied-or_at source bits g c copied (omega arith)
        (read_bits_bit source (i * 11) j (i * 11 + j) (omega arith) refl) in
    let e : suc g ≡ i * 11 + suc j = omega arith in
    write_bits-Copied source i n (suc j) (or_at bits (g / 8) (c * 2 ^ (7 - g % 8))) hi (omega arith)
      (subst (λ g. Copied source g (or_at bits ((i * 11 + j) / 8) (c * 2 ^ (7 - (i * 11 + j) % 8))))
        e next)
