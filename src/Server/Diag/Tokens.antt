-- ===== src/Server/Diag/Tokens.antt =====
-- Which header `error_test` of server/src/diag.rs accepts.
use Prim.Native.Nat.{bit_or, bit_xor}
use little_love.Prelude.{
  ℕ, ◌≡◌, ◌≢◌, ◌<◌, ◌↔◌, refl, ap, inl, inr, Bool, true, false, not, ◌&&◌, Option, none, some, List,
  [], ◌∷◌, ◌==◌, nat_Eq, list_Eq, nat_eq_iff, length, ltb, All, all_below, all_below_sound, arith,
  Bool-cases, if◌then◌else◌,
}
use little_love.Server.Diag.{differences, ct_eq, status_ok, not_found, error_test}

abbrev pub IsBytes : List ℕ → Type 0
IsBytes = All (λ x. x < 256)

-- Two bytes differ in no bit when they are equal, and a difference stays.
abbrev xor_right : ℕ → ℕ → Bool
xor_right x y = if bit_xor x y == 0 then x == y else ltb (bit_xor x y) 256 && not (x == y)

abbrev or_right : ℕ → ℕ → Bool
or_right x y =
    if bit_or x y == 0 then x == 0 && y == 0 else ltb (bit_or x y) 256 && not (x == 0 && y == 0)

xor_table : all_below 256 (λ x. all_below 256 (xor_right x)) ≡ true
xor_table = refl

or_table : all_below 256 (λ x. all_below 256 (or_right x)) ≡ true
or_table = refl

right_iff :
    (z : ℕ) (same : Bool)
    → (if z == 0 then same else ltb z 256 && not same) ≡ true
    → (z < 256) × ((z ≡ 0) ↔ (same ≡ true))
right_iff z same h = ground (arith, h)

xor_byte : (x y : ℕ) → x < 256 → y < 256 → (bit_xor x y < 256) × ((bit_xor x y ≡ 0) ↔ (x ≡ y))
xor_byte x y hx hy =
    let row = all_below_sound 256 (λ x. all_below 256 (xor_right x)) x xor_table hx in
    let (small, same) =
      right_iff (bit_xor x y) (x == y) (all_below_sound 256 (xor_right x) y row hy) in
    let test = nat_eq_iff x y in (small, ((λ h. test.0 (same.0 h)), λ h. same.1 (test.1 h)))

zeros_iff : (x y : ℕ) → ((x == 0 && y == 0) ≡ true) ↔ ((x ≡ 0) × (y ≡ 0))
zeros_iff x y = ground arith

or_byte :
    (x y : ℕ) → x < 256 → y < 256 → (bit_or x y < 256) × ((bit_or x y ≡ 0) ↔ ((x ≡ 0) × (y ≡ 0)))
or_byte x y hx hy =
    let row = all_below_sound 256 (λ x. all_below 256 (or_right x)) x or_table hx in
    let (small, same) =
      right_iff (bit_or x y) (x == 0 && y == 0) (all_below_sound 256 (or_right x) y row hy) in
    let test = zeros_iff x y in (small, ((λ h. test.0 (same.0 h)), λ h. same.1 (test.1 h)))

differences_iff :
    (diff : ℕ) (xs ys : List ℕ)
    → diff < 256
    → IsBytes xs
    → IsBytes ys
    → length xs ≡ length ys
    → (differences diff xs ys ≡ 0) ↔ ((diff ≡ 0) × (xs ≡ ys))
unfolding differences
differences_iff diff [] [] d hx hy e = (λ h. (h, refl), λ h. h.0)
differences_iff diff [] (y ∷ ys) d hx hy e = absurd (omega (arith, e))
differences_iff diff (x ∷ xs) [] d hx hy e = absurd (omega (arith, e))
differences_iff diff (x ∷ xs) (y ∷ ys) d hx hy e =
    let bits = xor_byte x y hx.0 hy.0 in
    let both = or_byte diff (bit_xor x y) d bits.0 in
    let rest =
      differences_iff (bit_or diff (bit_xor x y)) xs ys both.0 hx.1 hy.1 (omega (arith, e)) in
    (
      λ h.
          let (now, later) = rest.0 h in
          let (before, same) = both.1.0 now in (before, cc (bits.1.0 same, later)),
      λ h.
          let heads : x ≡ y = cc (h.1) in
          let tails : xs ≡ ys = cc (h.1) in rest.1 (both.1.1 (h.0, bits.1.1 heads), tails),
    )

-- The comparison in constant time is equality of the bytes.
ct_eq_iff : (a b : List ℕ) → IsBytes a → IsBytes b → (ct_eq a b ≡ true) ↔ (a ≡ b)
unfolding ct_eq
ct_eq_iff a b ha hb = elim (Bool-cases (length a == length b)) [
  | inr e ↦ (λ h. absurd (ground (arith, e, h)), λ h. absurd (ground (arith, e, ap length h)))
  | inl e ↦
      let all = differences_iff 0 a b (omega arith) ha hb (ground (arith, e)) in
      (
        λ h. (all.0 (ground (arith, e, h))).1,
        λ h. let zero_diff = all.1 (refl, h) in ground (arith, e, zero_diff),
      )
]

abbrev pub AreBytes : Option (List ℕ) → Type 0
AreBytes none = Unit {0}
AreBytes (some s) = IsBytes s

-- The endpoint answers 200 and captures its message exactly when DIAG_TOKEN is set to a text that is not
-- empty and the header is that very text; otherwise it answers 404 and captures nothing.
pub error_test_iff :
    (token header : Option (List ℕ))
    → AreBytes token
    → AreBytes header
    → (((expected : List ℕ) × (token ≡ some expected) × (header ≡ some expected) × (expected ≢ []))
        ↔ (error_test token header ≡ (status_ok, true)))
      × ((error_test token header ≢ (status_ok, true))
          → error_test token header ≡ (not_found, false))
unfolding error_test
error_test_iff none header ht hh =
    (((λ h. absurd (cc (h.1))), λ h. absurd (cc (ap (λ r. r.1) h))), λ _. refl)
error_test_iff (some []) header ht hh =
    (((λ h. absurd (h.3 (cc (h.1)))), λ h. absurd (cc (ap (λ r. r.1) h))), λ _. refl)
error_test_iff (some (c ∷ cs)) none ht hh =
    let same = ct_eq_iff [] (c ∷ cs) tt ht in
    elim (Bool-cases (ct_eq [] (c ∷ cs))) [
      | inl e ↦ absurd (cc (same.0 e))
      | inr e ↦ (
        ((λ h. absurd (cc (h.2))), λ h. absurd (ground (arith, e, ap (λ r. r.1) h))),
        λ _. rw e refl,
      )
    ]
error_test_iff (some (c ∷ cs)) (some s) ht hh =
    let same = ct_eq_iff s (c ∷ cs) hh ht in
    elim (Bool-cases (ct_eq s (c ∷ cs))) [
      | inl e ↦ (
        ((λ h. rw e refl), λ h. (c ∷ cs, refl, ap some (same.0 e), λ n. cc n)),
        λ n. absurd (n (rw e refl)),
      )
      | inr e ↦ (
        (
          (λ h. absurd (cc (e, same.1 (cc (h.1, h.2))))),
          λ h. absurd (ground (arith, e, ap (λ r. r.1) h)),
        ),
        λ _. rw e refl,
      )
    ]
