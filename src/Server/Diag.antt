-- ===== src/Server/Diag.antt =====
-- server/src/diag.rs: the endpoint that sends a synthetic event. Texts are their bytes.
pub mod Tokens
use Prim.Native.Nat.{bit_or, bit_xor}
use little_love.Prelude.{
  ℕ, ◌≡◌, ◌≢◌, ◌<◌, ◌↔◌, ◌∙◌, refl, sym, ap, inl, inr, Bool, true, false, not, ◌&&◌, Option, none,
  some, List, [], ◌∷◌, ◌==◌, nat_Eq, list_Eq, list_beq_iff, nat_eq_iff, length, is_empty, ltb, All,
  all_below, all_below_sound, arith, Bool-cases, if◌then◌else◌,
}

-- The loop over the pairs of bytes: `diff |= x ^ y`.
unfoldable pub differences : ℕ → List ℕ → List ℕ → ℕ
differences diff [] ys = diff
differences diff (x ∷ xs) [] = diff
differences diff (x ∷ xs) (y ∷ ys) = differences (bit_or diff (bit_xor x y)) xs ys

unfoldable pub ct_eq : List ℕ → List ℕ → Bool
unfolding differences
ct_eq a b = if not (length a == length b) then false else differences 0 a b == 0

pub data StatusCode : Type 0 where
  status_ok not_found : StatusCode

-- `.filter(|s| !s.is_empty())`
abbrev pub non_empty : Option (List ℕ) → Option (List ℕ)
non_empty none = none
non_empty (some s) = if is_empty s then none else some s

-- `unwrap_or_default`
abbrev pub or_empty : Option (List ℕ) → List ℕ
or_empty none = []
or_empty (some s) = s

-- `token` is DIAG_TOKEN and `header` the X-Diag-Token that is readable text; the answer, and whether
-- the message was captured.
unfoldable pub error_test : Option (List ℕ) → Option (List ℕ) → StatusCode × Bool
unfolding ct_eq
error_test token header = elim (non_empty token) [
  | none ↦ (not_found, false)
  | some expected ↦
      if not (ct_eq (or_empty header) expected) then (not_found, false) else (status_ok, true)
]
