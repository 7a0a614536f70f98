-- ===== src/Prelude/Parts.antt =====
-- What a fact about all of a list, of its image or of its kept part says of the elements.
use mathlib.Core.Path.{◌≡◌, refl, subst}
use mathlib.Core.Logic.{inl, inr}
use mathlib.Core.Bool.{Bool, true, false}
use mathlib.Core.List.{List, [], ◌∷◌, ◌++◌, map}
use native.Mathlib.Omega.{arith}
use little_love.Prelude.Tests.{if◌then◌else◌, Bool-cases}
use little_love.Prelude.Lists.{all, retain, All}

pub all-elim {ℓ} :
    {A : Type ℓ} (p : A → Bool) (xs : List A) → all p xs ≡ true → All (λ x. p x ≡ true) xs
all-elim p [] h = tt
all-elim p (x ∷ xs) h = elim (Bool-cases (p x)) [
  | inl e ↦ (e, all-elim p xs (ground (arith, h, e)))
  | inr e ↦ ground (arith, h, e)
]

pub map-elim {ℓ κ μ} :
    {A : Type ℓ} {B : Type κ} (P : B → Type μ) (f : A → B) (xs : List A)
    → All P (map f xs)
    → All (λ x. P (f x)) xs
map-elim P f [] h = tt
map-elim P f (x ∷ xs) h = (h.0, map-elim P f xs h.1)

-- What is said of the kept ones, said of all.
pub retain-elim {ℓ κ} :
    {A : Type ℓ} (P : A → Type κ) (p : A → Bool) (xs : List A)
    → All P (retain p xs)
    → All (λ x. p x ≡ true → P x) xs
retain-elim P p [] h = tt
retain-elim P p (x ∷ xs) h = elim (Bool-cases (p x)) [
  | inl e ↦
      let same : retain p (x ∷ xs) ≡ x ∷ retain p xs = ground (arith, e) in
      let both = subst (All P) same h in (λ f. both.0, retain-elim P p xs both.1)
  | inr e ↦
      let same : retain p (x ∷ xs) ≡ retain p xs = ground (arith, e) in
      (λ f. ground (arith, e, f), retain-elim P p xs (subst (All P) same h))
]

pub All-optional {ℓ κ} :
    {A : Type ℓ} (P : A → Type κ) (b : Bool) (x : A) (xs : List A)
    → All P (if b then x ∷ xs else xs)
    → All P xs
All-optional P true x xs h = h.1
All-optional P false x xs h = h

pub map-append {ℓ κ} :
    {A : Type ℓ} {B : Type κ} (f : A → B) (xs ys : List A) → map f (xs ++ ys) ≡ map f xs ++ map f ys
map-append f [] ys = refl
map-append f (x ∷ xs) ys = rw (map-append f xs ys) refl
