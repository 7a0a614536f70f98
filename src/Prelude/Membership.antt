-- ===== src/Prelude/Membership.antt =====
-- Membership as an alternative for each element, which the tactics take apart, and the tests that find it.
use mathlib.Core.Path.{◌≡◌, refl, ap, subst, ◌∙◌}
use mathlib.Core.Logic.{◌⊎◌, inl, inr}
use mathlib.Core.Bool.{Bool, true}
use mathlib.Core.List.{List, [], ◌∷◌, ◌++◌, map}
use native.Mathlib.Omega.{arith}
use little_love.Prelude.Tests.{Bool-cases}
use little_love.Prelude.Lists.{any, retain, All}

-- `x` stands in the list.
abbrev pub Has : {A : Type 0} → A → List A → Type 0
Has x [] = ⊥
Has x (y ∷ ys) = (y ≡ x) ⊎ Has x ys

pub Has-append_left : {A : Type 0} (x : A) (xs ys : List A) → Has x xs → Has x (xs ++ ys)
Has-append_left x [] ys h = elim h [ ]
Has-append_left x (z ∷ xs) ys h = elim h [
  | inl e ↦ inl e
  | inr later ↦ inr (Has-append_left x xs ys later)
]

pub Has-append_right : {A : Type 0} (x : A) (xs ys : List A) → Has x ys → Has x (xs ++ ys)
Has-append_right x [] ys h = h
Has-append_right x (z ∷ xs) ys h = inr (Has-append_right x xs ys h)

pub Has-retain :
    {A : Type 0} (x : A) (p : A → Bool) (xs : List A) → p x ≡ true → Has x xs → Has x (retain p xs)
Has-retain x p [] e h = elim h [ ]
Has-retain x p (z ∷ xs) e h = elim h [
  | inl here ↦ let kept : p z ≡ true = ap p here ∙ e in rw kept (inl here)
  | inr later ↦ elim (Bool-cases (p z)) [
    | inl f ↦ rw f (inr (Has-retain x p xs e later))
    | inr f ↦ rw f (Has-retain x p xs e later)
  ]
]

-- What holds of all holds of each.
pub Has-All {κ} : {A : Type 0} (P : A → Type κ) (x : A) (xs : List A) → All P xs → Has x xs → P x
Has-All P x [] all h = elim h [ ]
Has-All P x (y ∷ ys) all h = elim h [
  | inl e ↦ subst P e all.0
  | inr later ↦ Has-All P x ys all.1 later
]

pub All-Has {κ} :
    {A : Type 0} (P : A → Type κ) (xs : List A) → ((x : A) → Has x xs → P x) → All P xs
All-Has P [] h = tt
All-Has P (y ∷ ys) h = (h y (inl refl), All-Has P ys (λ x there. h x (inr there)))

pub Has-map :
    {A : Type 0} {B : Type 0} (f : A → B) (x : A) (xs : List A) → Has x xs → Has (f x) (map f xs)
Has-map f x [] h = elim h [ ]
Has-map f x (y ∷ ys) h = elim h [ inl e ↦ inl (ap f e) | inr later ↦ inr (Has-map f x ys later) ]

pub any-Has :
    {A : Type 0} (p : A → Bool) (x : A) (xs : List A) → p x ≡ true → Has x xs → any p xs ≡ true
any-Has p x [] e h = elim h [ ]
any-Has p x (y ∷ ys) e h = elim h [
  | inl here ↦ let found : p y ≡ true = ap p here ∙ e in ground (arith, found)
  | inr later ↦ ground (arith, any-Has p x ys e later)
]

pub any-elim :
    {A : Type 0} (p : A → Bool) (xs : List A) → any p xs ≡ true → (x : A) × Has x xs × (p x ≡ true)
any-elim p [] e = ground (arith, e)
any-elim p (y ∷ ys) e = elim (Bool-cases (p y)) [
  | inl here ↦ (y, inl refl, here)
  | inr f ↦ let (x, later, found) = any-elim p ys (ground (arith, e, f)) in (x, inr later, found)
]
