-- ===== src/Server/HashMap.antt =====
-- `std::collections::HashMap`, as the function from a key to its value. The program never depends
-- on the iteration order of the maps that this type models.
use little_love.Prelude.{List, [], Bool, true, false, Option, none, some, Eq, ◌==◌, if◌then◌else◌}

abbrev pub HashMap {ℓ κ} : Type ℓ → Type κ → Type (ℓ ⊔ κ)
HashMap K V = K → Option V

module _ {ℓ κ} {K : Type ℓ} {V : Type κ} where
  abbrev pub empty : HashMap K V
  empty k = none

  abbrev pub contains_key : HashMap K V → K → Bool
  contains_key m k = elim (m k) [ none ↦ false | some v ↦ true ]

  -- A closure that may change a value, or drop its entry (`HashMap::retain`).
  abbrev pub retain_mut : (V → Option V) → HashMap K V → HashMap K V
  retain_mut f m k = elim (m k) [ none ↦ none | some v ↦ f v ]

module _ {ℓ κ} {K : Type ℓ} {V : Type κ} ⦃e : Eq K⦄ where
  abbrev pub insert : HashMap K V → K → V → HashMap K V
  insert m k v j = if k == j then some v else m j

  abbrev pub remove : HashMap K V → K → HashMap K V
  remove m k j = if k == j then none else m j

-- `entry(k).or_default()` on a map of vectors.
abbrev pub or_default {ℓ} : {A : Type ℓ} → Option (List A) → List A
or_default none = []
or_default (some xs) = xs
