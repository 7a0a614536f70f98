-- ===== src/Server/Sql.antt =====
-- ORDER BY, over a strict order of the rows. Rows that the order does not tell apart keep the order
-- of their insertion; SQL leaves theirs open.
use mathlib.Core.List.{Perm}
use mathlib.Core.List.Perm
use little_love.Prelude.{
  ◌≡◌, ◌∙◌, sym, ap, Bool, true, false, List, [], ◌∷◌, arith, if◌then◌else◌, All, All-retain,
  All-weaken, retain, ◌++◌, refl, Bool-cases, inl, inr,
}

module _ {ℓ} {A : Type ℓ} (lt : A → A → Bool) where
  unfoldable pub insert_by : A → List A → List A
  insert_by x [] = x ∷ []
  insert_by x (y ∷ ys) = if lt y x then y ∷ insert_by x ys else x ∷ y ∷ ys

  unfoldable pub order_by : List A → List A
  unfolding insert_by
  order_by [] = []
  order_by (x ∷ xs) = insert_by x (order_by xs)

  -- No row stands before one that is smaller.
  abbrev pub Ordered : List A → Type 0
  Ordered [] = Unit {0}
  Ordered (x ∷ xs) = All (λ y. lt y x ≡ false) xs × Ordered xs

  pub All-insert_by {κ} :
      (P : A → Type κ) (x : A) (xs : List A) → P x → All P xs → All P (insert_by x xs)
  unfolding insert_by
  All-insert_by P x [] p h = (p, tt)
  All-insert_by P x (y ∷ ys) p h = ground (arith, All-insert_by P x ys p h.1)

  pub All-order_by {κ} : (P : A → Type κ) (xs : List A) → All P xs → All P (order_by xs)
  unfolding order_by
  All-order_by P [] h = tt
  All-order_by P (x ∷ xs) h = All-insert_by P x (order_by xs) h.0 (All-order_by P xs h.1)

  insert_by-Perm : (x : A) (xs : List A) → Perm (insert_by x xs) (x ∷ xs)
  unfolding insert_by
  insert_by-Perm x [] = Perm.refl (x ∷ [])
  insert_by-Perm x (y ∷ ys) = elim (Bool-cases (lt y x)) [
    | inl e ↦ rw e (Perm.trans (Perm.cons y (insert_by-Perm x ys)) (Perm.swap x y ys))
    | inr e ↦ rw e (Perm.refl (x ∷ y ∷ ys))
  ]

  pub order_by-Perm : (xs : List A) → Perm (order_by xs) xs
  unfolding order_by
  order_by-Perm [] = Perm.refl []
  order_by-Perm (x ∷ xs) =
      Perm.trans (insert_by-Perm x (order_by xs)) (Perm.cons x (order_by-Perm xs))

  module _ (asym : (x y : A) → lt x y ≡ true → lt y x ≡ false)
      (trans : (x y z : A) → lt y x ≡ false → lt z y ≡ false → lt z x ≡ false) where
    All-trans :
        (x y : A) (zs : List A)
        → lt y x ≡ false
        → All (λ z. lt z y ≡ false) zs
        → All (λ z. lt z x ≡ false) zs
    All-trans x y [] e h = tt
    All-trans x y (z ∷ zs) e h = (trans x y z e h.0, All-trans x y zs e h.1)

    insert_by-Ordered : (x : A) (xs : List A) → Ordered xs → Ordered (insert_by x xs)
    unfolding insert_by
    insert_by-Ordered x [] o = (tt, tt)
    insert_by-Ordered x (y ∷ ys) o = elim (Bool-cases (lt y x)) [
      | inl e ↦
          rw e
            (All-insert_by (λ z. lt z y ≡ false) x ys (asym y x e) o.0, insert_by-Ordered x ys o.1)
      | inr e ↦ rw e ((e, All-trans x y ys e o.0), o)
    ]

    pub order_by-Ordered : (xs : List A) → Ordered (order_by xs)
    unfolding order_by
    order_by-Ordered [] = tt
    order_by-Ordered (x ∷ xs) = insert_by-Ordered x (order_by xs) (order_by-Ordered xs)

    -- What is smaller than no row of the list comes first.
    insert_by_first : (x : A) (ys : List A) → All (λ y. lt y x ≡ false) ys → insert_by x ys ≡ x ∷ ys
    unfolding insert_by
    insert_by_first x [] h = refl
    insert_by_first x (y ∷ ys) h = rw (h.0) refl

    retain-insert_by_kept :
        (q : A → Bool) (x : A) (ys : List A)
        → q x ≡ true
        → Ordered ys
        → retain q (insert_by x ys) ≡ insert_by x (retain q ys)
    unfolding insert_by
    retain-insert_by_kept q x [] e o = ground (arith, e)
    retain-insert_by_kept q x (y ∷ ys) e o = elim (Bool-cases (lt y x)) [
      | inl f ↦ ground (arith, e, f, retain-insert_by_kept q x ys e o.1)
      | inr f ↦
          let none_below =
            All-retain (λ z. lt z x ≡ false) q (y ∷ ys) (f, All-trans x y ys f o.0) in
          ground (arith, e, f, insert_by_first x (retain q (y ∷ ys)) none_below)
    ]

    retain-insert_by_dropped :
        (q : A → Bool) (x : A) (ys : List A) → q x ≡ false → retain q (insert_by x ys) ≡ retain q ys
    unfolding insert_by
    retain-insert_by_dropped q x [] e = ground (arith, e)
    retain-insert_by_dropped q x (y ∷ ys) e = ground (arith, e, retain-insert_by_dropped q x ys e)

    -- WHERE and ORDER BY commute.
    pub order_by-retain :
        (q : A → Bool) (xs : List A) → order_by (retain q xs) ≡ retain q (order_by xs)
    unfolding order_by
    order_by-retain q [] = refl
    order_by-retain q (x ∷ xs) = elim (Bool-cases (q x)) [
      | inl e ↦ rw e (
          ap (insert_by x) (order_by-retain q xs)
          ∙ sym (retain-insert_by_kept q x (order_by xs) e (order_by-Ordered xs)))
      | inr e ↦ rw e (order_by-retain q xs ∙ sym (retain-insert_by_dropped q x (order_by xs) e))
    ]

    retain_everything : (q : A → Bool) (xs : List A) → All (λ x. q x ≡ true) xs → retain q xs ≡ xs
    retain_everything q [] h = refl
    retain_everything q (x ∷ xs) h = ground (arith, h.0, retain_everything q xs h.1)

    -- A test that later rows pass too cuts an ordered list in two.
    pub Ordered-cut :
        (q : A → Bool)
        → ((x y : A) → lt y x ≡ false → q x ≡ true → q y ≡ true)
        → (xs : List A) → Ordered xs
        → (first : List A) × (xs ≡ first ++ retain q xs) × All (λ x. q x ≡ false) first
    Ordered-cut q up [] o = ([], refl, tt)
    Ordered-cut q up (x ∷ xs) o = elim (Bool-cases (q x)) [
      | inl e ↦
          let later =
            All-weaken (λ y. lt y x ≡ false) (λ y. q y ≡ true) xs (λ y h. up x y h e) o.0 in
          ([], ground (arith, e, retain_everything q xs later), tt)
      | inr e ↦
          let (first, cut, early) = Ordered-cut q up xs o.1 in
          (x ∷ first, ground (arith, e, cut), (e, early))
    ]
