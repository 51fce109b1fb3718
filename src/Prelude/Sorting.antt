-- ===== src/Prelude/Sorting.antt =====
-- Python's `sorted`: a stable sort by a test `le`. With `reverse=True` the test is turned round,
-- and equals keep their order there too.
use mathlib.Core.List.{Perm}
use mathlib.Core.List.Perm
use mathlib.Core.List.{List, [], ◌∷◌}
use mathlib.Core.Path.{◌≡◌}
use mathlib.Core.Logic.{◌⊎◌, inl, inr}
use mathlib.Core.Bool.{Bool, true, false}
use harmonist.Prelude.Tests.{if◌then◌else◌, Bool-cases}
use harmonist.Prelude.Lists.{All, All-map}

module _ {ℓ} {A : Type ℓ} (le : A → A → Bool) where
  unfoldable pub insert_by : A → List A → List A
  insert_by x [] = x ∷ []
  insert_by x (y ∷ ys) = let rest = insert_by x ys in if le x y then x ∷ y ∷ ys else y ∷ rest

  unfoldable pub sort_by : List A → List A
  unfolding insert_by
  sort_by [] = []
  sort_by (x ∷ xs) = insert_by x (sort_by xs)

  insert_by-perm : (x : A) (ys : List A) → Perm (insert_by x ys) (x ∷ ys)
  unfolding insert_by
  insert_by-perm x [] = Perm.refl _
  insert_by-perm x (y ∷ ys) = elim (Bool-cases (le x y)) [
    | inl low ↦ rw low (Perm.refl _)
    | inr high ↦ rw high (Perm.trans (Perm.cons y (insert_by-perm x ys)) (Perm.swap x y ys))
  ]

  pub sort_by-perm : (xs : List A) → Perm (sort_by xs) xs
  unfolding sort_by
  sort_by-perm [] = Perm.refl []
  sort_by-perm (x ∷ xs) = Perm.trans (insert_by-perm x (sort_by xs)) (Perm.cons x (sort_by-perm xs))

  -- No item stands above one that comes before it.
  abbrev pub IsSortedBy : List A → Type ℓ
  IsSortedBy [] = Unit
  IsSortedBy (x ∷ xs) = All (λ y. le x y ≡ true) xs × IsSortedBy xs

  pub record IsOrder : Type ℓ where
    pub total : (a b : A) → (le a b ≡ true) ⊎ (le b a ≡ true)
    pub trans : (a b c : A) → le a b ≡ true → le b c ≡ true → le a c ≡ true

  module _ (o : IsOrder) where
    All-insert_by :
        (a x : A) (ys : List A)
        → le a x ≡ true
        → All (λ z. le a z ≡ true) ys
        → All (λ z. le a z ≡ true) (insert_by x ys)
    unfolding insert_by
    All-insert_by a x [] p h = (p, tt)
    All-insert_by a x (y ∷ ys) p h = elim (Bool-cases (le x y)) [
      | inl low ↦ rw low (p, h)
      | inr high ↦ rw high (h.0, All-insert_by a x ys p h.1)
    ]

    insert_by-IsSortedBy : (x : A) (ys : List A) → IsSortedBy ys → IsSortedBy (insert_by x ys)
    unfolding insert_by
    insert_by-IsSortedBy x [] s = (tt, tt)
    insert_by-IsSortedBy x (y ∷ ys) s = elim (Bool-cases (le x y)) [
      | inl low ↦ rw low ((low, All-map ys (λ z h. o.trans x y z low h) s.0), s)
      | inr high ↦ rw high (All-insert_by y x ys (above high) s.0, insert_by-IsSortedBy x ys s.1)
    ]
      where
        above : le x y ≡ false → le y x ≡ true
        above high = elim (o.total x y) [ inl low ↦ cc | inr h ↦ h ]

    pub sort_by-IsSortedBy : (xs : List A) → IsSortedBy (sort_by xs)
    unfolding sort_by
    sort_by-IsSortedBy [] = tt
    sort_by-IsSortedBy (x ∷ xs) = insert_by-IsSortedBy x (sort_by xs) (sort_by-IsSortedBy xs)
