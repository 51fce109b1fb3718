-- ===== src/Credits/Firsts.antt =====
-- What the appending of src/harmonist/credits.py without repetition leaves: each value where it stands first.
use harmonist.Prelude.{
  true, not, ◌||◌, List, [], ◌∷◌, ◌++◌, ◌==◌, string_eq, contains, keep, Compared, ◌≡◌, refl, sym,
  ◌∙◌, ap, inl, inr, beq_iff, arith, Bool-cases,
}
use harmonist.Credits.{person_eq, work_eq, add_new}

module _ {A : Type 0} ⦃e : Compared A⦄ where
  -- Each value where it stands first.
  abbrev pub first_of : List A → List A
  first_of [] = []
  first_of (x ∷ xs) = x ∷ keep (λ y. not (y == x)) (first_of xs)

  abbrev pub add_each : List A → List A → List A
  add_each acc [] = acc
  add_each acc (x ∷ xs) = add_each (add_new acc x) xs

  pub add_each-append :
      (acc xs ys : List A) → add_each acc (xs ++ ys) ≡ add_each (add_each acc xs) ys
  add_each-append acc [] ys = refl
  add_each-append acc (x ∷ xs) ys = add_each-append (add_new acc x) xs ys

  append_none : (xs : List A) → xs ++ [] ≡ xs
  append_none [] = refl
  append_none (x ∷ xs) = ap (λ r. x ∷ r) (append_none xs)

  append_one : (xs : List A) (y : A) (ys : List A) → (xs ++ y ∷ []) ++ ys ≡ xs ++ y ∷ ys
  append_one [] y ys = refl
  append_one (x ∷ xs) y ys = ap (λ r. x ∷ r) (append_one xs y ys)

  contains-snoc : (xs : List A) (y a : A) → contains (xs ++ y ∷ []) a ≡ (contains xs a || y == a)
  contains-snoc [] y a = ground arith
  contains-snoc (x ∷ xs) y a = ground (arith, contains-snoc xs y a)

  keep_known :
      (acc : List A) (x : A) (ys : List A)
      → contains acc x ≡ true
      → keep (λ y. not (contains acc y)) (keep (λ y. not (y == x)) ys)
        ≡ keep (λ y. not (contains acc y)) ys
  keep_known acc x [] known = refl
  keep_known acc x (y ∷ ys) known = ground (arith, beq_iff y x, keep_known acc x ys known)

  keep_grown :
      (acc : List A) (x : A) (ys : List A)
      → keep (λ y. not (contains (acc ++ x ∷ []) y)) ys
        ≡ keep (λ y. not (contains acc y)) (keep (λ y. not (y == x)) ys)
  keep_grown acc x [] = refl
  keep_grown acc x (y ∷ ys) =
      ground (arith, contains-snoc acc x y, beq_iff y x, beq_iff x y, keep_grown acc x ys)

  add_each-first_of :
      (acc xs : List A) → add_each acc xs ≡ acc ++ keep (λ y. not (contains acc y)) (first_of xs)
  add_each-first_of acc [] = sym (append_none acc)
  add_each-first_of acc (x ∷ xs) = elim (Bool-cases (contains acc x)) [
    | inl known ↦ ground (arith, add_each-first_of acc xs, keep_known acc x (first_of xs) known)
    | inr new ↦ ground (
      arith,
      add_each-first_of (acc ++ x ∷ []) xs,
      keep_grown acc x (first_of xs),
      append_one acc x (keep (λ y. not (contains acc y)) (keep (λ y. not (y == x)) (first_of xs))),
    )
  ]

  keep_every : (xs : List A) → keep (λ y. not (contains [] y)) xs ≡ xs
  keep_every [] = refl
  keep_every (x ∷ xs) = ap (λ r. x ∷ r) (keep_every xs)

  pub add_all_none : (xs : List A) → add_each [] xs ≡ first_of xs
  add_all_none xs = add_each-first_of [] xs ∙ keep_every (first_of xs)
