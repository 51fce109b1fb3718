-- ===== src/Prelude/Counting.antt =====
-- How often a value stands in a list (Python's `Counter` and `list.count`), membership, and the
-- facts that say "each at most once" by counts, which `omega` reads.
use Prim.Native.Nat.{ℕ, zero, suc, ◌+◌, ◌<◌, ◌≤◌}
use mathlib.Core.Path.{◌≡◌, refl}
use mathlib.Core.Logic.{inl, inr}
use mathlib.Core.Bool.{Bool, true, false, ◌||◌, ◌&&◌}
use mathlib.Core.List.{List, [], ◌∷◌, ◌++◌, map}
use mathlib.Core.Option.{Option, none, some}
use native.Mathlib.Omega.{arith}
use harmonist.Prelude.Tests.{eqb, Bool-cases, bit, ltb, leb, if◌then◌else◌}
use harmonist.Prelude.Eq.{Compared, beq_iff, ◌==◌, nat_eq, beq_refl}
use harmonist.Prelude.Lists.{any_of, keep, every, length, range_from, get_elem?}

module _ {ℓ} {A : Type ℓ} ⦃e : Compared A⦄ where
  abbrev pub count : A → List A → ℕ
  count a [] = 0
  count a (x ∷ xs) = bit (x == a) + count a xs

  -- `a in xs`
  abbrev pub contains : List A → A → Bool
  contains [] a = false
  contains (x ∷ xs) a = x == a || contains xs a

  -- `set(xs)`, as a list without repetition.
  abbrev pub distinct : List A → List A
  distinct [] = []
  distinct (x ∷ xs) = let rest = distinct xs in if contains rest x then rest else x ∷ rest

  pub count-append : (a : A) (xs ys : List A) → count a (xs ++ ys) ≡ count a xs + count a ys
  count-append a [] ys = omega arith
  count-append a (x ∷ xs) ys = omega (arith, count-append a xs ys)

  pub contains-count : (xs : List A) (a : A) → contains xs a ≡ true → 0 < count a xs
  contains-count [] a h = absurd (cc)
  contains-count (x ∷ xs) a h = ground (arith, contains-count xs a)

  pub count-contains : (xs : List A) (a : A) → contains xs a ≡ false → count a xs ≡ 0
  count-contains [] a h = refl
  count-contains (x ∷ xs) a h = ground (arith, count-contains xs a)

  pub count-get_elem? : (xs : List A) (i : ℕ) (a : A) → get_elem? xs i ≡ some a → 0 < count a xs
  count-get_elem? [] i a h = absurd (cc)
  count-get_elem? (x ∷ xs) zero a h = ground (arith, beq_refl a)
  count-get_elem? (x ∷ xs) (suc i) a h = omega (arith, count-get_elem? xs i a h)

-- The slots that a list of optional slots holds.
abbrev pub slots_of {ℓ} : {A : Type ℓ} → List (Option A) → List A
slots_of [] = []
slots_of (none ∷ os) = slots_of os
slots_of (some s ∷ os) = s ∷ slots_of os

-- Each number of a range stands in it once, and no other does.
pub count-range_from :
    (x start n : ℕ)
    → count x (range_from start n) ≡ (if leb start x then bit (ltb x (start + n)) else 0)
count-range_from x start zero = ground arith
count-range_from x start (suc n) = ground (arith, count-range_from x (suc start) n)

-- The numbers below `n`, each as often as it stands in the list.
pub sum_counts : ℕ → List ℕ → ℕ
sum_counts zero xs = 0
sum_counts (suc n) xs = count n xs + sum_counts n xs

sum_counts-cons : (n x : ℕ) (xs : List ℕ) → sum_counts n (x ∷ xs) ≡ bit (ltb x n) + sum_counts n xs
unfolding sum_counts
sum_counts-cons zero x xs = ground arith
sum_counts-cons (suc n) x xs = ground (arith, sum_counts-cons n x xs)

sum_counts-nil : (n : ℕ) → sum_counts n [] ≡ 0
unfolding sum_counts
sum_counts-nil zero = refl
sum_counts-nil (suc n) = omega (arith, sum_counts-nil n)

-- Where no number from `n` on stands in the list, the counts below `n` add up to its length.
pub sum_counts-eq-length :
    (n : ℕ) (xs : List ℕ) → ((x : ℕ) → n ≤ x → count x xs ≡ 0) → sum_counts n xs ≡ length xs
sum_counts-eq-length n [] h = sum_counts-nil n
sum_counts-eq-length n (x ∷ xs) h =
    ground (
      arith,
      h x,
      sum_counts-cons n x xs,
      sum_counts-eq-length n xs (λ y le. omega (arith, h y le)),
    )

pub sum_counts-eq :
    (n : ℕ) (xs ys : List ℕ)
    → ((x : ℕ) → x < n → count x xs ≡ count x ys)
    → sum_counts n xs ≡ sum_counts n ys
unfolding sum_counts
sum_counts-eq zero xs ys h = refl
sum_counts-eq (suc n) xs ys h =
    omega (arith, h n (omega arith), sum_counts-eq n xs ys (λ x lt. h x (omega arith)))

module _ {ℓ} {A : Type ℓ} ⦃e : Compared A⦄ where
  -- `xs.index(a)`, `none` where Python raises.
  abbrev pub index? : A → List A → Option ℕ
  index? a [] = none
  index? a (x ∷ xs) =
      let rest = index? a xs in
      if x == a then some 0 else elim rest [ none ↦ none | some i ↦ some (suc i) ]

  pub index?-get_elem? :
      (a : A) (xs : List A) (i : ℕ) → index? a xs ≡ some i → get_elem? xs i ≡ some a
  index?-get_elem? a [] i h = absurd (cc)
  index?-get_elem? a (x ∷ xs) zero h = ground (arith, beq_iff x a)
  index?-get_elem? a (x ∷ xs) (suc i) h = ground (arith, index?-get_elem? a xs i)

module _ {ℓ} {A : Type ℓ} ⦃e : Compared A⦄ where
  pub contains-keep :
      (test : A → Bool) (xs : List A) (a : A)
      → contains xs a ≡ true
      → test a ≡ true
      → contains (keep test xs) a ≡ true
  contains-keep test [] a h t = h
  contains-keep test (x ∷ xs) a h t = ground (arith, contains-keep test xs a, beq_iff x a)

  pub every-contains :
      (test : A → Bool) (xs : List A) (a : A)
      → every test xs ≡ true
      → contains xs a ≡ true
      → test a ≡ true
  every-contains test [] a h c = absurd (cc)
  every-contains test (x ∷ xs) a h c = ground (arith, every-contains test xs a, beq_iff x a)

  pub keep-contains :
      (test : A → Bool) (xs : List A) (a : A)
      → contains (keep test xs) a ≡ true
      → (contains xs a ≡ true) × (test a ≡ true)
  keep-contains test [] a h = absurd (cc)
  keep-contains test (x ∷ xs) a h = ground (arith, keep-contains test xs a, beq_iff x a)

  -- Where a test fails on a list it fails on a value that the list holds.
  pub not-every :
      (test : A → Bool) (xs : List A)
      → every test xs ≡ false
      → (a : A) × (contains xs a ≡ true) × (test a ≡ false)
  not-every test [] h = absurd (cc)
  not-every test (x ∷ xs) h = elim (Bool-cases (test x)) [
    | inl holds ↦ let (a, c, t) = not-every test xs (ground arith) in (a, ground arith, t)
    | inr fails ↦ (x, ground (arith, beq_refl x), fails)
  ]

pub contains-range_from :
    (x start n : ℕ) → contains (range_from start n) x ≡ (leb start x && ltb x (start + n))
contains-range_from x start zero = ground arith
contains-range_from x start (suc n) = ground (arith, contains-range_from x (suc start) n)

sum_counts-le : (n : ℕ) (xs : List ℕ) → ((x : ℕ) → count x xs ≤ 1) → sum_counts n xs ≤ n
unfolding sum_counts
sum_counts-le zero xs h = omega arith
sum_counts-le (suc n) xs h = omega (arith, h n, sum_counts-le n xs h)

-- A number below `n` that is missing where none stands twice leaves the counts short of `n`.
sum_counts-lt :
    (n t : ℕ) (xs : List ℕ)
    → ((x : ℕ) → count x xs ≤ 1)
    → t < n
    → count t xs ≡ 0
    → sum_counts n xs < n
unfolding sum_counts
sum_counts-lt zero t xs h lt e = elim lt [ ]
sum_counts-lt (suc n) t xs h lt e = elim (Bool-cases (eqb t n)) [
  | inl last ↦
      let at : t ≡ n = ground arith in
      let short : count n xs ≡ 0 = rw at at e in omega (arith, short, sum_counts-le n xs h)
  | inr before ↦ omega (arith, h n, sum_counts-lt n t xs h (ground arith) e)
]

-- Pigeonholes: `n` numbers below `n`, none twice, are all of them.
pub count_full :
    (n t : ℕ) (xs : List ℕ)
    → ((x : ℕ) → count x xs ≤ bit (ltb x n))
    → length xs ≡ n
    → t < n
    → count t xs ≡ 1
count_full n t xs h size lt =
    let whole = sum_counts-eq-length n xs (λ x le. ground (arith, h x)) in
    elim (Bool-cases (eqb (count t xs) 0)) [
      | inl missing ↦ absurd (
          omega
            (arith, whole, size, sum_counts-lt n t xs (λ x. ground (arith, h x)) lt (ground arith)))
      | inr there ↦ ground (arith, h t)
    ]

pub any_of-get_elem? {ℓ} :
    {A : Type ℓ} (test : A → Bool) (xs : List A) (i : ℕ) (a : A)
    → any_of test xs ≡ false
    → get_elem? xs i ≡ some a
    → test a ≡ false
any_of-get_elem? test [] i a h at = absurd (cc)
any_of-get_elem? test (x ∷ xs) zero a h at = ground arith
any_of-get_elem? test (x ∷ xs) (suc i) a h at = ground (arith, any_of-get_elem? test xs i a)

pub any_of-range_from :
    (test : ℕ → Bool) (start n : ℕ)
    → ((i : ℕ) → i < start + n → test i ≡ false)
    → any_of test (range_from start n) ≡ false
any_of-range_from test start zero h = refl
any_of-range_from test start (suc n) h =
    ground (
      arith,
      h start (omega arith),
      any_of-range_from test (suc start) n (λ i lt. h i (omega arith)),
    )

module _ {ℓ κ} {A : Type ℓ} {B : Type κ} (test : B → Bool) (f : A → B) where
  pub any_of-map : (xs : List A) → any_of test (map f xs) ≡ any_of (λ x. test (f x)) xs
  any_of-map [] = refl
  any_of-map (x ∷ xs) = ground (arith, any_of-map xs)

pub any_of-append {ℓ} :
    {A : Type ℓ} (test : A → Bool) (xs ys : List A)
    → any_of test xs ≡ false
    → any_of test ys ≡ false
    → any_of test (xs ++ ys) ≡ false
any_of-append test [] ys h k = k
any_of-append test (x ∷ xs) ys h k = ground (arith, any_of-append test xs ys)

pub any_of-never {ℓ} :
    {A : Type ℓ} (test : A → Bool) (xs : List A)
    → ((a : A) → test a ≡ false)
    → any_of test xs ≡ false
any_of-never test [] h = refl
any_of-never test (x ∷ xs) h = ground (arith, h x, any_of-never test xs h)
