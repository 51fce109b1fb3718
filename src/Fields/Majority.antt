-- ===== src/Fields/Majority.antt =====
-- The value that `consensus` of src/harmonist/compare.py settles on.
use harmonist.Prelude.{
  ◌<◌, ◌≤◌, ◌≡◌, inl, inr, refl, ap, sym, subst, ◌∙◌, Bool, true, false, not, ◌||◌, ◌⊎◌, some, List,
  [], ◌∷◌, ◌++◌, ◌==◌, nat_eq, option_eq, arith, beq_iff, beq_refl, All, length, contains, count,
  contains-keep, keep-contains, every, leb, ltb, sort_by, insert_by, IsSortedBy, IsOrder,
  sort_by-IsSortedBy, Bool-cases,
}
use harmonist.Fields.{Text, text_eq, counter_keys, most_common, first_that, tied_with, winner}

-- A text stands among the keys where it stands in the list.
contains-counter_keys : (xs : List Text) (v : Text) → contains (counter_keys xs) v ≡ contains xs v
unfolding counter_keys
contains-counter_keys [] v = refl
contains-counter_keys (x ∷ xs) v = elim (Bool-cases (x == v)) [
  | inl at ↦ rw at refl
  | inr past ↦
      let rest = contains-counter_keys xs v in
      ground (
        arith,
        contains-keep (λ y. not (y == x)) (counter_keys xs) v,
        keep-contains (λ y. not (y == x)) (counter_keys xs) v,
        beq_iff v x,
        beq_iff x v,
      )
]

module _ (le : Text → Text → Bool) where
  contains-insert_by :
      (x : Text) (ys : List Text) (v : Text)
      → contains (insert_by le x ys) v ≡ (x == v || contains ys v)
  unfolding insert_by
  contains-insert_by x [] v = refl
  contains-insert_by x (y ∷ ys) v = ground (arith, contains-insert_by x ys v)

  contains-sort_by : (xs : List Text) (v : Text) → contains (sort_by le xs) v ≡ contains xs v
  unfolding sort_by
  contains-sort_by [] v = refl
  contains-sort_by (x ∷ xs) v =
      ground (arith, contains-insert_by x (sort_by le xs) v, contains-sort_by xs v)

  All-contains :
      (x : Text) (ys : List Text) (v : Text)
      → All (λ y. le x y ≡ true) ys
      → contains ys v ≡ true
      → le x v ≡ true
  All-contains x [] v h c = absurd (cc)
  All-contains x (y ∷ ys) v h c = elim (Bool-cases (y == v)) [
    | inl at ↦ let e : y ≡ v = (beq_iff y v).0 at in rw (← e) h.0
    | inr past ↦ All-contains x ys v h.1 (ground arith)
  ]

abbrev by_count : List Text → Text → Text → Bool
by_count xs v w = leb (count w xs) (count v xs)

by_count-IsOrder : (xs : List Text) → IsOrder (by_count xs)
by_count-IsOrder xs = record {
  total = λ a b. elim (Bool-cases (leb (count b xs) (count a xs))) [
    | inl h ↦ inl h
    | inr h ↦ inr (ground arith)
  ];
  trans = λ a b c h k. ground arith;
}

contains-most_common : (xs : List Text) (v : Text) → contains (most_common xs) v ≡ contains xs v
unfolding most_common
contains-most_common xs v =
    contains-sort_by (by_count xs) (counter_keys xs) v ∙ contains-counter_keys xs v

most_common-head :
    (xs : List Text) (top : Text) (rest : List Text) (v : Text)
    → most_common xs ≡ top ∷ rest
    → contains xs v ≡ true
    → count v xs ≤ count top xs
unfolding most_common
most_common-head xs top rest v e c =
    let sorted : IsSortedBy (by_count xs) (top ∷ rest) =
      subst (IsSortedBy (by_count xs)) e
        (sort_by-IsSortedBy (by_count xs) (by_count-IsOrder xs) (counter_keys xs)) in
    let listed : contains (top ∷ rest) v ≡ true =
      ap (λ ys. contains ys v) (sym e) ∙ (contains-most_common xs v ∙ c) in
    elim (Bool-cases (top == v)) [
      | inl at ↦ let same : top ≡ v = (beq_iff top v).0 at in rw same (omega arith)
      | inr past ↦
          let le = All-contains (by_count xs) top rest v sorted.0 (ground arith) in
          ground (arith, le)
    ]

-- The first that passes a test, with what stands before and after it.
pub first_split :
    (test : Text → Bool) (xs : List Text) (w : Text)
    → first_that test xs ≡ some w
    → (before after : List Text) × (xs ≡ before ++ w ∷ after)
      × (every (λ x. not (test x)) before ≡ true)
      × (test w ≡ true)
unfolding first_that
first_split test [] w h = absurd (cc)
first_split test (x ∷ xs) w h = elim (Bool-cases (test x)) [
  | inl at ↦ let e : x ≡ w = ground arith in ([], xs, ap (λ y. y ∷ xs) e, refl, rw (← e) at)
  | inr past ↦
      let (before, after, e, none_before, t) = first_split test xs w (ground arith) in
      (x ∷ before, after, ap (λ ys. x ∷ ys) e, ground arith, t)
]

first_contained :
    (test : Text → Bool) (xs : List Text) (v : Text)
    → contains xs v ≡ true
    → test v ≡ true
    → (w : Text) × (first_that test xs ≡ some w)
unfolding first_that
first_contained test [] v c t = absurd (cc)
first_contained test (x ∷ xs) v c t = elim (Bool-cases (test x)) [
  | inl at ↦ (x, ground arith)
  | inr past ↦
      let (w, e) = first_contained test xs v (ground (arith, beq_iff x v)) t in (w, ground arith)
]

contains_short :
    (xs : List Text) (a b : Text)
    → ltb 1 (length xs) ≡ false
    → contains xs a ≡ true
    → contains xs b ≡ true
    → a ≡ b
contains_short [] a b l c d = absurd (cc)
contains_short (x ∷ []) a b l c d =
    sym ((beq_iff x a).0 (ground arith)) ∙ (beq_iff x b).0 (ground arith)
contains_short (x ∷ y ∷ xs) a b l c d = absurd (ground arith)

contains-tied :
    (xs : List Text) (top v : Text)
    → contains xs v ≡ true
    → count v xs ≡ count top xs
    → contains (tied_with top xs) v ≡ true
unfolding tied_with
contains-tied xs top v c e =
    contains-keep (λ w. count w xs == count top xs) (most_common xs) v
      (contains-most_common xs v ∙ c) ((beq_iff (count v xs) (count top xs)).1 e)

-- A test that the value settled on is the first to pass, where none has a larger count, and those that
-- fail have a smaller one.
abbrev pub Settles : List Text → Text → Type 0
Settles xs w =
    (p : Text → Bool) × (first_that p xs ≡ some w)
    × ((v : Text) → contains xs v ≡ true → count v xs ≤ count w xs)
    × ((v : Text) → contains xs v ≡ true → p v ≡ false → count v xs < count w xs)

-- With several values in front, the first track that carries one of them decides.
tie-Settles :
    (xs : List Text) (top w : Text) (rest : List Text)
    → most_common xs ≡ top ∷ rest
    → first_that (contains (tied_with top xs)) xs ≡ some w
    → Settles xs w
unfolding tied_with
tie-Settles xs top w rest m first =
    let p : Text → Bool = contains (tied_with top xs) in
    let (_, _, _, _, at) = first_split p xs w first in
    let even : count w xs ≡ count top xs =
      (beq_iff (count w xs) (count top xs)).0
        (keep-contains (λ v. count v xs == count top xs) (most_common xs) w at).1 in
    (
      p,
      first,
      λ v c. omega (arith, even, most_common-head xs top rest v m c),
      λ v c fails.
          ground (arith, even, most_common-head xs top rest v m c, contains-tied xs top v c),
    )

-- With one, it is that.
top-Settles :
    (xs : List Text) (top : Text) (rest : List Text)
    → most_common xs ≡ top ∷ rest
    → ltb 1 (length (tied_with top xs)) ≡ false
    → Settles xs top
top-Settles xs top rest m short =
    let there : contains xs top ≡ true =
      sym (contains-most_common xs top) ∙ rw (m, beq_refl top) refl in
    let (w, first) = first_contained (λ v. v == top) xs top there (beq_refl top) in
    let (_, _, _, _, at) = first_split (λ v. v == top) xs w first in
    (
      (λ v. v == top),
      first ∙ ap some ((beq_iff w top).0 at),
      λ v c. most_common-head xs top rest v m c,
      λ v c fails. ground (
        arith,
        most_common-head xs top rest v m c,
        contains-tied xs top v c,
        contains-tied xs top top there refl,
        contains_short (tied_with top xs) v top short,
        beq_iff v top,
      ),
    )

List-cases : (xs : List Text) → (xs ≡ []) ⊎ ((x : Text) × (rest : List Text) × (xs ≡ x ∷ rest))
List-cases [] = inl refl
List-cases (x ∷ xs) = inr (x, xs, refl)

pub winner-Settles : (xs : List Text) (w : Text) → winner xs ≡ some w → Settles xs w
unfolding winner
winner-Settles xs w e = elim (List-cases (most_common xs)) [
  | inl none_ ↦ absurd (ground arith)
  | inr (top, rest, m) ↦ elim (Bool-cases (ltb 1 (length (tied_with top xs)))) [
    | inl tie ↦ tie-Settles xs top w rest m (ground arith)
    | inr one ↦
        let same : top ≡ w = ground arith in subst (Settles xs) same (top-Settles xs top rest m one)
  ]
]

pub winner_there :
    (xs : List Text) (v : Text) → contains xs v ≡ true → (w : Text) × (winner xs ≡ some w)
unfolding winner
winner_there xs v c = elim (List-cases (most_common xs)) [
  | inl none_ ↦ absurd (ground (arith, contains-most_common xs v))
  | inr (top, rest, m) ↦ elim (Bool-cases (ltb 1 (length (tied_with top xs)))) [
    | inl tie ↦
        let there : contains xs top ≡ true =
          sym (contains-most_common xs top) ∙ rw (m, beq_refl top) refl in
        let (w, first) =
          first_contained (contains (tied_with top xs)) xs top there
            (contains-tied xs top top there refl) in
        (w, ground arith)
    | inr one ↦ (top, ground arith)
  ]
]
