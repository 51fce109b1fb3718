-- ===== src/Progress/Ended.antt =====
-- The register of src/harmonist/progress.py along the steps of the jobs that start and end.
use harmonist.Prelude.{
  ℕ, suc, ◌≤◌, String, ◌≡◌, inl, inr, refl, Bool, true, Option, some, List, [], ◌∷◌, nat_eq,
  string_eq, option_eq, count, every, every-append, count-append, beq_iff, ltb, arith, Bool-cases,
  Option-cases,
}
use harmonist.Progress.{
  Register, equal, remove_first, remove_job, start_job, fail_job, close, end_job, advance,
  begin_item, finish_item, with_running, nothing_running,
}

-- A change of the register: what its callers do to it, in the order that its lock gives.
pub data Change : Register → Register → Type 0 where
  starts :
      (label : String) (total : ℕ) (foreground : Bool) (enclosing : Option ℕ) (r : Register)
      → Change r (start_job label total foreground enclosing r).1
  advances : (j n : ℕ) (r : Register) → Change r (advance j n r)
  begins : (j : ℕ) (name : String) (r : Register) → Change r (begin_item j name r)
  finishes : (j : ℕ) (r : Register) → Change r (finish_item j r)
  fails : (j : ℕ) (r r' : Register) → fail_job j r ≡ some r' → Change r r'
  ends : (j : ℕ) (r r' : Register) → end_job j r ≡ some r' → Change r r'

pub data Run : Register → Register → Type 0 where
  stay : (r : Register) → Run r r
  then_ : (r s t : Register) → Run r s → Change s t → Run r t

-- Each running job has been made, and stands in the register once.
pub record IsValid (r : Register) : Type 0 where
  pub once : (j : ℕ) → count j r.running ≤ 1
  pub are_made : every (λ j. ltb j r.made) r.running ≡ true

pub remove_first-count :
    (test : ℕ → Bool) (xs ys : List ℕ) (j : ℕ)
    → remove_first test xs ≡ some ys
    → count j ys ≤ count j xs
unfolding remove_first
remove_first-count test [] ys j h = absurd (cc)
remove_first-count test (x ∷ xs) [] j h = omega arith
remove_first-count test (x ∷ xs) (y ∷ ys) j h = elim (Bool-cases (test x)) [
  | inl at ↦ ground arith
  | inr past ↦ elim (Option-cases (remove_first test xs)) [
    | inl none_left ↦ ground arith
    | inr (zs, e) ↦ ground (arith, remove_first-count test xs zs j e)
  ]
]

remove_first-every :
    (p test : ℕ → Bool) (xs ys : List ℕ)
    → remove_first test xs ≡ some ys
    → every p xs ≡ true
    → every p ys ≡ true
unfolding remove_first
remove_first-every p test [] ys h all_ = absurd (cc)
remove_first-every p test (x ∷ xs) ys h all_ = elim (Bool-cases (test x)) [
  | inl at ↦ let e : xs ≡ ys = ground arith in rw (← e) (ground arith)
  | inr past ↦ elim (Option-cases (remove_first test xs)) [
    | inl none_left ↦ absurd (ground arith)
    | inr (zs, e) ↦
        let at : x ∷ zs ≡ ys = ground arith in
        rw (← at) (ground (arith, remove_first-every p test xs zs e))
  ]
]

every_made_next :
    (n : ℕ) (xs : List ℕ) → every (λ j. ltb j n) xs ≡ true → every (λ j. ltb j (suc n)) xs ≡ true
every_made_next n [] h = refl
every_made_next n (x ∷ xs) h = ground (arith, every_made_next n xs)

-- A number that no member is below stands in no such list.
count_unmade : (n : ℕ) (xs : List ℕ) → every (λ j. ltb j n) xs ≡ true → count n xs ≡ 0
count_unmade n [] h = refl
count_unmade n (x ∷ xs) h = ground (arith, count_unmade n xs)

start-IsValid :
    (label : String) (total : ℕ) (foreground : Bool) (enclosing : Option ℕ) (r : Register)
    → IsValid r
    → IsValid (start_job label total foreground enclosing r).1
unfolding start_job
start-IsValid label total foreground enclosing r v = record {
  once = λ j. ground (
    arith,
    v.once j,
    count-append j r.running (r.made ∷ []),
    count_unmade r.made r.running v.are_made,
    beq_iff r.made j,
  );
  are_made = ground (
    arith,
    every-append (λ j. ltb j (suc r.made)) r.running (r.made ∷ []),
    every_made_next r.made r.running v.are_made,
  );
}

removed-IsValid :
    (r : Register) (test : ℕ → Bool) (left : List ℕ)
    → remove_first test r.running ≡ some left
    → IsValid r
    → IsValid (with_running left r)
removed-IsValid r test left e v = record {
  once = λ j. omega (arith, v.once j, remove_first-count test r.running left j e);
  are_made = remove_first-every (λ j. ltb j r.made) test r.running left e v.are_made;
}

fail-IsValid : (j : ℕ) (r r' : Register) → fail_job j r ≡ some r' → IsValid r → IsValid r'
unfolding fail_job remove_job
fail-IsValid j r r' e v =
    elim (Option-cases (remove_first (λ x. equal r.made r.jobs x j) r.running)) [
      | inl none_left ↦ absurd (ground arith)
      | inr (left, at) ↦
          let same : with_running left r ≡ r' = ground arith in
          rw (← same) (removed-IsValid r (λ x. equal r.made r.jobs x j) left at v)
    ]

pub close-running : (j : ℕ) (r : Register) → (close j r).running ≡ r.running
unfolding close
close-running j r = ground (arith, Option-cases (r.jobs j).closing)

close-made : (j : ℕ) (r : Register) → (close j r).made ≡ r.made
unfolding close
close-made j r = ground (arith, Option-cases (r.jobs j).closing)

close-IsValid : (j : ℕ) (r : Register) → IsValid r → IsValid (close j r)
close-IsValid j r v = record {
  once = λ i. rw (close-running j r) (v.once i);
  are_made = rw (close-running j r, close-made j r) v.are_made;
}

end-IsValid : (j : ℕ) (r r' : Register) → end_job j r ≡ some r' → IsValid r → IsValid r'
unfolding end_job
end-IsValid j r r' e v = elim (Option-cases (fail_job j r)) [
  | inl none_left ↦ absurd (ground arith)
  | inr (left, at) ↦
      let same : close j left ≡ r' = ground arith in
      rw (← same) (close-IsValid j left (fail-IsValid j r left at v))
]

step-IsValid : (r s : Register) → Change r s → IsValid r → IsValid s
unfolding advance begin_item finish_item
step-IsValid r s (starts label total foreground enclosing _) v =
    start-IsValid label total foreground enclosing r v
step-IsValid r s (advances j n _) v = record { once = v.once; are_made = v.are_made }
step-IsValid r s (begins j name _) v = record { once = v.once; are_made = v.are_made }
step-IsValid r s (finishes j _) v = record { once = v.once; are_made = v.are_made }
step-IsValid r s (fails j _ _ e) v = fail-IsValid j r s e v
step-IsValid r s (ends j _ _ e) v = end-IsValid j r s e v

-- From an empty register on, whatever the callers do and in whatever order, each job stands among the running
-- ones at most once, and has been made.
pub run-IsValid : (r s : Register) → Run r s → IsValid r → IsValid s
run-IsValid r s (stay _) v = v
run-IsValid r s (then_ _ m _ before step) v = step-IsValid m s step (run-IsValid r m before v)

pub nothing_running-IsValid : IsValid nothing_running
nothing_running-IsValid = record { once = λ j. omega arith; are_made = refl }
