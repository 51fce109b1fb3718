-- ===== src/Progress/Reported.antt =====
-- What the status bar is told of the register of src/harmonist/progress.py.
use harmonist.Prelude.{
  ℕ, suc, ◌≡◌, inl, inr, refl, ap, ◌∙◌, true, not, ◌||◌, none, some, List, [], ◌∷◌, ◌++◌, ◌==◌,
  nat_eq, option_eq, keep, is_none, contains, contains-keep, every, get_elem?, get_elem?-map,
  beq_iff, arith, Bool-cases,
}
use harmonist.Progress.{Job, Register, last_child, show_job, shown_jobs, status}

contained_at : (xs : List ℕ) (a : ℕ) → contains xs a ≡ true → (i : ℕ) × (get_elem? xs i ≡ some a)
contained_at [] a h = absurd (cc)
contained_at (x ∷ xs) a h = elim (Bool-cases (x == a)) [
  | inl at ↦ (0, ap some ((beq_iff x a).0 at))
  | inr past ↦ let (i, e) = contained_at xs a (ground arith) in (suc i, e)
]

childless :
    (jobs : ℕ → Job) (j : ℕ) (xs : List ℕ)
    → every (λ d. not ((jobs d).parent == some j)) xs ≡ true
    → last_child jobs j xs ≡ none
unfolding last_child
childless jobs j [] h = refl
childless jobs j (d ∷ xs) h = ground (arith, childless jobs j xs)

-- The child after which no other stands is the last.
last_child-append :
    (jobs : ℕ → Job) (j c : ℕ) (before after : List ℕ)
    → (jobs c).parent ≡ some j
    → every (λ d. not ((jobs d).parent == some j)) after ≡ true
    → last_child jobs j (before ++ c ∷ after) ≡ some c
unfolding last_child
last_child-append jobs j c [] after p h = ground (arith, childless jobs j after, beq_iff j j)
last_child-append jobs j c (d ∷ before) after p h =
    ground (arith, last_child-append jobs j c before after)

-- A running job that runs inside no other is reported with its own progress, and where a running job has
-- started inside it and no later running one has, with that job as its step, and as foreground when one of
-- the two is.
status-step :
    (r : Register) (j c : ℕ) (before after : List ℕ)
    → r.running ≡ before ++ c ∷ after
    → (r.jobs c).parent ≡ some j
    → every (λ d. not ((r.jobs d).parent == some j)) after ≡ true
    → contains r.running j ≡ true
    → (r.jobs j).parent ≡ none
    → (i : ℕ) × (get_elem? (status r).0 i
        ≡ some (record {
          label = (r.jobs j).label;
          done = (r.jobs j).done;
          total = (r.jobs j).total;
          item = (r.jobs j).item;
          foreground = (r.jobs j).foreground || (r.jobs c).foreground;
          step = some (record {
            label = (r.jobs c).label;
            done = (r.jobs c).done;
            total = (r.jobs c).total;
          });
        }))
unfolding status shown_jobs show_job
status-step r j c before after at p h runs top =
    let tops = keep (λ k. is_none (r.jobs k).parent) r.running in
    let listed = contains-keep (λ k. is_none (r.jobs k).parent) r.running j runs (ground arith) in
    let (i, e) = contained_at tops j listed in
    let last : last_child r.jobs j r.running ≡ some c =
      ap (last_child r.jobs j) at ∙ last_child-append r.jobs j c before after p h in
    (i, get_elem?-map (show_job r) tops i j e ∙ ap some (ground (arith, last)))
