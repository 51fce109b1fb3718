-- ===== src/Progress/Removal.antt =====
-- Whose entry goes when a job of src/harmonist/progress.py ends.
use harmonist.Prelude.{
  ℕ, zero, suc, ◌<◌, ◌≤◌, ◌≡◌, ◌≢◌, inl, inr, refl, ap, ◌∙◌, Bool, true, false, not, some, List, [],
  ◌∷◌, ◌++◌, ◌==◌, nat_eq, if◌then◌else◌, count, contains, every, count-append, contains-count,
  beq_refl, beq_iff, arith, Bool-cases,
}
use harmonist.Progress.{
  Register, equal, remove_first, remove_job, fail_job, close, end_job, with_running,
}
use harmonist.Progress.Ended.{IsValid, close-running}

-- The first job that the test accepts goes, and no other.
remove_first-append :
    (test : ℕ → Bool) (before : List ℕ) (x : ℕ) (after : List ℕ)
    → every (λ y. not (test y)) before ≡ true
    → test x ≡ true
    → remove_first test (before ++ x ∷ after) ≡ some (before ++ after)
unfolding remove_first
remove_first-append test [] x after h t = ground arith
remove_first-append test (y ∷ before) x after h t =
    ground (arith, remove_first-append test before x after)

-- The first entry that equals the job that ends goes, and every other entry stays.
end_job-first :
    (r : Register) (current first : ℕ) (before after : List ℕ)
    → r.running ≡ before ++ first ∷ after
    → every (λ x. not (equal r.made r.jobs x current)) before ≡ true
    → equal r.made r.jobs first current ≡ true
    → (r' : Register) × (end_job current r ≡ some r') × (r'.running ≡ before ++ after)
unfolding end_job fail_job remove_job
end_job-first r current first before after at h e =
    let test : ℕ → Bool = λ x. equal r.made r.jobs x current in
    let gone : remove_first test r.running ≡ some (before ++ after) =
      ap (remove_first test) at ∙ remove_first-append test before first after h e in
    let left = with_running (before ++ after) r in
    (close current left, ground (arith, gone), close-running current left)

equal_refl : (depth : ℕ) (r : Register) (j : ℕ) → equal depth r.jobs j j ≡ true
unfolding equal
equal_refl zero r j = ground (arith, beq_refl j)
equal_refl (suc depth) r j = ground (arith, beq_refl j)

-- A running job and what stands before and after it.
running_split :
    (xs : List ℕ) (a : ℕ)
    → contains xs a ≡ true
    → (before after : List ℕ) × (xs ≡ before ++ a ∷ after)
running_split [] a h = absurd (cc)
running_split (x ∷ xs) a h = elim (Bool-cases (x == a)) [
  | inl at ↦ ([], xs, ap (λ y. y ∷ xs) ((beq_iff x a).0 at))
  | inr past ↦
      let (before, after, e) = running_split xs a (ground arith) in
      (x ∷ before, after, ap (λ ys. x ∷ ys) e)
]

-- Every member but `a` fails the test, and `a` is no member of what stands before it.
every_before :
    (test : ℕ → Bool) (before after : List ℕ) (a : ℕ)
    → count a (before ++ a ∷ after) ≤ 1
    → ((x : ℕ) → contains (before ++ a ∷ after) x ≡ true → x ≢ a → test x ≡ false)
    → every (λ x. not (test x)) before ≡ true
every_before test [] after a once other = refl
every_before test (x ∷ before) after a once other =
    let later =
      every_before test before after a (ground arith) (λ y c n. other y (ground arith) n) in
    let differs : x ≢ a = λ e.
      absurd (ground (arith, once, count-append a before (a ∷ after), beq_iff a a, beq_iff x a)) in
    ground (arith, later, other x (ground (arith, beq_refl x)) differs)

-- In a valid register, where no other running job equals the running job that ends, `end_job` returns, and
-- each job then runs as often as before, but the one that ended not at all.
pub end_job_exact :
    (r : Register) (current : ℕ)
    → IsValid r
    → contains r.running current ≡ true
    → ((x : ℕ) → contains r.running x ≡ true → x ≢ current → equal r.made r.jobs x current ≡ false)
    → (r' : Register) × (end_job current r ≡ some r')
      × ((j : ℕ) → count j r'.running ≡ (if j == current then 0 else count j r.running))
end_job_exact r current v runs other =
    let (before, after, at) = running_split r.running current runs in
    let once : count current (before ++ current ∷ after) ≤ 1 = rw (← at) (v.once current) in
    let test : ℕ → Bool = λ x. equal r.made r.jobs x current in
    let others : every (λ x. not (test x)) before ≡ true =
      every_before test before after current once (λ x c. other x (rw at c)) in
    let (r', ended, left) =
      end_job-first r current current before after at others (equal_refl r.made r current) in
    (
      r',
      ended,
      λ j. ground (
        arith,
        once,
        ap (count j) left,
        ap (count j) at,
        beq_iff current j,
        beq_iff j current,
        count-append j before (current ∷ after),
        count-append j before after,
      ),
    )

-- In a valid register, where an earlier running job equals the running job that ends, and none before it
-- does, `end_job` takes out the entry of that earlier job: it no longer runs, and the job that ended still
-- does.
pub end_job_twin :
    (r : Register) (current twin : ℕ) (before after : List ℕ)
    → IsValid r
    → r.running ≡ before ++ twin ∷ after
    → every (λ x. not (equal r.made r.jobs x current)) before ≡ true
    → equal r.made r.jobs twin current ≡ true
    → contains after current ≡ true
    → (r' : Register) × (end_job current r ≡ some r')
      × (count twin r'.running ≡ 0)
      × (0 < count current r'.running)
end_job_twin r current twin before after v at h e c =
    let (r', ended, left) = end_job-first r current twin before after at h e in
    let once : count twin (before ++ twin ∷ after) ≤ 1 = rw (← at) (v.once twin) in
    (
      r',
      ended,
      rw left (
          ground (
            arith,
            once,
            beq_iff twin twin,
            count-append twin before (twin ∷ after),
            count-append twin before after,
          )),
      rw left (omega (arith, contains-count after current c, count-append current before after)),
    )
