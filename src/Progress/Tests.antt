-- ===== src/Progress/Tests.antt =====
-- An update with a tagging inside it, two jobs that look alike, and the theorems of Progress at them.
use harmonist.Prelude.{
  ℕ, zero, suc, ◌<◌, ◌≡◌, ◌≢◌, refl, true, false, none, some, [], ◌∷◌, ◌==◌, nat_eq, option_eq,
  string_eq, if◌then◌else◌, count, contains, arith,
}
use harmonist.Progress.{Register, equal, same_fields, start_job, end_job, advance, nothing_running}
use harmonist.Progress.Ended.{Change, Run, IsValid, run-IsValid, nothing_running-IsValid}
use harmonist.Progress.Removal.{end_job_exact, end_job_twin}

-- Two jobs of one label and total run at once, as two re-checks do.
abbrev one_check : Register
one_check = (start_job "Checking" 5 false none nothing_running).1

abbrev two_checks : Register
two_checks = (start_job "Checking" 5 false none one_check).1

checks-Run : Run nothing_running two_checks
checks-Run =
    Run.then_ _ one_check _
      (Run.then_ _ nothing_running _ (Run.stay _)
        (Change.starts "Checking" 5 false none nothing_running))
      (Change.starts "Checking" 5 false none one_check)

two_checks-IsValid : IsValid two_checks
two_checks-IsValid = run-IsValid nothing_running two_checks checks-Run nothing_running-IsValid

end_job_twin_example :
    (r' : Register) × (end_job 1 two_checks ≡ some r')
    × (count 0 r'.running ≡ 0)
    × (0 < count 1 r'.running)
unfolding start_job equal same_fields
end_job_twin_example =
    end_job_twin two_checks 1 0 [] (1 ∷ []) two_checks-IsValid refl refl refl refl

-- The first check has gone on before the second ends.
abbrev checks_apart : Register
checks_apart = advance 0 1 two_checks

checks_apart-IsValid : IsValid checks_apart
checks_apart-IsValid =
    run-IsValid nothing_running checks_apart
      (Run.then_ _ two_checks _ checks-Run (Change.advances 0 1 two_checks)) nothing_running-IsValid

others_differ :
    (x : ℕ)
    → contains checks_apart.running x ≡ true
    → x ≢ 1
    → equal checks_apart.made checks_apart.jobs x 1 ≡ false
unfolding advance start_job equal same_fields
others_differ zero c n = refl
others_differ (suc zero) c n = absurd (n refl)
others_differ (suc (suc x)) c n = absurd (ground arith)

end_job_exact_example :
    (r' : Register) × (end_job 1 checks_apart ≡ some r')
    × ((j : ℕ) → count j r'.running ≡ (if j == 1 then 0 else count j checks_apart.running))
unfolding advance start_job
end_job_exact_example = end_job_exact checks_apart 1 checks_apart-IsValid refl others_differ

abbrev tagging_inside : Register
tagging_inside = (start_job "Tagging" 3 true (some 0) one_check).1
