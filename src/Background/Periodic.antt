-- ===== src/Background/Periodic.antt =====
-- src/harmonist/web/periodic.py: the ticks of a periodic task and the lines that it logs about them. A tick is true
-- where the action returned.
use harmonist.Prelude.{
  ℕ, zero, suc, ◌≡◌, refl, Bool, true, false, List, [], ◌∷◌, ltb, ◌==◌, nat_eq, if◌then◌else◌,
  arith,
}

-- `log.exception`, `log.debug` and `log.info`, with their counts.
pub data Line : Type 0 where
  failed : Line
  failed_again : ℕ → Line
  recovered : ℕ → Line

-- The loop from `failures` on.
unfoldable pub ticks : ℕ → List Bool → List Line
ticks failures [] = []
ticks failures (true ∷ outcomes) =
    let rest = ticks 0 outcomes in if ltb 0 failures then recovered failures ∷ rest else rest
ticks failures (false ∷ outcomes) =
    let rest = ticks (suc failures) outcomes in
    if suc failures == 1 then failed ∷ rest else failed_again (suc failures) ∷ rest

-- The lines that the Activity feed shows: those logged at WARNING or above.
abbrev pub loud : List Line → ℕ
loud [] = 0
loud (failed ∷ lines) = suc (loud lines)
loud (failed_again n ∷ lines) = loud lines
loud (recovered n ∷ lines) = loud lines

-- The runs of failures: a failure that no failure stands before begins one.
abbrev pub episodes : Bool → List Bool → ℕ
episodes before [] = 0
episodes before (true ∷ outcomes) = episodes true outcomes
episodes true (false ∷ outcomes) = suc (episodes false outcomes)
episodes false (false ∷ outcomes) = episodes false outcomes

loud-ticks :
    (failures : ℕ) (outcomes : List Bool)
    → loud (ticks failures outcomes) ≡ episodes (failures == 0) outcomes
unfolding ticks
loud-ticks failures [] = refl
loud-ticks failures (true ∷ outcomes) = ground (arith, loud-ticks 0 outcomes)
loud-ticks zero (false ∷ outcomes) = ground (arith, loud-ticks 1 outcomes)
loud-ticks (suc n) (false ∷ outcomes) = ground (arith, loud-ticks (suc (suc n)) outcomes)

-- However the ticks turn out, the feed gets one line for each run of failures.
ticks-episodes : (outcomes : List Bool) → loud (ticks 0 outcomes) ≡ episodes true outcomes
ticks-episodes outcomes = loud-ticks 0 outcomes
