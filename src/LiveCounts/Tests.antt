-- ===== src/LiveCounts/Tests.antt =====
-- A library of three albums, and the theorems of LiveCounts at it.
use harmonist.Prelude.{◌≡◌, refl, none, some, [], ◌∷◌}
use harmonist.Models.{new, complete, incomplete}
use harmonist.LiveCounts.{reset_from, move, same_state, leave, enter, same_option}
use harmonist.LiveCounts.Refinement.{goes, turns, Run, still, next, move_all, move_all-Run}

-- An album is tagged, and another is deleted.
abbrev run :
    Run
      (new ∷ complete ∷ incomplete ∷ [])
      ((some new, some complete) ∷ (some incomplete, none) ∷ [])
      (complete ∷ complete ∷ [])
run =
    next (turns new complete [] (complete ∷ incomplete ∷ []))
      (next (goes incomplete (complete ∷ complete ∷ []) []) still)

move-floors : move (some new) (some complete) (reset_from []) new ≡ 0
unfolding move reset_from same_state leave enter same_option
move-floors = refl

move_all-Run_example :
    move_all
      ((some new, some complete) ∷ (some incomplete, none) ∷ [])
      (reset_from (new ∷ complete ∷ incomplete ∷ []))
      complete
    ≡ reset_from (complete ∷ complete ∷ []) complete
move_all-Run_example = move_all-Run run complete
