-- ===== src/Pregaps.antt =====
-- src/harmonist/pregaps.py: `effective`, which of the owner's combined-pregap decisions still hold
-- of the files. The loop passes `credited_discs` along.
pub mod Discs
mod Tests
use harmonist.Prelude.{
  ℕ, ◌≤◌, ◌<◌, ◌≡◌, String, Bool, true, false, ◌&&◌, ◌||◌, not, Option, none, some, List, [], ◌∷◌,
  ◌==◌, nat_eq, string_eq, option_eq, contains, keep, any_of, length, leb, if◌then◌else◌,
}
use harmonist.Formats.{ScanFields, or_1}

pub record IncludedPregap : Type 0 where
  pub release : String
  pub pregap : String
  pub track : String
  pub duration_ms : ℕ
  pub track_total : ℕ

-- `(f.disc_num or 1) == disc and not f.unreadable`
abbrev pub on_disc : ℕ → ScanFields → Bool
on_disc disc f = (or_1 f.disc_num == disc) && not f.unreadable

module _ (fields : List ScanFields) (release : Option String) where
  -- The last test of the loop's body, at the one file that the decision names.
  unfoldable pub refused : IncludedPregap → ScanFields → List ℕ → Bool
  refused decision first credited =
      let disc = or_1 first.disc_num in
      let files = keep (on_disc disc) fields in
      first.unreadable
      || not (first.album_id == release)
      || not (first.duration_ms == some decision.duration_ms)
      || leb (length files) 0
      || any_of (λ f. not (f.track_total == some decision.track_total)) files
      || leb decision.track_total (length files)
      || contains credited disc

  unfoldable pub match_first : IncludedPregap → List ScanFields → List ℕ → Option ℕ
  unfolding refused
  match_first decision (first ∷ []) credited =
      if refused decision first credited then none else some (or_1 first.disc_num)
  match_first decision _ credited = none

  -- The body of the loop: the disc that the decision is credited to, if it is.
  unfoldable pub credit : IncludedPregap → List ℕ → Option ℕ
  unfolding match_first
  credit decision credited =
      if not (some decision.release == release)
        || any_of (λ f. f.release_track_id == some decision.pregap) fields
      then none
      else match_first decision (keep (λ f. f.release_track_id == some decision.track) fields)
          credited

  unfoldable pub credit_all : List IncludedPregap → List ℕ → List IncludedPregap
  unfolding credit
  credit_all [] credited = []
  credit_all (d ∷ ds) credited = elim (credit d credited) [
    | none ↦ credit_all ds credited
    | some disc ↦ d ∷ credit_all ds (disc ∷ credited)
  ]

  unfoldable pub effective : List IncludedPregap → List IncludedPregap
  unfolding credit_all
  effective decisions = credit_all decisions []
