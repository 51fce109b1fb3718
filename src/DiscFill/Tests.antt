-- ===== src/DiscFill/Tests.antt =====
-- Two discs and three folders, and the theorems of DiscFill at them.
use harmonist.Prelude.{
  ℕ, String, ◌≡◌, refl, true, false, none, some, List, [], ◌∷◌, string_eq, get_elem?,
}
use harmonist.Models.{new}
use harmonist.DiscFill.{Album, Candidate, fits_gap, all_close, is_close, only_fitting, automatic}
use harmonist.DiscFill.Unique.{IsOnly, automatic-IsOnly}

abbrev folder : String → Album
folder id = record {
  id = id;
  path = id;
  state = new;
  track_count = 1;
  has_tag_mbid = false;
  sidecar_release = none;
  folders = id ∷ [];
}

abbrev found : List (ℕ × List Candidate)
found =
    (
      1,
      record { album = folder "a"; fits = true } ∷ record { album = folder "b"; fits = false } ∷ [],
    )
    ∷ (
      2,
      record { album = folder "c"; fits = true } ∷ record { album = folder "b"; fits = true } ∷ [],
    )
    ∷ []

-- Two folders fit the second disc, so it is left to the user.
found-automatic : automatic found ≡ (1, folder "a") ∷ []
unfolding automatic only_fitting
found-automatic = refl

unknown_unfit : fits_gap (record { disc = 1; lengths = some 1000 ∷ [] }) (none ∷ []) ≡ false
unfolding fits_gap all_close is_close
unknown_unfit = refl

found-first : get_elem? (automatic found) 0 ≡ some (1, folder "a")
unfolding automatic only_fitting
found-first = refl

automatic-IsOnly_example : IsOnly found 1 (folder "a")
automatic-IsOnly_example = automatic-IsOnly found 0 1 (folder "a") found-first
