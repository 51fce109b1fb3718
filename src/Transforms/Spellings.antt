-- ===== src/Transforms/Spellings.antt =====
-- The spellings that src/harmonist/transforms.py counts as accepted.
use harmonist.Prelude.{
  ℕ, ◌+◌, String, ◌≡◌, refl, Bool, true, false, ◌||◌, some, List, [], string_eq, option_eq,
  get_elem?, if◌then◌else◌, arith,
}
use harmonist.Transforms.{
  TagTransforms, ArtistNames, TaggingChoices, CreditEntry, Release, artist_spelling,
  needs_disambiguation, album_title, choice, every_choice,
}
use ArtistNames.{none_, variations, all_}

-- Where a choice stands in `every_choice`.
place : Bool → ArtistNames → Bool → ℕ
place disambiguated names lists =
    (if disambiguated then 6 else 0)
    + (elim names [ none_ ↦ 0 | variations ↦ 2 | all_ ↦ 4 ])
    + (if lists then 1 else 0)

every_choice-place :
    (d : Bool) (names : ArtistNames) (lists : Bool)
    → get_elem? every_choice (place d names lists) ≡ some (choice d names lists)
unfolding every_choice place
every_choice-place true none_ true = refl
every_choice-place true none_ false = refl
every_choice-place true variations true = refl
every_choice-place true variations false = refl
every_choice-place true all_ true = refl
every_choice-place true all_ false = refl
every_choice-place false none_ true = refl
every_choice-place false none_ false = refl
every_choice-place false variations true = refl
every_choice-place false variations false = refl
every_choice-place false all_ true = refl
every_choice-place false all_ false = refl

album_title-choice :
    (release : Release) (enabled : TagTransforms) (library : List (String × String))
    (names : ArtistNames) (lists : Bool)
    → album_title release enabled library
      ≡ album_title release
          (choice
            (enabled.album_disambiguation || needs_disambiguation release enabled library)
            names
            lists).transforms
          []
unfolding album_title needs_disambiguation
album_title-choice release enabled library names lists = ground arith

-- Whatever the choices, the library and the release, one of the choices of `every_choice` writes the same
-- album title for the release, and every artist of every credit in the same way.
pub every_choice_covers :
    (choices : TaggingChoices) (release : Release)
    → (i : ℕ) × (c : TaggingChoices) × (get_elem? every_choice i ≡ some c)
      × (album_title release choices.transforms choices.library_releases
          ≡ album_title release c.transforms c.library_releases)
      × ((entry : CreditEntry) → artist_spelling entry choices ≡ artist_spelling entry c)
unfolding artist_spelling
every_choice_covers choices release =
    let names = choices.standardize_artist_names in
    let lists = choices.always_standardize_multivalue_artist in
    let d =
      choices.transforms.album_disambiguation
      || needs_disambiguation release choices.transforms choices.library_releases in
    (
      place d names lists,
      choice d names lists,
      every_choice-place d names lists,
      album_title-choice release choices.transforms choices.library_releases names lists,
      λ entry. refl,
    )
