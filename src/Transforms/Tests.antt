-- ===== src/Transforms/Tests.antt =====
-- A release beside another of its group, an artist with a former name, and the theorem of Transforms.
use harmonist.Prelude.{ℕ, ◌≡◌, refl, true, false, some, [], ◌∷◌, get_elem?, string_eq}
use harmonist.Transforms.{
  ArtistNames, TaggingChoices, CreditEntry, Release, standardizes, is_former_name, is_former_alias,
  is_name_type, alias_sort_name, credited_name, artist_spelling, needs_disambiguation, album_title,
  title_with_disambiguation, every_choice,
}
use harmonist.Transforms.Spellings.{every_choice_covers}
use ArtistNames.{variations}

abbrev saw : Release
saw = record { id = "r1"; title = "Works"; group = some "g"; disambiguation = some " expanded " }

abbrev boat : CreditEntry
boat = record {
  name = some "Scarecrow Boat";
  artist = record {
    name = some "Boat";
    sort_name = some "Boat";
    alias_list =
        record {
          alias = some "Scarecrow Boat";
          sort_name = some "Boat, Scarecrow";
          type_ = some "Artist name";
          end_date = some "2009";
        }
        ∷ [];
  };
}

abbrev if_needed : TaggingChoices
if_needed = record {
  transforms = record { album_disambiguation = false; album_disambiguation_if_needed = true };
  standardize_artist_names = variations;
  always_standardize_multivalue_artist = true;
  library_releases = ("r2", "g") ∷ [];
}

needed_title : album_title saw if_needed.transforms if_needed.library_releases ≡ "Works (expanded)"
unfolding album_title needs_disambiguation title_with_disambiguation
needed_title = refl

unneeded_title : album_title saw if_needed.transforms (("r1", "g") ∷ []) ≡ "Works"
unfolding album_title needs_disambiguation title_with_disambiguation
unneeded_title = refl

former_spelling :
    artist_spelling boat if_needed
    ≡ record { name = "Scarecrow Boat"; sort_name = "Boat, Scarecrow"; list_name = "Boat" }
unfolding artist_spelling standardizes is_former_name is_former_alias is_name_type alias_sort_name
    credited_name
former_spelling = refl

every_choice_covers_example :
    (i : ℕ) × (c : TaggingChoices) × (get_elem? every_choice i ≡ some c)
    × (album_title saw if_needed.transforms if_needed.library_releases
        ≡ album_title saw c.transforms c.library_releases)
    × ((entry : CreditEntry) → artist_spelling entry if_needed ≡ artist_spelling entry c)
every_choice_covers_example = every_choice_covers if_needed saw
