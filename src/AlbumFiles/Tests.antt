-- ===== src/AlbumFiles/Tests.antt =====
-- An album of two discs in sibling directories, and the theorems of AlbumFiles at it.
use harmonist.Prelude.{◌≡◌, refl, true, List, [], ◌∷◌, contains, string_eq}
use harmonist.AlbumFiles.{
  FilePath, path_eq, is_absolute, parent, common, common_all, commonpath, root_of, relative_to,
  name_of, ends_as, matches,
}
use harmonist.AlbumFiles.Named.{name_of-matches}

abbrev first_disc : FilePath
first_disc = "/" ∷ "music" ∷ "LP" ∷ "CD1" ∷ "01.m4a" ∷ []

abbrev second_disc : FilePath
second_disc = "/" ∷ "music" ∷ "LP" ∷ "CD2" ∷ "01.m4a" ∷ []

abbrev album_dir : FilePath
album_dir = "/" ∷ "music" ∷ "LP" ∷ "CD1" ∷ []

abbrev files : List FilePath
files = first_disc ∷ second_disc ∷ []

second_name : name_of album_dir files second_disc ≡ "CD2" ∷ "01.m4a" ∷ []
unfolding name_of root_of commonpath common_all common parent is_absolute relative_to
second_name = refl

-- A name from before the discs were named means both.
bare_matches : matches album_dir files ("01.m4a" ∷ []) ≡ files
unfolding matches is_absolute ends_as
bare_matches = refl

up_matches : matches album_dir files (".." ∷ "01.m4a" ∷ []) ≡ []
unfolding matches is_absolute
up_matches = refl

name_of-matches_example :
    contains (matches album_dir files (name_of album_dir files second_disc)) second_disc ≡ true
unfolding parent is_absolute
name_of-matches_example =
    name_of-matches album_dir files refl ("music" ∷ "LP" ∷ "CD2" ∷ "01.m4a" ∷ []) refl refl
