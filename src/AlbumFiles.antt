-- ===== src/AlbumFiles.antt =====
-- src/harmonist/album_files.py, `root_of` and `Naming`: how the records of an album name its files. A path
-- and a name are the lists of their parts, as pathlib has them; an absolute path begins with "/".
pub mod Named
mod Tests
use harmonist.Prelude.{
  ℕ, suc, ◌-◌, String, Bool, true, false, not, ◌&&◌, ◌||◌, Option, none, some, List, [], ◌∷◌, ◌==◌,
  Compared, list_eq, list_beq, list_beq_refl, list_beq→eq, compared_by, string_eq, length, map,
  every, any_of, keep, drop, contains, ◌≡◌, ◌↔◌, refl, arith, beq_iff, beq_refl, if◌then◌else◌,
}

abbrev pub FilePath : Type 0
FilePath = List String

instance abbrev pub path_eq : Compared FilePath
path_eq = list_eq

unfoldable pub is_absolute : FilePath → Bool
is_absolute [] = false
is_absolute (a ∷ p) = a == "/"

-- `path.parent`
unfoldable pub parent : FilePath → FilePath
parent [] = []
parent (a ∷ []) = []
parent (a ∷ b ∷ p) = a ∷ parent (b ∷ p)

-- `path.name`, as a name of one part.
unfoldable pub bare_name : FilePath → FilePath
bare_name [] = []
bare_name (a ∷ []) = a ∷ []
bare_name (a ∷ b ∷ p) = bare_name (b ∷ p)

unfoldable pub common : FilePath → FilePath → FilePath
common [] q = []
common (a ∷ p) [] = []
common (a ∷ p) (b ∷ q) = let rest = common p q in if a == b then a ∷ rest else []

unfoldable pub common_all : FilePath → List FilePath → FilePath
unfolding common
common_all p [] = p
common_all p (q ∷ qs) = common p (common_all q qs)

-- `os.path.commonpath`: `none` where it raises, on absolute and relative paths together.
unfoldable pub commonpath : FilePath → List FilePath → Option FilePath
unfolding common_all is_absolute
commonpath p ps =
    if every is_absolute (p ∷ ps) || every (λ q. not (is_absolute q)) (p ∷ ps)
    then some (common_all p ps)
    else none

unfoldable pub root_of : FilePath → List FilePath → FilePath
unfolding commonpath parent
root_of album_dir files =
    let dirs = map parent files in
    if every (list_beq album_dir) dirs
    then album_dir
    else elim (commonpath album_dir dirs) [ none ↦ album_dir | some root ↦ root ]

-- `path.relative_to(root)`: `none` where it raises.
unfoldable pub relative_to : FilePath → FilePath → Option FilePath
relative_to [] path = some path
relative_to (a ∷ root) [] = none
relative_to (a ∷ root) (b ∷ path) =
    let rest = relative_to root path in if a == b then rest else none

-- `f.parts[-len(wanted):] == wanted`
unfoldable pub ends_as : FilePath → FilePath → Bool
ends_as wanted path = list_beq (drop (length path - length wanted) path) wanted

abbrev pub is_special : String → Bool
is_special part = part == "" || (part == "." || part == "..")

module _ (album_dir : FilePath) (files : List FilePath) where
  unfoldable pub name_of : FilePath → FilePath
  unfolding root_of relative_to bare_name
  name_of path = elim (relative_to (root_of album_dir files) path) [
    | none ↦ bare_name path
    | some rest ↦ rest
  ]

  unfoldable pub matches : FilePath → List FilePath
  unfolding is_absolute ends_as
  matches [] = []
  matches (a ∷ wanted) =
      if is_absolute (a ∷ wanted) || any_of is_special (a ∷ wanted)
      then []
      else keep (ends_as (a ∷ wanted)) files
