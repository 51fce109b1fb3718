-- ===== src/Scanner/Groups.antt =====
-- `scanner._disjoint_groups`: which directories that name one release are parts of one album, and
-- which are copies. A path is the list of its parts, and `path_le` is the order of paths.
pub mod Partition
pub mod Apart
pub mod Merge
use harmonist.Prelude.{
  ℕ, String, Bool, true, false, ◌&&◌, ◌||◌, not, Option, none, some, List, [], ◌∷◌, ◌++◌, map, ◌==◌,
  nat_eq, string_eq, option_eq, Compared, contains, any_of, every, distinct, slots_of, sort_by,
  if◌then◌else◌,
}
use harmonist.Formats.{ScanFields}

pub record ScannedDir : Type 0 where
  pub path : List String
  pub fields : List ScanFields

-- The values that the files carry, or none at all if a file lacks one.
unfoldable pub all_or_nothing {ℓ} : {A : Type ℓ} ⦃e : Compared A⦄ → List (Option A) → List A
all_or_nothing values = if contains values none then [] else distinct (slots_of values)

unfoldable pub release_track_ids : ScannedDir → List String
unfolding all_or_nothing
release_track_ids entry = all_or_nothing (map (λ f. f.release_track_id) entry.fields)

unfoldable pub disc_numbers : ScannedDir → List ℕ
unfolding all_or_nothing
disc_numbers entry = all_or_nothing (map (λ f. f.disc_num) entry.fields)

abbrev pub nonempty {ℓ} : {A : Type ℓ} → List A → Bool
nonempty [] = false
nonempty (x ∷ xs) = true

-- `not (a & b)`
unfoldable pub disjoint {ℓ} : {A : Type ℓ} ⦃e : Compared A⦄ → List A → List A → Bool
disjoint as_ bs = not (any_of (λ a. contains bs a) as_)

unfoldable pub holds_different_tracks : ScannedDir → ScannedDir → Bool
holds_different_tracks a b =
    let ids_a = release_track_ids a in
    let ids_b = release_track_ids b in
    let discs_a = disc_numbers a in
    let discs_b = disc_numbers b in
    if nonempty ids_a && nonempty ids_b
    then disjoint ids_a ids_b
    else if nonempty ids_a || nonempty ids_b
    then false
    else if not (nonempty discs_a) || not (nonempty discs_b)
    then false
    else disjoint discs_a discs_b

-- The inner loop: `part` joins the first group none of whose members it overlaps.
unfoldable pub place : ScannedDir → List (List ScannedDir) → List (List ScannedDir)
place part [] = (part ∷ []) ∷ []
place part (group ∷ groups) =
    let rest = place part groups in
    if every (λ other. holds_different_tracks part other) group
    then (group ++ part ∷ []) ∷ groups
    else group ∷ rest

unfoldable pub place_all : List (List ScannedDir) → List ScannedDir → List (List ScannedDir)
unfolding place
place_all groups [] = groups
place_all groups (part ∷ parts) = place_all (place part groups) parts

unfoldable pub disjoint_groups :
    (List String → List String → Bool) → List ScannedDir → List (List ScannedDir)
unfolding place_all
disjoint_groups path_le parts = place_all [] (sort_by (λ a b. path_le a.path b.path) parts)
