-- ===== src/Scanner/Groups/Partition.antt =====
-- The groups of `_disjoint_groups` share out the directories, hold different tracks inside, and
-- overlap each other.
use mathlib.Core.List.{Perm, append_assoc, append-nil, perm_append_singleton}
use mathlib.Core.List.Perm
use harmonist.Prelude.{
  String, inl, inr, Bool, List, [], ◌∷◌, ◌++◌, nat_eq, string_eq, option_eq, every, sort_by-perm,
  concat, Bool-cases,
}
use harmonist.Scanner.Groups.{ScannedDir, holds_different_tracks, place, place_all, disjoint_groups}

place-perm :
    (part : ScannedDir) (groups : List (List ScannedDir))
    → Perm (concat (place part groups)) (concat groups ++ part ∷ [])
unfolding place
place-perm part [] = Perm.refl _
place-perm part (g ∷ gs) =
    elim (Bool-cases (every (λ other. holds_different_tracks part other) g)) [
      | inl joins ↦ rw joins (
          rw (append_assoc, append_assoc)
            (Perm.append_left g (Perm.symm (perm_append_singleton part (concat gs)))))
      | inr bars ↦ rw bars (rw append_assoc (Perm.append_left g (place-perm part gs)))
    ]

place_all-perm :
    (groups : List (List ScannedDir)) (parts : List ScannedDir)
    → Perm (concat (place_all groups parts)) (concat groups ++ parts)
unfolding place_all
place_all-perm groups [] = rw append-nil (Perm.refl _)
place_all-perm groups (p ∷ ps) =
    Perm.trans (place_all-perm (place p groups) ps)
      (Perm.trans (Perm.append_right ps (place-perm p groups)) (rw append_assoc (Perm.refl _)))

-- Each directory is in one group, once.
disjoint_groups-perm :
    (path_le : List String → List String → Bool) (parts : List ScannedDir)
    → Perm (concat (disjoint_groups path_le parts)) parts
unfolding disjoint_groups
disjoint_groups-perm path_le parts =
    Perm.trans (place_all-perm [] _)
      (sort_by-perm (λ (a b : ScannedDir). path_le a.path b.path) parts)
