-- ===== src/LiveCounts/Refinement.antt =====
-- Between two scans the counts follow the library: each move does to them what the change of one
-- album does to the counts of a fresh scan.
use harmonist.Prelude.{
  ◌+◌, ◌≡◌, refl, ◌∙◌, Option, none, some, List, [], ◌∷◌, ◌++◌, length, nat_eq, arith,
}
use harmonist.Models.{AlbumState, complete, incomplete}
use harmonist.LiveCounts.{
  same_state, same_option, Counts, reset_from, leave, enter, move, to_status, is_terminal,
  total_where,
}

reset_from-append :
    (xs ys : List AlbumState) (s : AlbumState)
    → reset_from (xs ++ ys) s ≡ reset_from xs s + reset_from ys s
unfolding reset_from
reset_from-append [] ys s = omega arith
reset_from-append (x ∷ xs) ys s = omega (arith, reset_from-append xs ys s)

-- What happens to one album: it comes, it goes, or its state changes, wherever it stands.
pub data Change
    : List AlbumState → Option AlbumState → Option AlbumState → List AlbumState → Type 0 where
  comes :
      (a : AlbumState) (xs ys : List AlbumState) → Change (xs ++ ys) none (some a) (xs ++ a ∷ ys)
  goes : (a : AlbumState) (xs ys : List AlbumState) → Change (xs ++ a ∷ ys) (some a) none (xs ++ ys)
  turns :
      (a b : AlbumState) (xs ys : List AlbumState)
      → Change (xs ++ a ∷ ys) (some a) (some b) (xs ++ b ∷ ys)

-- The albums of a library, the changes since the scan, and the albums that there are now.
pub data Run
    : List AlbumState
      → List (Option AlbumState × Option AlbumState)
      → List AlbumState
      → Type 0 where
  still : {xs : List AlbumState} → Run xs [] xs
  next :
      {xs ys zs : List AlbumState} {old new_state : Option AlbumState}
      {moves : List (Option AlbumState × Option AlbumState)}
      → Change xs old new_state ys
      → Run ys moves zs
      → Run xs ((old, new_state) ∷ moves) zs

pub move_all : List (Option AlbumState × Option AlbumState) → Counts → Counts
move_all [] counts = counts
move_all ((old, new_state) ∷ moves) counts = move_all moves (move old new_state counts)

move_ext :
    (old new_state : Option AlbumState) (c d : Counts)
    → ((s : AlbumState) → c s ≡ d s)
    → (s : AlbumState) → move old new_state c s ≡ move old new_state d s
unfolding move leave enter same_option
move_ext none none c d h s = h s
move_ext none (some b) c d h s = ground (arith, h s)
move_ext (some a) none c d h s = ground (arith, h s)
move_ext (some a) (some b) c d h s = ground (arith, h s)

move_all_ext :
    (moves : List (Option AlbumState × Option AlbumState)) (c d : Counts)
    → ((s : AlbumState) → c s ≡ d s)
    → (s : AlbumState) → move_all moves c s ≡ move_all moves d s
unfolding move_all
move_all_ext [] c d h s = h s
move_all_ext ((old, new_state) ∷ moves) c d h s =
    move_all_ext moves (move old new_state c) (move old new_state d) (move_ext old new_state c d h)
      s

move-Change :
    {xs ys : List AlbumState} {old new_state : Option AlbumState}
    → Change xs old new_state ys
    → (s : AlbumState) → move old new_state (reset_from xs) s ≡ reset_from ys s
unfolding move leave enter same_option same_state reset_from
move-Change (comes a xs ys) s =
    ground (arith, reset_from-append xs ys s, reset_from-append xs (a ∷ ys) s)
move-Change (goes a xs ys) s =
    ground (arith, reset_from-append xs ys s, reset_from-append xs (a ∷ ys) s)
move-Change (turns a b xs ys) s =
    ground (arith, reset_from-append xs (b ∷ ys) s, reset_from-append xs (a ∷ ys) s)

-- After any changes since a scan, the counts that `move` has kept are those that a scan would set.
pub move_all-Run :
    {xs zs : List AlbumState} {moves : List (Option AlbumState × Option AlbumState)}
    → Run xs moves zs
    → (s : AlbumState) → move_all moves (reset_from xs) s ≡ reset_from zs s
unfolding move_all
move_all-Run still s = refl
move_all-Run (next {moves} change run) s =
    move_all_ext moves _ _ (move-Change change) s ∙ move_all-Run run s

-- The inbox and the library of a fresh count add up to the number of albums, and the library is the
-- complete and the incomplete ones.
to_status_total :
    (xs : List AlbumState)
    → ((to_status (reset_from xs)).inbox + (to_status (reset_from xs)).library ≡ length xs)
      × ((to_status (reset_from xs)).library ≡ reset_from xs complete + reset_from xs incomplete)
unfolding to_status total_where is_terminal reset_from same_state
to_status_total [] = (refl, refl)
to_status_total (x ∷ xs) = (ground (arith, (to_status_total xs).0), ground arith)
