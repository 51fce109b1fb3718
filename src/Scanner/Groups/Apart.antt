-- ===== src/Scanner/Groups/Apart.antt =====
-- Inside a group of `_disjoint_groups` the directories hold different tracks.
use harmonist.Prelude.{
  ℕ, zero, suc, ◌<◌, String, ◌≡◌, ◌≢◌, ◌⊎◌, inl, inr, Bool, true, false, some, List, [], ◌∷◌, ◌++◌,
  nat_eq, string_eq, option_eq, Compared, beq_iff, contains, every, sort_by, All, arith, Bool-cases,
  get_elem?, All-get_elem?, subst,
}
use harmonist.Scanner.Groups.{
  ScannedDir, release_track_ids, disc_numbers, nonempty, disjoint, holds_different_tracks, place,
  place_all, disjoint_groups,
}

abbrev pub NoneShared {ℓ} : {A : Type ℓ} ⦃e : Compared A⦄ → List A → List A → Type ℓ
NoneShared {A = A} as_ bs = (a : A) → contains as_ a ≡ true → contains bs a ≢ true

-- Two directories hold different tracks, by the better evidence: release track ids on all files of
-- both and none in common, or ids on neither, and the same of disc numbers.
abbrev pub Different : ScannedDir → ScannedDir → Type 0
Different a b =
    (nonempty (release_track_ids a) ≡ true)
      × (nonempty (release_track_ids b) ≡ true)
      × NoneShared (release_track_ids a) (release_track_ids b)
    ⊎ (nonempty (release_track_ids a) ≡ false)
      × (nonempty (release_track_ids b) ≡ false)
      × (nonempty (disc_numbers a) ≡ true)
      × (nonempty (disc_numbers b) ≡ true)
      × NoneShared (disc_numbers a) (disc_numbers b)

disjoint-NoneShared {ℓ} :
    {A : Type ℓ} ⦃e : Compared A⦄ (as_ bs : List A) → disjoint as_ bs ≡ true → NoneShared as_ bs
unfolding disjoint
disjoint-NoneShared [] bs h a c c' = cc
disjoint-NoneShared (x ∷ as_) bs h a c c' =
    ground (arith, disjoint-NoneShared as_ bs (ground arith) a, beq_iff x a)

evidence :
    (a b : ScannedDir)
    → holds_different_tracks a b ≡ true
    → (nonempty (release_track_ids a) ≡ true)
        × (nonempty (release_track_ids b) ≡ true)
        × (disjoint (release_track_ids a) (release_track_ids b) ≡ true)
      ⊎ (nonempty (release_track_ids a) ≡ false)
        × (nonempty (release_track_ids b) ≡ false)
        × (nonempty (disc_numbers a) ≡ true)
        × (nonempty (disc_numbers b) ≡ true)
        × (disjoint (disc_numbers a) (disc_numbers b) ≡ true)
unfolding holds_different_tracks
evidence a b h = ground arith

holds_different_tracks-Different :
    (a b : ScannedDir) → holds_different_tracks a b ≡ true → Different a b
holds_different_tracks-Different a b h = elim (evidence a b h) [
  | inl (na, nb, d) ↦
      inl (na, nb, disjoint-NoneShared (release_track_ids a) (release_track_ids b) d)
  | inr (na, nb, da, db, d) ↦
      inr (na, nb, da, db, disjoint-NoneShared (disc_numbers a) (disc_numbers b) d)
]

abbrev pub fits : ScannedDir → List ScannedDir → Bool
fits part group = every (λ other. holds_different_tracks part other) group

-- Each directory holds other tracks than those that joined before it.
abbrev Apart : List ScannedDir → Type 0
Apart [] = Unit
Apart (x ∷ xs) = All (λ y. holds_different_tracks y x ≡ true) xs × Apart xs

pub All-snoc :
    (P : ScannedDir → Type 0) (x : ScannedDir) (xs : List ScannedDir)
    → All P xs
    → P x
    → All P (xs ++ x ∷ [])
All-snoc P x [] h p = (p, tt)
All-snoc P x (y ∷ ys) h p = (h.0, All-snoc P x ys h.1 p)

Apart-snoc :
    (p : ScannedDir) (g : List ScannedDir) → Apart g → fits p g ≡ true → Apart (g ++ p ∷ [])
Apart-snoc p [] a f = (tt, tt)
Apart-snoc p (x ∷ xs) a f = (
  All-snoc (λ y. holds_different_tracks y x ≡ true) p xs a.0 (ground arith),
  Apart-snoc p xs a.1 (ground arith),
)

place-Apart : (p : ScannedDir) (gs : List (List ScannedDir)) → All Apart gs → All Apart (place p gs)
unfolding place
place-Apart p [] a = ((tt, tt), tt)
place-Apart p (g ∷ gs) a = elim (Bool-cases (fits p g)) [
  | inl joins ↦ rw joins (Apart-snoc p g a.0 joins, a.1)
  | inr bars ↦ rw bars (a.0, place-Apart p gs a.1)
]

place_all-Apart :
    (gs : List (List ScannedDir)) (ps : List ScannedDir)
    → All Apart gs
    → All Apart (place_all gs ps)
unfolding place_all
place_all-Apart gs [] a = a
place_all-Apart gs (p ∷ ps) a = place_all-Apart (place p gs) ps (place-Apart p gs a)

Apart-get_elem? :
    (g : List ScannedDir) (i j : ℕ) (a b : ScannedDir)
    → Apart g
    → i < j
    → get_elem? g i ≡ some a
    → get_elem? g j ≡ some b
    → holds_different_tracks b a ≡ true
Apart-get_elem? [] i j a b s lt at there = absurd (cc)
Apart-get_elem? (x ∷ xs) i zero a b s lt at there = absurd (omega arith)
Apart-get_elem? (x ∷ xs) zero (suc j) a b s lt at there =
    let e : x ≡ a = cc in
    subst (λ z. holds_different_tracks b z ≡ true) e
      (All-get_elem? (λ y. holds_different_tracks y x ≡ true) xs j b s.0 there)
Apart-get_elem? (x ∷ xs) (suc i) (suc j) a b s lt at there =
    Apart-get_elem? xs i j a b s.1 (omega arith) at there

-- Two directories of one group hold different tracks.
pub disjoint_groups-Different :
    (path_le : List String → List String → Bool) (parts : List ScannedDir) (k i j : ℕ)
    (group : List ScannedDir) (a b : ScannedDir)
    → get_elem? (disjoint_groups path_le parts) k ≡ some group
    → i < j
    → get_elem? group i ≡ some a
    → get_elem? group j ≡ some b
    → Different b a
unfolding disjoint_groups
disjoint_groups-Different path_le parts k i j group a b at lt here there =
    holds_different_tracks-Different b a (
      Apart-get_elem? group i j a b
        (All-get_elem? Apart _ k group
          (place_all-Apart [] (sort_by (λ (c d : ScannedDir). path_le c.path d.path) parts) tt) at)
        lt here there)
