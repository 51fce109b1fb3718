-- ===== src/Scanner/Groups/Merge.antt =====
-- A directory that could have joined an earlier group of `_disjoint_groups` did.
use harmonist.Prelude.{
  ℕ, zero, suc, ◌<◌, String, ◌≡◌, refl, inl, inr, Bool, true, false, some, List, [], ◌∷◌, ◌++◌,
  nat_eq, string_eq, option_eq, Compared, beq_refl, sort_by, All, All-map, every-append, arith,
  Bool-cases, get_elem?, All-get_elem?, subst,
}
use harmonist.Scanner.Groups.{
  ScannedDir, release_track_ids, disc_numbers, disjoint, holds_different_tracks, place, place_all,
  disjoint_groups,
}
use harmonist.Scanner.Groups.Apart.{NoneShared, Different, fits, All-snoc}

-- No directory of a later group fits an earlier one.
abbrev Separate : List (List ScannedDir) → Type 0
Separate [] = Unit
Separate (g ∷ gs) = All (All (λ part. fits part g ≡ false)) gs × Separate gs

-- A directory that does not fit a group does not fit it when it has grown.
grown :
    (p : ScannedDir) (g : List ScannedDir) (hs : List (List ScannedDir))
    → All (All (λ q. fits q g ≡ false)) hs
    → All (All (λ q. fits q (g ++ p ∷ []) ≡ false)) hs
grown p g hs h =
    All-map hs
      (λ l. All-map l (λ q barred.
        rw (every-append (λ other. holds_different_tracks q other) g (p ∷ [])) (rw barred)))
      h

place-barred :
    (p : ScannedDir) (g : List ScannedDir) (hs : List (List ScannedDir))
    → fits p g ≡ false
    → All (All (λ q. fits q g ≡ false)) hs
    → All (All (λ q. fits q g ≡ false)) (place p hs)
unfolding place
place-barred p g [] b h = ((b, tt), tt)
place-barred p g (k ∷ hs) b h = elim (Bool-cases (fits p k)) [
  | inl joins ↦ rw joins (All-snoc (λ q. fits q g ≡ false) p k h.0 b, h.1)
  | inr bars ↦ rw bars (h.0, place-barred p g hs b h.1)
]

place-Separate :
    (p : ScannedDir) (gs : List (List ScannedDir)) → Separate gs → Separate (place p gs)
unfolding place
place-Separate p [] s = (tt, tt)
place-Separate p (g ∷ gs) s = elim (Bool-cases (fits p g)) [
  | inl joins ↦ rw joins (grown p g gs s.0, s.1)
  | inr bars ↦ rw bars (place-barred p g gs bars s.0, place-Separate p gs s.1)
]

place_all-Separate :
    (gs : List (List ScannedDir)) (ps : List ScannedDir) → Separate gs → Separate (place_all gs ps)
unfolding place_all
place_all-Separate gs [] s = s
place_all-Separate gs (p ∷ ps) s = place_all-Separate (place p gs) ps (place-Separate p gs s)

NoneShared-disjoint {ℓ} :
    {A : Type ℓ} ⦃e : Compared A⦄ (as_ bs : List A) → NoneShared as_ bs → disjoint as_ bs ≡ true
unfolding disjoint
NoneShared-disjoint [] bs n = refl
NoneShared-disjoint (x ∷ as_) bs n = ground (
  arith,
  NoneShared-disjoint as_ bs (λ a c. n a (ground arith)),
  n x (ground (arith, beq_refl x)),
)

Different-holds_different_tracks :
    (a b : ScannedDir) → Different a b → holds_different_tracks a b ≡ true
unfolding holds_different_tracks
Different-holds_different_tracks a b (inl (na, nb, n)) =
    ground (arith, NoneShared-disjoint (release_track_ids a) (release_track_ids b) n)
Different-holds_different_tracks a b (inr (na, nb, da, db, n)) =
    ground (arith, NoneShared-disjoint (disc_numbers a) (disc_numbers b) n)

barred_by :
    (part : ScannedDir) (g : List ScannedDir)
    → fits part g ≡ false
    → (i : ℕ) × (other : ScannedDir) × (get_elem? g i ≡ some other) × ¬ Different part other
barred_by part [] h = absurd (cc)
barred_by part (x ∷ xs) h = elim (Bool-cases (holds_different_tracks part x)) [
  | inl apart ↦ let (i, other, at, n) = barred_by part xs (ground arith) in (suc i, other, at, n)
  | inr same ↦ (0, x, refl, λ d. cc (Different-holds_different_tracks part x d))
]

Separate-get_elem? :
    (gs : List (List ScannedDir)) (k l : ℕ) (g h : List ScannedDir)
    → Separate gs
    → k < l
    → get_elem? gs k ≡ some g
    → get_elem? gs l ≡ some h
    → All (λ part. fits part g ≡ false) h
Separate-get_elem? [] k l g h s lt at there = absurd (cc)
Separate-get_elem? (x ∷ xs) k zero g h s lt at there = absurd (omega arith)
Separate-get_elem? (x ∷ xs) zero (suc l) g h s lt at there =
    let e : x ≡ g = cc in
    subst (λ z. All (λ part. fits part z ≡ false) h) e
      (All-get_elem? (All (λ part. fits part x ≡ false)) xs l h s.0 there)
Separate-get_elem? (x ∷ xs) (suc k) (suc l) g h s lt at there =
    Separate-get_elem? xs k l g h s.1 (omega arith) at there

-- Directories that could be one album are: each directory of a later group is not different from
-- some directory of every earlier group.
disjoint_groups_merge :
    (path_le : List String → List String → Bool) (parts : List ScannedDir) (k l j : ℕ)
    (group later : List ScannedDir) (part : ScannedDir)
    → k < l
    → get_elem? (disjoint_groups path_le parts) k ≡ some group
    → get_elem? (disjoint_groups path_le parts) l ≡ some later
    → get_elem? later j ≡ some part
    → (i : ℕ) × (other : ScannedDir) × (get_elem? group i ≡ some other) × ¬ Different part other
unfolding disjoint_groups
disjoint_groups_merge path_le parts k l j group later part lt here there at = barred_by part group (
    All-get_elem? (λ p. fits p group ≡ false) later j part
      (Separate-get_elem? (disjoint_groups path_le parts) k l group later
        (place_all-Separate [] (sort_by (λ (c d : ScannedDir). path_le c.path d.path) parts) tt) lt
        here there)
      at)
