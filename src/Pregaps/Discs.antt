-- ===== src/Pregaps/Discs.antt =====
-- What a credited pregap decision says of the files of its disc.
use harmonist.Prelude.{
  ℕ, ◌+◌, ◌≤◌, ◌<◌, ◌≡◌, refl, inl, inr, String, false, Option, some, List, [], ◌∷◌, ◌++◌, ◌==◌,
  All, All-map, nat_eq, string_eq, option_eq, count, contains, count-contains, keep, any_of, length,
  arith, Option-cases, Bool-cases, beq_iff,
}
use harmonist.Formats.{ScanFields, or_1}
use harmonist.Pregaps.{IncludedPregap, on_disc, refused, match_first, credit, credit_all, effective}

-- The disc of the one file that a list holds.
abbrev pub disc_of_one : List ScanFields → List ℕ
disc_of_one (first ∷ []) = or_1 first.disc_num ∷ []
disc_of_one _ = []

module _ (fields : List ScanFields) (release : Option String) where
  -- The files that carry the decision's track.
  abbrev pub rips : IncludedPregap → List ScanFields
  rips d = keep (λ f. f.release_track_id == some d.track) fields

  -- The discs of the files that the decisions name.
  abbrev pub discs : List IncludedPregap → List ℕ
  discs [] = []
  discs (d ∷ ds) = disc_of_one (rips d) ++ discs ds

  -- What a decision that is credited to a disc says.
  pub record Stands (d : IncludedPregap) (disc : ℕ) : Type 0 where
    pub scope : some d.release ≡ release
    pub absent : any_of (λ f. f.release_track_id == some d.pregap) fields ≡ false
    pub first : ScanFields
    pub rip : rips d ≡ first ∷ []
    pub disc_is : disc ≡ or_1 first.disc_num
    pub readable : first.unreadable ≡ false
    pub album : first.album_id ≡ release
    pub duration : first.duration_ms ≡ some d.duration_ms
    pub room : length (keep (on_disc disc) fields) < d.track_total

  match_first-Stands :
      (d : IncludedPregap) (files : List ScanFields) (credited : List ℕ) (disc : ℕ)
      → match_first fields release d files credited ≡ some disc
      → (first : ScanFields) × (files ≡ first ∷ [])
        × (disc ≡ or_1 first.disc_num)
        × (refused fields release d first credited ≡ false)
  unfolding match_first
  match_first-Stands d [] credited disc h = absurd (cc)
  match_first-Stands d (f ∷ []) credited disc h =
      elim (Bool-cases (refused fields release d f credited)) [
        | inl no_ ↦ absurd (ground arith)
        | inr yes_ ↦ (f, refl, ground arith, yes_)
      ]
  match_first-Stands d (f ∷ g ∷ fs) credited disc h = absurd (cc)

  not-refused :
      (d : IncludedPregap) (first : ScanFields) (credited : List ℕ)
      → refused fields release d first credited ≡ false
      → (first.unreadable ≡ false)
        × (first.album_id ≡ release)
        × (first.duration_ms ≡ some d.duration_ms)
        × (length (keep (on_disc (or_1 first.disc_num)) fields) < d.track_total)
        × (contains credited (or_1 first.disc_num) ≡ false)
  unfolding refused
  not-refused d first credited h =
      let a = beq_iff first.album_id release in
      let b = beq_iff first.duration_ms (some d.duration_ms) in ground (arith, a, b)

  in_scope :
      (d : IncludedPregap) (credited : List ℕ) (disc : ℕ)
      → credit fields release d credited ≡ some disc
      → (some d.release ≡ release)
        × (any_of (λ f. f.release_track_id == some d.pregap) fields ≡ false)
        × (match_first fields release d (rips d) credited ≡ some disc)
  unfolding credit
  in_scope d credited disc h = ground (arith, beq_iff (some d.release) release)

  credit-Stands :
      (d : IncludedPregap) (credited : List ℕ) (disc : ℕ)
      → credit fields release d credited ≡ some disc
      → Stands d disc × (contains credited disc ≡ false)
  credit-Stands d credited disc h =
      let (scope, absent, e) = in_scope d credited disc h in
      let (first, rip, disc_is, passed) = match_first-Stands d (rips d) credited disc e in
      let (readable, album, duration, room, is_free) = not-refused d first credited passed in
      (
        record {
          scope = scope;
          absent = absent;
          first = first;
          rip = rip;
          disc_is = disc_is;
          readable = readable;
          album = album;
          duration = duration;
          room = rw disc_is room;
        },
        rw disc_is is_free,
      )

  credit_all-Stands :
      (ds : List IncludedPregap) (credited : List ℕ)
      → All (λ d. (disc : ℕ) × Stands d disc) (credit_all fields release ds credited)
  unfolding credit_all
  credit_all-Stands [] credited = tt
  credit_all-Stands (d ∷ ds) credited = elim (Option-cases (credit fields release d credited)) [
    | inl none_ ↦ rw (none_, credit_all) (credit_all-Stands ds credited)
    | inr (disc, e) ↦
        rw (e, credit_all)
          ((disc, (credit-Stands d credited disc e).0), credit_all-Stands ds (disc ∷ credited))
  ]

  -- A disc that is credited already takes no more.
  credit_all_once :
      (x : ℕ) (ds : List IncludedPregap) (credited : List ℕ)
      → count x credited ≤ 1
      → count x (discs (credit_all fields release ds credited)) + count x credited ≤ 1
  unfolding credit_all
  credit_all_once x [] credited h = omega arith
  credit_all_once x (d ∷ ds) credited h = elim (Option-cases (credit fields release d credited)) [
    | inl none_ ↦ rw (none_, credit_all) (credit_all_once x ds credited h)
    | inr (disc, e) ↦
        let (stands, is_free) = credit-Stands d credited disc e in
        let later = credit_all_once x ds (disc ∷ credited) in
        rw (e, credit_all)
          (rw stands.rip
            (ground (arith, later, stands.disc_is, count-contains credited disc is_free)))
  ]

  -- Every decision that `effective` keeps is in the release's scope, stands on one readable file
  -- with the reviewed duration, and leaves its disc within its total: the readable files on the
  -- disc and the credits to it are at most the reviewed track total.
  pub effective-Stands :
      (ds : List IncludedPregap)
      → All
          (λ d.
            (disc : ℕ) × Stands d disc
            × (length (keep (on_disc disc) fields)
                  + count disc (discs (effective fields release ds))
                ≤ d.track_total))
          (effective fields release ds)
  unfolding effective
  effective-Stands ds =
      All-map (credit_all fields release ds [])
        (λ d (disc, stands).
          (disc, stands, omega (arith, stands.room, credit_all_once disc ds [] (omega arith))))
        (credit_all-Stands ds [])
