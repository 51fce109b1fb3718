-- ===== src/Scanner/Expected/Media.antt =====
-- What `expected_tracks` says of the release's media.
use harmonist.Prelude.{
  ℕ, ◌+◌, ◌≤◌, ◌<◌, ◌≡◌, refl, ◌⊎◌, inl, inr, Bool, true, false, ◌||◌, not, Option, none, some,
  List, [], ◌∷◌, ◌++◌, ◌==◌, arith, nat_eq, string_eq, option_eq, contains, distinct, any_of, every,
  length, map, slots_of, range_from, leb, is_none, sym, ◌∙◌, Bool-cases, Option-cases,
  contains-keep, contains-range_from, every-contains, keep-contains, not-every,
}
use harmonist.Formats.{ScanFields, or_1}
use harmonist.Pregaps.{IncludedPregap}
use harmonist.Scanner.Expected.{
  ExpectedTracks, accounted, readable, add_total, by_disc, agreed, disc_totals_of, media_count,
  absent_of, only_video, is_empty, from_totals, expected_present, expected_tracks,
}

-- `m` is one of the media that are known to hold video alone.
abbrev pub known_video : Option (List ℕ) → ℕ → Bool
known_video none m = false
known_video (some media) m = contains media m

-- The files that count, and how many media they say the release has.
abbrev pub present_files : List ScanFields → List ScanFields → List ScanFields
present_files fields video_fields = readable (accounted fields ++ video_fields)

abbrev pub has_disc : List ScanFields → ℕ → Bool
has_disc files m = any_of (λ f. or_1 f.disc_num == m) files

abbrev pub media_of : List ScanFields → ℕ
media_of files =
    media_count (distinct (slots_of (map (λ f. f.disc_total) files)))
      (length (disc_totals_of files))

contains-add_total :
    (m disc : ℕ) (total : Option ℕ) (d : List (ℕ × List (Option ℕ)))
    → contains (map (λ p. p.0) (add_total disc total d)) m
      ≡ ((disc == m) || contains (map (λ p. p.0) d) m)
unfolding add_total
contains-add_total m disc total [] = ground arith
contains-add_total m disc total ((k, seen) ∷ d) = ground (arith, contains-add_total m disc total d)

contains-by_disc :
    (m : ℕ) (fs : List ScanFields) (d : List (ℕ × List (Option ℕ)))
    → contains (map (λ p. p.0) (by_disc fs d)) m ≡ (has_disc fs m || contains (map (λ p. p.0) d) m)
unfolding by_disc
contains-by_disc m [] d = refl
contains-by_disc m (f ∷ fs) d = ground (
  arith,
  contains-by_disc m fs (add_total (or_1 f.disc_num) f.track_total d),
  contains-add_total m (or_1 f.disc_num) f.track_total d,
)

keys-agreed :
    (m : ℕ) (d : List (ℕ × List (Option ℕ)))
    → contains
        (map (λ (p : ℕ × Option ℕ). p.0) (map (λ (q : ℕ × List (Option ℕ)). (q.0, agreed q.1)) d))
        m
      ≡ contains (map (λ p. p.0) d) m
keys-agreed m [] = refl
keys-agreed m (q ∷ d) = ground (arith, keys-agreed m d)

-- A disc is in the table exactly when a file is on it.
contains-disc_totals_of :
    (m : ℕ) (fs : List ScanFields) → contains (map (λ p. p.0) (disc_totals_of fs)) m ≡ has_disc fs m
unfolding disc_totals_of
contains-disc_totals_of m fs =
    ground (arith, keys-agreed m (by_disc fs []), contains-by_disc m fs [])

module _ (totals : List (ℕ × Option ℕ)) (disc_totals : List ℕ) (present : ℕ)
    (video_media : Option (List ℕ)) (included : ℕ) where
  total_known :
      (n : ℕ)
      → (from_totals totals disc_totals present video_media included).total ≡ some n
      → ((is_empty (absent_of totals disc_totals) ≡ true)
          ⊎ (only_video video_media (absent_of totals disc_totals) ≡ true))
        × ((from_totals totals disc_totals present video_media included).complete
            ≡ leb n (present + included))
        × (any_of (λ p. is_none p.1) totals ≡ false)
  unfolding from_totals
  total_known n h = ground arith

  none_incomplete :
      (from_totals totals disc_totals present video_media included).complete ≡ false
      → (from_totals totals disc_totals present video_media included).total ≡ none
      → (only_video video_media (absent_of totals disc_totals) ≡ false)
        × (is_empty (absent_of totals disc_totals) ≡ false)
  unfolding from_totals
  none_incomplete h e = ground arith

abbrev untold : List (ℕ × Option ℕ) → ℕ → Bool
untold totals m = not (contains (map (λ p. p.0) totals) m)

not_video :
    (video_media : Option (List ℕ)) (absent : List ℕ)
    → only_video video_media absent ≡ false
    → is_empty absent ≡ false
    → every (known_video video_media) absent ≡ false
unfolding only_video is_empty
not_video none [] v e = absurd (cc)
not_video none (m ∷ ms) v e = refl
not_video (some media) absent v e = v

-- Where an absent medium counts, it is one without a file that is not known to be video.
some_absent :
    (totals : List (ℕ × Option ℕ)) (disc_totals : List ℕ) (video_media : Option (List ℕ))
    → only_video video_media (absent_of totals disc_totals) ≡ false
    → is_empty (absent_of totals disc_totals) ≡ false
    → (m : ℕ) × (1 ≤ m)
      × (m ≤ media_count disc_totals (length totals))
      × (contains (map (λ p. p.0) totals) m ≡ false)
      × (known_video video_media m ≡ false)
unfolding absent_of
some_absent totals disc_totals video_media v e =
    let n = media_count disc_totals (length totals) in
    let absent = absent_of totals disc_totals in
    let (m, held, unknown) =
      not-every (known_video video_media) absent (not_video video_media absent v e) in
    let (inside, gone) = keep-contains (untold totals) (range_from 1 n) m held in
    (
      m,
      ground (arith, contains-range_from m 1 n),
      ground (arith, contains-range_from m 1 n),
      ground arith,
      unknown,
    )

held_by :
    (video_media : Option (List ℕ)) (absent : List ℕ) (m : ℕ)
    → contains absent m ≡ true
    → (is_empty absent ≡ true) ⊎ (only_video video_media absent ≡ true)
    → known_video video_media m ≡ true
unfolding only_video is_empty
held_by video_media [] m c h = absurd (cc)
held_by none (x ∷ xs) m c h = ground arith
held_by (some media) (x ∷ xs) m c (inl e) = absurd (cc)
held_by (some media) (x ∷ xs) m c (inr all) =
    every-contains (λ y. contains media y) (x ∷ xs) m all c

-- Where no absent medium counts, each medium has a file or is known to be video.
none_absent :
    (totals : List (ℕ × Option ℕ)) (disc_totals : List ℕ) (video_media : Option (List ℕ)) (m : ℕ)
    → (is_empty (absent_of totals disc_totals) ≡ true)
      ⊎ (only_video video_media (absent_of totals disc_totals) ≡ true)
    → 1 ≤ m
    → m ≤ media_count disc_totals (length totals)
    → (contains (map (λ p. p.0) totals) m ≡ true) ⊎ (known_video video_media m ≡ true)
unfolding absent_of
none_absent totals disc_totals video_media m h low high =
    let n = media_count disc_totals (length totals) in
    elim (Bool-cases (contains (map (λ (p : ℕ × Option ℕ). p.0) totals) m)) [
      | inl told ↦ inl told
      | inr gone ↦ inr (
          held_by video_media (absent_of totals disc_totals) m
            (contains-keep (untold totals) (range_from 1 n) m
              (ground (arith, contains-range_from m 1 n)) (ground arith))
            h)
    ]

module _ (video_media : Option (List ℕ)) (included : List IncludedPregap) where
  abbrev HasEvery : List ScanFields → Type 0
  HasEvery files =
      (m : ℕ)
      → 1 ≤ m
      → m ≤ media_of files
      → (has_disc files m ≡ true) ⊎ (known_video video_media m ≡ true)

  abbrev LacksOne : List ScanFields → Type 0
  LacksOne files =
      (m : ℕ) × (1 ≤ m)
      × (m ≤ media_of files)
      × (has_disc files m ≡ false)
      × (known_video video_media m ≡ false)

  present_total :
      (files : List ScanFields) (n : ℕ)
      → (expected_present files video_media included).total ≡ some n
      → HasEvery files
        × ((expected_present files video_media included).complete
            ≡ leb n (length files + length included))
  unfolding expected_present
  present_total [] n h = absurd (cc)
  present_total (f ∷ fs) n h =
      let files = f ∷ fs in
      let totals = disc_totals_of files in
      let counts = distinct (slots_of (map (λ (g : ScanFields). g.disc_total) files)) in
      let (held, verdict, _) =
        total_known totals counts (length files) video_media (length included) n h in
      (
        λ m low high.
            rw (← contains-disc_totals_of m files)
              (none_absent totals counts video_media m held low high),
        verdict,
      )

  present_incomplete :
      (files : List ScanFields)
      → (expected_present files video_media included).complete ≡ false
      → (expected_present files video_media included).total ≡ none
      → LacksOne files
  unfolding expected_present
  present_incomplete [] h e = absurd (cc)
  present_incomplete (f ∷ fs) h e =
      let files = f ∷ fs in
      let totals = disc_totals_of files in
      let counts = distinct (slots_of (map (λ (g : ScanFields). g.disc_total) files)) in
      let (v, some_) =
        none_incomplete totals counts (length files) video_media (length included) h e in
      let (m, low, high, gone, unknown) = some_absent totals counts video_media v some_ in
      (m, low, high, rw (← contains-disc_totals_of m files) gone, unknown)

module _ (fields video_fields : List ScanFields) (video_media : Option (List ℕ))
    (included : List IncludedPregap) where
  abbrev verdict : ExpectedTracks
  verdict = expected_tracks fields video_fields video_media included

  abbrev files : List ScanFields
  files = present_files fields video_fields

  -- A total is told only where every medium that the files count has a readable file on it or is
  -- known to be video alone, and the verdict then compares the readable files and the credited
  -- pregaps with it.
  pub total_has_every_medium :
      (n : ℕ)
      → verdict.total ≡ some n
      → ((m : ℕ)
          → 1 ≤ m
          → m ≤ media_of files
          → (has_disc files m ≡ true) ⊎ (known_video video_media m ≡ true))
        × (verdict.complete ≡ leb n (length files + length included))
  unfolding expected_tracks
  total_has_every_medium n h = present_total video_media included files n h

  -- An album is called incomplete for a reason: a medium with no readable file that is not known
  -- to be video, or a known total that the readable files and the credited pregaps do not reach.
  incomplete_has_reason :
      verdict.complete ≡ false
      → ((m : ℕ) × (1 ≤ m)
          × (m ≤ media_of files)
          × (has_disc files m ≡ false)
          × (known_video video_media m ≡ false))
        ⊎ ((n : ℕ) × (verdict.total ≡ some n) × (length files + length included < n))
  unfolding expected_tracks
  incomplete_has_reason h = elim (Option-cases verdict.total) [
    | inl untold_ ↦ inl (present_incomplete video_media included files h untold_)
    | inr (n, told) ↦
        let (_, compared) = present_total video_media included files n told in
        inr (n, told, reached n (sym compared ∙ h))
  ]
    where
      reached :
          (n : ℕ)
          → leb n (length files + length included) ≡ false
          → length files + length included < n
      reached n e = ground arith
