-- ===== src/Pregaps/Tests.antt =====
-- A rip with its pregap in the first file, and the theorems of Pregaps at it.
use harmonist.Prelude.{
  ℕ, ◌+◌, ◌≤◌, ◌≡◌, refl, false, String, none, some, List, [], ◌∷◌, All, keep, length, count,
  nat_eq,
}
use harmonist.Formats.{ScanFields, or_1}
use harmonist.Pregaps.{IncludedPregap, effective, on_disc}
use harmonist.Pregaps.Discs.{Stands, discs, effective-Stands}

abbrev rip : String → ScanFields
rip ref = record {
  album_title = none;
  album_id = some "album";
  unreadable = false;
  disc_num = none;
  track_total = some 3;
  disc_total = none;
  release_track_id = some ref;
  duration_ms = some 5000;
}

abbrev rips : List ScanFields
rips = rip "t1" ∷ rip "t2" ∷ []

abbrev decision : String → IncludedPregap
decision track = record {
  release = "album";
  pregap = "t0";
  track = track;
  duration_ms = 5000;
  track_total = 3;
}

-- One credit to a disc: the second decision for it is not counted, nor a decision that the files'
-- duration does not bear out.
effective-rips :
    (effective rips (some "album") (decision "t1" ∷ decision "t2" ∷ []) ≡ decision "t1" ∷ [])
    × (effective rips (some "album") (record (decision "t1") { duration_ms = 9 } ∷ []) ≡ [])
    × (effective rips (some "other") (decision "t1" ∷ []) ≡ [])
unfolding effective or_1
effective-rips = (refl, refl, refl)

effective-Stands_example :
    All
      (λ d.
        (disc : ℕ) × Stands rips (some "album") d disc
        × (length (keep (on_disc disc) rips)
              + count disc (
                  discs rips
                    (some "album")
                    (effective rips (some "album") (decision "t1" ∷ decision "t2" ∷ [])))
            ≤ d.track_total))
      (effective rips (some "album") (decision "t1" ∷ decision "t2" ∷ []))
effective-Stands_example = effective-Stands rips (some "album") (decision "t1" ∷ decision "t2" ∷ [])
