-- ===== src/Scanner/Tests.antt =====
-- Albums on disk, the states they come to, and the theorems of Scanner at them.
use harmonist.Prelude.{
  ℕ, ◌+◌, ◌≤◌, ◌≡◌, ◌↔◌, ◌⊎◌, refl, true, false, Bool, String, Option, none, some, List, [], ◌∷◌,
  length, sort_by, arith,
}
use harmonist.Formats.{ScanFields, or_1}
use harmonist.Models.{Sidecar, complete, incomplete, needs_sync, codes}
use harmonist.Pregaps.{effective}
use harmonist.Scanner.{album_state, is_inconsistent, unlinked, derive_state}
use harmonist.Scanner.Expected.{expected_tracks, absent_of}
use harmonist.Scanner.Expected.Media.{present_files, has_disc, media_of, known_video}
use harmonist.Scanner.State.{IsWhole, complete_iff}
use harmonist.Scanner.Groups.{
  ScannedDir, disjoint_groups, holds_different_tracks, release_track_ids, disc_numbers, disjoint,
}
use harmonist.Scanner.Groups.Apart.{Different, disjoint_groups-Different}

abbrev track : String → ℕ → Option ℕ → Option ℕ → ScanFields
track ref disc total discs = record {
  album_title = some "Album";
  album_id = some "album";
  unreadable = false;
  disc_num = some disc;
  track_total = total;
  disc_total = discs;
  release_track_id = some ref;
  duration_ms = none;
}

abbrev first_disc : List ScanFields
first_disc = track "a1" 1 (some 2) (some 2) ∷ track "a2" 1 (some 2) (some 2) ∷ []

abbrev both_discs : List ScanFields
both_discs =
    track "a1" 1 (some 2) (some 2)
    ∷ track "a2" 1 (some 2) (some 2)
    ∷ track "b1" 2 (some 1) (some 2)
    ∷ []

abbrev sidecar : Option (List ℕ) → Sidecar
sidecar video = record {
  store_url = some "x.bandcamp.com";
  bandcamp = none;
  mb_release_id = some "album";
  temp_uid = none;
  purchase_unavailable = true;
  included_pregaps = [];
  video_media = video;
}

program : Unit {0}
unfolding album_state derive_state is_inconsistent expected_tracks absent_of effective or_1
program = tt

states :
    (album_state codes (some (sidecar none)) both_discs [] ≡ complete)
    × (album_state codes (some (sidecar none)) first_disc [] ≡ incomplete)
    × (album_state codes (some (sidecar (some (2 ∷ [])))) first_disc [] ≡ complete)
    × (album_state codes
          (some (record (sidecar none) { purchase_unavailable = false }))
          both_discs
          []
        ≡ needs_sync)
    × (album_state codes
          (some (sidecar none))
          (record (track "a" 1 none none) { unreadable = true } ∷ first_disc)
          []
        ≡ incomplete)
unfolding program
states = (refl, refl, refl, refl, refl)

total_told : (expected_tracks both_discs [] none []).total ≡ some 3
unfolding program
total_told = refl

told_incomplete : (expected_tracks first_disc [] none []).complete ≡ false
unfolding program
told_incomplete = refl

complete_iff_example : (album_state codes (some (sidecar none)) both_discs [] ≡ complete) ↔ (
    (is_inconsistent both_discs ≡ false)
    × ((mbid : String) × IsWhole codes (sidecar none) mbid both_discs [])
    × (unlinked codes (sidecar none) ≡ false))
complete_iff_example = complete_iff codes (sidecar none) both_discs []

abbrev Finished : Sidecar → List ScanFields → Type 0
Finished sc fields =
    (mbid : String) × IsWhole codes sc mbid fields []
    × ((n : ℕ)
        → (expected_tracks fields [] sc.video_media
            (effective fields (some mbid) sc.included_pregaps)).total
          ≡ some n
        → ((m : ℕ)
            → 1 ≤ m
            → m ≤ media_of (present_files fields [])
            → (has_disc (present_files fields []) m ≡ true) ⊎ (known_video sc.video_media m ≡ true))
          × (n
              ≤ length (present_files fields [])
                + length (effective fields (some mbid) sc.included_pregaps)))

abbrev broken : List ScanFields
broken = record (track "a1" 1 none none) { unreadable = true } ∷ track "a2" 1 (some 2) (some 1) ∷ []

abbrev dir : String → List ScanFields → ScannedDir
dir name fields = record { path = name ∷ []; fields = fields }

-- Two discs of a release, and a copy of the first.
abbrev disc_a : ScannedDir
disc_a = dir "a" first_disc

abbrev disc_b : ScannedDir
disc_b = dir "b" (track "b1" 2 (some 1) (some 2) ∷ [])

abbrev copy_a : ScannedDir
copy_a = dir "c" first_disc

abbrev in_order : List String → List String → Bool
in_order a b = true

abbrev dirs : List ScannedDir
dirs = disc_a ∷ disc_b ∷ copy_a ∷ []

groups_of_dirs : disjoint_groups in_order dirs ≡ (disc_a ∷ disc_b ∷ []) ∷ (copy_a ∷ []) ∷ []
unfolding sort_by disjoint_groups holds_different_tracks release_track_ids disc_numbers disjoint
groups_of_dirs = refl

disjoint_groups-Different_example : Different disc_b disc_a
disjoint_groups-Different_example =
    disjoint_groups-Different in_order dirs 0 0 1 (disc_a ∷ disc_b ∷ []) disc_a disc_b
      (rw groups_of_dirs) (omega arith) refl refl
