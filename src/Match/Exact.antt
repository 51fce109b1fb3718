-- ===== src/Match/Exact.antt =====
-- What the confidence of `assess_match` says of the files and the tracks.
use harmonist.Prelude.{
  ℕ, ◌≤◌, ◌≡◌, sym, Option, some, List, nat_eq, option_eq, map, length, get_elem?, ltb, bit, count,
  slots_of, length-map,
}
use harmonist.Compare.Slots.{assign_once}
use harmonist.Releases.{Release, FlatTrack, flatten_tracks, track_length, track_identity}
use harmonist.Compare.{identity_of}
use harmonist.Match.{LocalFile, Row, distance, duration_of, file_of, rows_of, slots_for, lookup?}

-- The file of a track fits it: the track has a length, and the file's is within the tolerance.
pub record Fits (files : List LocalFile) (slots : List (Option ℕ)) (t : ℕ) (track : FlatTrack)
    : Type 0 where
  pub index : ℕ
  pub file : LocalFile
  pub length_ms : ℕ
  pub has_slot : get_elem? slots index ≡ some (some t)
  pub is_file : get_elem? files index ≡ some file
  pub has_length : track_length track.track ≡ some length_ms
  pub within : distance (duration_of file) length_ms ≤ 4000

module _ (files : List LocalFile) (release : Release) where
  abbrev tracks : List FlatTrack
  tracks = flatten_tracks release

  abbrev slots : List (Option ℕ)
  slots = slots_for files tracks

  abbrev row : ℕ → Row
  row t = (lookup? files (file_of t slots 0), get_elem? tracks t)

  slots_once : (x : ℕ) → count x (slots_of slots) ≤ bit (ltb x (length tracks))
  unfolding slots_for
  slots_once x = rw (sym (length-map track_identity tracks)) (
      assign_once (map (λ (f : LocalFile). identity_of f.tags) files) (map track_identity tracks) x)

  abbrev rows : List Row
  rows = rows_of files tracks slots
