-- ===== src/Scanner.antt =====
-- src/harmonist/scanner.py: an album's state from its sidecar and its files' tags, and the checks
-- that go before it. The log call has no effect on the result and is left out.
pub mod Expected
pub mod State
pub mod Groups
mod Tests
use harmonist.Prelude.{
  ℕ, zero, suc, String, Bool, true, false, ◌&&◌, ◌||◌, not, Option, none, some, List, [], ◌∷◌, ◌==◌,
  nat_eq, string_eq, option_eq, truthy, is_none, distinct, every, slots_of, map, keep, length, ltb,
  if◌then◌else◌,
}
use harmonist.Formats.{ScanFields}
use harmonist.Models.{
  AlbumState, new, needs_mbid, tagging, needs_sync, complete, incomplete, inconsistent,
  BandcampInfo, Sidecar, is_bandcamp_url,
}
use harmonist.Pregaps.{effective}
use harmonist.Scanner.Expected.{expected_tracks}

unfoldable pub count_files_tagged_with : List ScanFields → String → ℕ
count_files_tagged_with fields mbid = length (keep (λ f. f.album_id == some mbid) fields)

unfoldable pub files_tagged_with : List ScanFields → String → Bool
unfolding count_files_tagged_with
files_tagged_with fields mbid = ltb 0 (count_files_tagged_with fields mbid)

-- `(tagged, total)` when only some files carry the release.
unfoldable pub partial_tag_count : Option Sidecar → List ScanFields → Option (ℕ × ℕ)
unfolding count_files_tagged_with
partial_tag_count none fields = none
partial_tag_count (some sc) [] = none
partial_tag_count (some sc) (f ∷ fs) = elim sc.mb_release_id [
  | none ↦ none
  | some mbid ↦
      let tagged = count_files_tagged_with (f ∷ fs) mbid in
      let total = length (f ∷ fs) in
      if truthy (some mbid) && ltb 0 tagged && ltb tagged total then some (tagged, total) else none
]

-- Whether two files at least disagree on the release, or on the title where no release id that
-- every file carries settles it.
unfoldable pub more_than_one : List String → Bool
more_than_one (a ∷ b ∷ rest) = true
more_than_one _ = false

unfoldable pub exactly_one : List String → Bool
exactly_one (a ∷ []) = true
exactly_one _ = false

-- `bool(_check_consistency(audio_files, fields))`: it returns a row for each file, or none.
unfoldable pub is_inconsistent : List ScanFields → Bool
unfolding more_than_one exactly_one
is_inconsistent fields =
    let mbids = distinct (slots_of (map (λ f. f.album_id) fields)) in
    let titles = distinct (slots_of (map (λ f. f.album_title) fields)) in
    if ltb (length fields) 2
    then false
    else if more_than_one mbids
    then true
    else if exactly_one mbids && every (λ f. not (is_none f.album_id)) fields
    then false
    else more_than_one titles

module _ (hostname : String → List ℕ) where
  -- A Bandcamp album whose purchase a sync could still link.
  unfoldable pub unlinked : Sidecar → Bool
  unfolding is_bandcamp_url
  unlinked sc =
      is_bandcamp_url hostname sc.store_url
      && elim sc.bandcamp [ none ↦ true | some bc ↦ is_none bc.item_id ]
      && elim sc.bandcamp [
        | none ↦ true
        | some bc ↦ elim bc.candidate_item_ids [ [] ↦ true | _ ∷ _ ↦ false ]
      ]
      && not sc.purchase_unavailable

  unfoldable pub tagged_state : Sidecar → String → List ScanFields → List ScanFields → AlbumState
  unfolding unlinked
  tagged_state sc mbid fields video_fields =
      let included = effective fields (some mbid) sc.included_pregaps in
      if not (expected_tracks fields video_fields sc.video_media included).complete
      then incomplete
      else if unlinked sc
      then needs_sync
      else complete

  unfoldable pub derive_state : Option Sidecar → List ScanFields → List ScanFields → AlbumState
  unfolding tagged_state files_tagged_with
  derive_state none fields video_fields = new
  derive_state (some sc) fields video_fields = elim sc.mb_release_id [
    | none ↦ needs_mbid
    | some mbid ↦
        if ltb 0 (length (keep (λ f. f.unreadable) fields))
        then incomplete
        else if files_tagged_with fields mbid
        then tagged_state sc mbid fields video_fields
        else tagging
  ]

  -- The state that `build_album` gives an album.
  unfoldable pub album_state : Option Sidecar → List ScanFields → List ScanFields → AlbumState
  album_state sidecar fields video_fields =
      if is_inconsistent fields then inconsistent else derive_state sidecar fields video_fields
