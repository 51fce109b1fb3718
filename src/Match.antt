-- ===== src/Match.antt =====
-- src/harmonist/match.py: how sure a match between local files and a release is, and the ranking of
-- several releases. The time stamp of a candidate is left out; a note is the case it reports.
mod Places
pub mod Exact
pub mod Ranking
mod Tests
use harmonist.Prelude.{
  ℕ, zero, suc, ◌+◌, ◌-◌, String, Bool, true, false, ◌&&◌, ◌||◌, not, Option, none, some, List, [],
  ◌∷◌, ◌++◌, ◌==◌, nat_eq, option_eq, map, length, get_elem?, range, ltb, leb, any_of, is_none,
  truthy, bit, if◌then◌else◌,
}
use harmonist.Formats.{TrackTags}
use harmonist.Compare.{assign, identity_of}
use harmonist.Releases.{
  Release, FlatTrack, flatten_tracks, track_identity, track_title, track_length,
}

abbrev pub length_tolerance_ms : ℕ
length_tolerance_ms = 4000

pub data MatchConfidence : Type 0 where
  exact approximate no_match : MatchConfidence

pub data Note : Type 0 where
  counts_differ : (file_count track_count : ℕ) → Note
  lengths_differ lengths_unknown : Note

pub record LocalFile : Type 0 where
  pub name : String
  pub stem : String
  pub tags : TrackTags

pub record TrackComparison : Type 0 where
  pub file_name : Option String
  pub file_duration_ms : Option ℕ
  pub file_title : Option String
  pub mb_track_title : Option String
  pub mb_track_length_ms : Option ℕ
  pub delta_ms : Option ℕ

pub record MatchCandidate : Type 0 where
  pub mb_release_id : String
  pub confidence : MatchConfidence
  pub file_count : ℕ
  pub track_count : ℕ
  pub track_comparisons : List TrackComparison
  pub notes : List Note

-- `abs(a - b)`
unfoldable pub distance : ℕ → ℕ → ℕ
distance a b = (a - b) + (b - a)

-- `file_of.get(t)`, for `file_of = {slot: i for i, slot in enumerate(slots) ...}`, from index `i`.
unfoldable pub file_of : ℕ → List (Option ℕ) → ℕ → Option ℕ
file_of t [] i = none
file_of t (slot ∷ slots) i = elim (file_of t slots (suc i)) [
  | some j ↦ some j
  | none ↦ if slot == some t then some i else none
]

-- The files that found no slot.
unfoldable pub without_slot : List (Option ℕ) → ℕ → List ℕ
without_slot [] i = []
without_slot (none ∷ slots) i = i ∷ without_slot slots (suc i)
without_slot (some t ∷ slots) i = without_slot slots (suc i)

-- One row: the file and the track that stand in it, if they do.
abbrev pub Row : Type 0
Row = Option LocalFile × Option FlatTrack

abbrev pub lookup? {ℓ} : {A : Type ℓ} → List A → Option ℕ → Option A
lookup? xs none = none
lookup? xs (some i) = get_elem? xs i

unfoldable pub rows_of : List LocalFile → List FlatTrack → List (Option ℕ) → List Row
unfolding file_of without_slot
rows_of files tracks slots =
    map (λ t. (lookup? files (file_of t slots 0), get_elem? tracks t)) (range (length tracks))
    ++ map (λ f. (get_elem? files f, none)) (without_slot slots 0)

-- `tags.duration_ms or 0`
abbrev pub duration_of : LocalFile → ℕ
duration_of f = elim f.tags.duration_ms [ none ↦ 0 | some ms ↦ ms ]

abbrev pub title_of : LocalFile → String
title_of f = if truthy f.tags.title then elim f.tags.title [ none ↦ "" | some t ↦ t ] else f.stem

unfoldable pub compare_row : Row → TrackComparison
unfolding distance track_length track_title
compare_row (none, none) = record {
  file_name = none;
  file_duration_ms = none;
  file_title = none;
  mb_track_title = none;
  mb_track_length_ms = none;
  delta_ms = none;
}
compare_row (none, some t) = record {
  file_name = none;
  file_duration_ms = none;
  file_title = none;
  mb_track_title = some (track_title t.track);
  mb_track_length_ms = track_length t.track;
  delta_ms = none;
}
compare_row (some f, none) = record {
  file_name = some f.name;
  file_duration_ms = some (duration_of f);
  file_title = some (title_of f);
  mb_track_title = none;
  mb_track_length_ms = none;
  delta_ms = none;
}
compare_row (some f, some t) = record {
  file_name = some f.name;
  file_duration_ms = some (duration_of f);
  file_title = some (title_of f);
  mb_track_title = some (track_title t.track);
  mb_track_length_ms = track_length t.track;
  delta_ms = elim (track_length t.track) [
    | none ↦ none
    | some ms ↦ some (distance (duration_of f) ms)
  ];
}

-- `any_significant_delta` is set by a row with this test.
unfoldable pub is_significant : TrackComparison → Bool
is_significant c = elim c.delta_ms [ none ↦ false | some ms ↦ ltb length_tolerance_ms ms ]

-- `any_unknown_length` is set by a row with this test.
unfoldable pub is_unknown : Row → Bool
unfolding track_length
is_unknown (f, none) = false
is_unknown (f, some t) = is_none (track_length t.track)

unfoldable pub confidence_of : ℕ → ℕ → Bool → Bool → MatchConfidence × List Note
confidence_of file_count track_count significant unknown =
    if not (file_count == track_count)
    then (no_match, counts_differ file_count track_count ∷ [])
    else if significant
    then (approximate, lengths_differ ∷ (if unknown then lengths_unknown ∷ [] else []))
    else if unknown
    then (approximate, lengths_unknown ∷ [])
    else (exact, [])

unfoldable pub slots_for : List LocalFile → List FlatTrack → List (Option ℕ)
slots_for files tracks = assign (map (λ f. identity_of f.tags) files) (map track_identity tracks)

unfoldable pub assess_match : List LocalFile → Release → MatchCandidate
unfolding rows_of compare_row is_significant is_unknown confidence_of slots_for
assess_match files release =
    let tracks = flatten_tracks release in
    let rows = rows_of files tracks (slots_for files tracks) in
    let comparisons = map compare_row rows in
    let (confidence, notes) =
      confidence_of (length files) (length tracks) (any_of is_significant comparisons)
        (any_of is_unknown rows) in
    record {
      mb_release_id = release.id;
      confidence = confidence;
      file_count = length files;
      track_count = length tracks;
      track_comparisons = comparisons;
      notes = notes;
    }
