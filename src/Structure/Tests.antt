-- ===== src/Structure/Tests.antt =====
-- Three files and three tracks, and the theorems of Structure at them.
use harmonist.Prelude.{
  ℕ, String, ◌≡◌, ◌≤◌, refl, true, false, Option, none, some, List, [], ◌∷◌, count, slots_of,
  get_elem?, nat_eq,
}
use harmonist.Formats.{TrackTags, TagSet, OwnedTags}
use harmonist.Structure.{
  pairs, occurring, recorded, identified, start, each, by_id, by_recording, by_occurrence,
  by_number, settled_by, release_track_id, take_only, give, recording_of, recording_slots,
  may_record, has_recording, occurrences, occurrence_of, propose_in, numbered_in, numbers,
  is_remaining, is_invalid, disc_of, single_disc, on_disc_1, settles_number, settles_occurrence,
  same_number, same_occurrence, at_number, at_occurrence, left_over, lone,
}
use harmonist.Structure.Once.{pairs_once}

abbrev owned : Option String → Option String → OwnedTags
owned ref recording = record {
  mb_release_track_id = ref;
  mb_album_id = some "album";
  mb_track_id = recording;
  track_num = none;
  disc_num = none;
  track_total = none;
  disc_total = none;
}

abbrev file : Option String → Option String → Option ℕ → TrackTags
file ref recording n = record {
  unreadable = false;
  video = false;
  title = none;
  release_track_id = ref;
  disc_num = none;
  track_num = n;
  duration_ms = none;
  owned = owned ref recording;
}

abbrev target : String → String → ℕ → TagSet
target ref recording n = record {
  title = "Song";
  mb_release_track_id = some ref;
  mb_track_id = some recording;
  mb_album_id = "album";
  disc_num = 1;
  track_num = n;
  track_total = 3;
  disc_total = 1;
}

-- The first file carries an id, the second a recording, the third only a number.
abbrev files : List TrackTags
files = file (some "t3") none (some 1) ∷ file none (some "r1") none ∷ file none none (some 2) ∷ []

abbrev targets : List TagSet
targets = target "t1" "r1" 1 ∷ target "t2" "r2" 2 ∷ target "t3" "r3" 3 ∷ []

abbrev eligible : List ℕ
eligible = 0 ∷ 1 ∷ 2 ∷ []

files-paired : pairs files targets eligible false ≡ some 2 ∷ some 0 ∷ none ∷ []
unfolding pairs occurring recorded identified start each by_id by_recording by_occurrence settled_by
    release_track_id take_only give recording_of recording_slots may_record has_recording
    occurrences occurrence_of settles_occurrence same_occurrence at_occurrence disc_of single_disc
    on_disc_1
files-paired = refl

files-proposed : pairs files targets eligible true ≡ some 2 ∷ some 0 ∷ some 1 ∷ []
unfolding pairs occurring recorded identified start each by_id by_recording by_occurrence by_number
    settled_by release_track_id take_only give recording_of recording_slots may_record has_recording
    occurrences occurrence_of propose_in numbered_in numbers is_remaining is_invalid disc_of
    single_disc on_disc_1 settles_number settles_occurrence same_number same_occurrence at_number
    at_occurrence left_over lone
files-proposed = refl

second-paired : get_elem? (pairs files targets eligible false) 1 ≡ some (some 0)
unfolding pairs occurring recorded identified start each by_id by_recording by_occurrence settled_by
    release_track_id take_only give recording_of recording_slots may_record has_recording
    occurrences occurrence_of settles_occurrence same_occurrence at_occurrence disc_of single_disc
    on_disc_1
second-paired = refl

pairs_once_example : count 1 (slots_of (pairs files targets eligible true)) ≤ count 1 eligible
pairs_once_example = pairs_once files targets eligible true 1
