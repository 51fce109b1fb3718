-- ===== src/Compare/Tests.antt =====
-- Small albums, what the ladder does on them, and the theorems of Compare at these inputs.
use mathlib.Core.List.{Perm}
use harmonist.Prelude.{
  ℕ, ◌≤◌, ◌≡◌, refl, false, Option, none, some, List, [], ◌∷◌, ◌++◌, nat_eq, count, slots_of,
  get_elem?, bit, ltb, String,
}
use harmonist.Formats.{TrackTags, TagSet, OwnedTags}
use harmonist.Compare.{TrackIdentity, assign, key_beq, identity_of, of_tagset}
use harmonist.Compare.Slots.{assign_once}
use harmonist.Compare.Rungs.{assign-by_id}
use harmonist.Compare.Page.{page_slots, page_assign, dict_values}
use harmonist.Compare.Page.Files.{page_assign-perm}

abbrev identity : Option String → Option ℕ → Option ℕ → TrackIdentity
identity ref disc track = record { release_track_id = ref; disc = disc; track = track }

-- A CD tagged as disc 1, before MusicBrainz moved it to position 2.
abbrev moved_files : List TrackIdentity
moved_files =
    identity (some "c2") (some 1) (some 2)
    ∷ identity (some "c1") (some 1) (some 1)
    ∷ identity none none (some 7)
    ∷ []

abbrev moved_tracks : List TrackIdentity
moved_tracks =
    identity (some "v1") (some 1) (some 1)
    ∷ identity (some "v2") (some 1) (some 2)
    ∷ identity (some "c1") (some 2) (some 1)
    ∷ identity (some "c2") (some 2) (some 2)
    ∷ []

assign_moved : assign moved_files moved_tracks ≡ some 3 ∷ some 2 ∷ some 0 ∷ []
unfolding assign key_beq
assign_moved = refl

-- A number that two files carry settles nothing, and file order takes what is left.
assign_numbers :
    assign
      (identity none none (some 2)
        ∷ identity none (some 1) (some 3)
        ∷ identity none none (some 2)
        ∷ [])
      (identity none (some 1) (some 1)
        ∷ identity none (some 1) (some 2)
        ∷ identity none (some 1) (some 3)
        ∷ [])
    ≡ some 0 ∷ some 2 ∷ some 1 ∷ []
unfolding assign key_beq
assign_numbers = refl

abbrev silent_files : List TrackIdentity
silent_files = identity none (some 1) none ∷ identity none none none ∷ identity none none none ∷ []

assign_once_example : count 3 (slots_of (assign moved_files moved_tracks)) ≤ bit (ltb 3 4)
assign_once_example = assign_once moved_files moved_tracks 3

assign-by_id_example : get_elem? (assign moved_files moved_tracks) 0 ≡ some (some 3)
unfolding assign key_beq
assign-by_id_example =
    assign-by_id moved_files moved_tracks 0 3 (identity (some "c2") (some 1) (some 2))
      (identity (some "c2") (some 2) (some 2)) "c2" refl refl refl refl refl refl

abbrev owned : Option String → Option String → OwnedTags
owned album ref = record {
  mb_release_track_id = ref;
  mb_album_id = album;
  mb_track_id = none;
  track_num = none;
  disc_num = none;
  track_total = none;
  disc_total = none;
}

abbrev file : Option String → Option String → TrackTags
file album ref = record {
  unreadable = false;
  video = false;
  title = none;
  release_track_id = ref;
  disc_num = none;
  track_num = none;
  duration_ms = none;
  owned = owned album ref;
}

abbrev target : String → ℕ → TagSet
target ref number = record {
  title = "Song";
  mb_release_track_id = some ref;
  mb_track_id = none;
  mb_album_id = "album";
  disc_num = 1;
  track_num = number;
  track_total = 2;
  disc_total = 1;
}

-- The second file was confirmed without a track, and the ladder alone would pair it.
abbrev album_files : List (String × TrackTags)
album_files = ("1.flac", file (some "album") (some "b")) ∷ ("2.flac", file (some "album") none) ∷ []

abbrev album_targets : List TagSet
album_targets = target "a" 1 ∷ target "b" 2 ∷ []

page_slots_confirmed :
    (page_slots album_files album_targets (some "album") ≡ some 1 ∷ none ∷ [])
    × (page_slots album_files album_targets none ≡ some 1 ∷ some 0 ∷ [])
unfolding page_slots assign key_beq identity_of of_tagset
page_slots_confirmed = (refl, refl)

page_assign-perm_example :
    Perm
      (dict_values (page_assign album_files album_targets (some "album")).0
        ++ (page_assign album_files album_targets (some "album")).1)
      album_files
page_assign-perm_example =
    page_assign-perm album_files album_targets (some "album") ((λ e. cc), ((λ e. refl), tt))
