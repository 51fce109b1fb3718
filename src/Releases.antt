-- ===== src/Releases.antt =====
-- What the code reads off a MusicBrainz release: src/harmonist/mb_tracks.py, `tagger._flatten_tracks`
-- with its helpers, `mb_lookup.video_media_of` and `match.mb_track_lengths`. The payload is a
-- record of the entries that are read; an entry that should hold a number is `blank` where it is
-- missing or empty, and `junk` where `int` raises.
use harmonist.Prelude.{
  ℕ, suc, String, Bool, Option, none, some, List, [], ◌∷◌, ◌++◌, map, every, slots_of, leb, sort_by,
  truthy, is_none, if◌then◌else◌,
}
use harmonist.Compare.{TrackIdentity}

pub data Entry : Type 0 where
  blank junk : Entry
  number : ℕ → Entry

pub record Track : Type 0 where
  pub id : Option String
  pub title : Option String
  pub position : Option ℕ
  pub length : Entry
  pub recording_title : Option String
  pub recording_length : Entry
  pub recording_video : Bool

pub record Medium : Type 0 where
  pub position : Option Entry
  pub pregap : Option Track
  pub track_list : List Track

pub record Release : Type 0 where
  pub id : String
  pub media : List Medium

-- The pregap precedes the ordinary tracks.
unfoldable pub tracks_of : Medium → List Track
tracks_of m = elim m.pregap [ none ↦ m.track_list | some gap ↦ gap ∷ m.track_list ]

-- 1 where MusicBrainz says nothing, or nothing that is a number.
unfoldable pub disc_num : Medium → ℕ
disc_num m = elim m.position [ some (number n) ↦ n | _ ↦ 1 ]

pub record FlatTrack : Type 0 where
  pub medium : Medium
  pub track_pos : ℕ
  pub track : Track

unfoldable pub flatten_medium : Medium → ℕ → List Track → List FlatTrack
flatten_medium m start [] = []
flatten_medium m start (t ∷ ts) =
    record {
      medium = m;
      track_pos = elim t.position [ none ↦ start | some position ↦ position ];
      track = t;
    }
    ∷ flatten_medium m (suc start) ts

unfoldable pub flatten_media : List Medium → List FlatTrack
unfolding flatten_medium tracks_of
flatten_media [] = []
flatten_media (m ∷ ms) =
    flatten_medium m (if is_none m.pregap then 1 else 0) (tracks_of m) ++ flatten_media ms

unfoldable pub flatten_tracks : Release → List FlatTrack
unfolding flatten_media
flatten_tracks release = flatten_media release.media

unfoldable pub track_identity : FlatTrack → TrackIdentity
unfolding disc_num
track_identity flat = record {
  release_track_id = flat.track.id;
  disc = some (disc_num flat.medium);
  track = some flat.track_pos;
}

-- The release's title of the track, or else the recording's.
unfoldable pub track_title : Track → String
track_title t =
    if truthy t.title
    then elim t.title [ none ↦ "" | some title ↦ title ]
    else elim t.recording_title [ none ↦ "" | some title ↦ title ]

unfoldable pub as_int : Entry → Option ℕ
as_int (number n) = some n
as_int _ = none

-- The track's own length, or else the recording's.
unfoldable pub track_length : Track → Option ℕ
unfolding as_int
track_length t = elim t.length [ blank ↦ as_int t.recording_length | other ↦ as_int other ]

unfoldable pub mb_track_lengths : Release → List (Option ℕ)
unfolding flatten_tracks track_length
mb_track_lengths release = map (λ f. track_length f.track) (flatten_tracks release)

-- `int(medium.get("position", 0))`, with the media left out whose position is no number.
unfoldable pub video_position : Medium → Option ℕ
unfolding tracks_of
video_position m = elim (tracks_of m) [
  | [] ↦ none
  | t ∷ ts ↦
      if every (λ u. u.recording_video) (t ∷ ts)
      then elim m.position [ none ↦ some 0 | some (number n) ↦ some n | some _ ↦ none ]
      else none
]

unfoldable pub video_media_of : Release → List ℕ
unfolding video_position
video_media_of release = sort_by leb (slots_of (map video_position release.media))
