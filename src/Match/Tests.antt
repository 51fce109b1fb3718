-- ===== src/Match/Tests.antt =====
-- Two files against three small releases, and the theorems of Match at these inputs.
use mathlib.Core.List.{Perm, Mem}
use mathlib.Core.List.Perm
use harmonist.Prelude.{ℕ, ◌≡◌, refl, true, false, none, some, List, [], ◌∷◌, map, length, sort_by}
use harmonist.Formats.{OwnedTags}
use harmonist.Compare.{assign, key_beq, identity_of}
use harmonist.Releases.{
  Track, Medium, Release, Entry, blank, number, flatten_tracks, track_identity, track_length,
  track_title,
}
use harmonist.Match.{exact, approximate, no_match, LocalFile, MatchCandidate, assess_match}
use harmonist.Match.Ranking.{
  Ranking, best, unique, match_releases, no_better, rank_key, ranks_first, level_with,
}
use harmonist.Match.Ranking.Order.{match_releases-best, unique-best}

abbrev owned_tags : OwnedTags
owned_tags = record {
  mb_release_track_id = none;
  mb_album_id = none;
  mb_track_id = none;
  track_num = none;
  disc_num = none;
  track_total = none;
  disc_total = none;
}

abbrev file : ℕ → ℕ → LocalFile
file n ms = record {
  name = "song.flac";
  stem = "song";
  tags = record {
    unreadable = false;
    video = false;
    title = none;
    release_track_id = none;
    disc_num = none;
    track_num = some n;
    duration_ms = some ms;
    owned = owned_tags;
  };
}

abbrev track : ℕ → Entry → Track
track n ms = record {
  id = none;
  title = some "Song";
  position = some n;
  length = ms;
  recording_title = none;
  recording_length = blank;
  recording_video = false;
}

abbrev disc : List Track → Medium
disc ts = record { position = some (number 1); pregap = none; track_list = ts }

-- The files in the wrong order, each with its number.
abbrev files : List LocalFile
files = file 2 200000 ∷ file 1 100500 ∷ []

abbrev good : Release
good = record {
  id = "good";
  media = disc (track 1 (number 100000) ∷ track 2 (number 204000) ∷ []) ∷ [];
}

abbrev long : Release
long = record {
  id = "long";
  media = disc (track 1 (number 100000) ∷ track 2 (number 204001) ∷ []) ∷ [];
}

abbrev short : Release
short = record { id = "short"; media = disc (track 1 blank ∷ []) ∷ [] }

good_exact : (assess_match files good).confidence ≡ exact
unfolding assess_match assign flatten_tracks track_identity track_length track_title key_beq
    identity_of level_with
good_exact = refl

long_approximate : (assess_match files long).confidence ≡ approximate
unfolding assess_match assign flatten_tracks track_identity track_length track_title key_beq
    identity_of level_with
long_approximate = refl

short_no_match : (assess_match files short).confidence ≡ no_match
unfolding assess_match assign flatten_tracks track_identity track_length track_title key_beq
    identity_of level_with
short_no_match = refl

match_releases-best_example :
    (r : Ranking) × (c : MatchCandidate) × (match_releases files (short ∷ long ∷ good ∷ [])
      ≡ some r)
    × (best r ≡ some c)
    × Perm r.candidates (map (assess_match files) (short ∷ long ∷ good ∷ []))
    × ((d : MatchCandidate) → Mem d r.candidates → no_better (rank_key d) (rank_key c) ≡ true)
match_releases-best_example = match_releases-best files short (long ∷ good ∷ [])

abbrev ranking : Ranking
ranking = record { candidates = sort_by ranks_first (map (assess_match files) (long ∷ good ∷ [])) }

ranking-made : match_releases files (long ∷ good ∷ []) ≡ some ranking
unfolding match_releases
ranking-made = refl

ranking-unique : unique ranking ≡ true
unfolding unique sort_by ranks_first assess_match assign flatten_tracks track_identity track_length
    track_title key_beq identity_of level_with
ranking-unique = refl

unique-best_example :
    (r' : Ranking) × (match_releases files (good ∷ long ∷ []) ≡ some r')
    × (unique r' ≡ true)
    × (best r' ≡ best ranking)
unique-best_example =
    unique-best files (long ∷ good ∷ []) (good ∷ long ∷ []) ranking (Perm.swap good long [])
      ranking-made ranking-unique
