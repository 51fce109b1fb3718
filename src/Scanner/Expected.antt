-- ===== src/Scanner/Expected.antt =====
-- `scanner.expected_tracks`: how many tracks the release has, from the files' own tags. A set is a
-- list without repetition, and `by_disc` is an association list.
pub mod Media
use harmonist.Prelude.{
  ℕ, zero, suc, ◌+◌, ◌≤◌, ◌<◌, String, Bool, true, false, ◌&&◌, ◌||◌, not, Option, none, some, List,
  [], ◌∷◌, ◌++◌, ◌==◌, nat_eq, string_eq, option_eq, truthy, contains, distinct, keep, any_of,
  every, length, map, slots_of, range_from, leb, is_none, if◌then◌else◌,
}
use harmonist.Formats.{ScanFields, or_1}
use harmonist.Pregaps.{IncludedPregap}

pub record ExpectedTracks : Type 0 where
  pub total : Option ℕ
  pub complete : Bool
  pub absent_media : List ℕ

abbrev pub unknown_expected : ExpectedTracks
unknown_expected = record { total = none; complete = true; absent_media = [] }

-- `len(album_ids) == 1 and None not in album_ids`
unfoldable pub one_album : List (Option String) → Bool
one_album (some mbid ∷ []) = true
one_album _ = false

-- On a confirmed album with known assignments, only the assigned files account for tracks.
unfoldable pub accounted : List ScanFields → List ScanFields
unfolding one_album
accounted fields =
    if one_album (distinct (map (λ f. f.album_id) fields))
      && any_of (λ f. truthy f.release_track_id) fields
    then keep (λ f. truthy f.release_track_id || f.unreadable) fields
    else fields

unfoldable pub readable : List ScanFields → List ScanFields
readable fields = keep (λ f. not f.unreadable) fields

-- `by_disc.setdefault(disc, set()).add(total)`
unfoldable pub add_total : ℕ → Option ℕ → List (ℕ × List (Option ℕ)) → List (ℕ × List (Option ℕ))
add_total disc total [] = (disc, total ∷ []) ∷ []
add_total disc total ((d, seen) ∷ m) =
    let rest = add_total disc total m in
    if d == disc
    then (d, (if contains seen total then seen else total ∷ seen)) ∷ m
    else (d, seen) ∷ rest

unfoldable pub by_disc : List ScanFields → List (ℕ × List (Option ℕ)) → List (ℕ × List (Option ℕ))
unfolding add_total
by_disc [] m = m
by_disc (f ∷ fs) m = by_disc fs (add_total (or_1 f.disc_num) f.track_total m)

-- The total that a disc's files agree on.
unfoldable pub agreed : List (Option ℕ) → Option ℕ
agreed (total ∷ []) = total
agreed _ = none

unfoldable pub disc_totals_of : List ScanFields → List (ℕ × Option ℕ)
unfolding by_disc agreed
disc_totals_of present = map (λ p. (p.0, agreed p.1)) (by_disc present [])

-- `next(iter(disc_totals)) if len(disc_totals) == 1 else len(totals)`
unfoldable pub media_count : List ℕ → ℕ → ℕ
media_count (n ∷ []) discs = n
media_count _ discs = discs

unfoldable pub sum : List ℕ → ℕ
sum [] = 0
sum (n ∷ ns) = n + sum ns

-- `video_media is not None and absent <= set(video_media)`
unfoldable pub only_video : Option (List ℕ) → List ℕ → Bool
only_video none absent = false
only_video (some media) absent = every (λ m. contains media m) absent

unfoldable pub is_empty : List ℕ → Bool
is_empty [] = true
is_empty (x ∷ xs) = false

-- `frozenset(range(1, expected_media + 1)) - set(totals)`
unfoldable pub absent_of : List (ℕ × Option ℕ) → List ℕ → List ℕ
unfolding media_count
absent_of totals disc_totals =
    keep (λ m. not (contains (map (λ p. p.0) totals) m))
      (range_from 1 (media_count disc_totals (length totals)))

-- The discs whose files are present, by what each disc's files agree on.
unfoldable pub from_totals : List (ℕ × Option ℕ) → List ℕ → ℕ → Option (List ℕ) → ℕ → ExpectedTracks
unfolding sum only_video is_empty
from_totals totals disc_totals present video_media included =
    if every (λ p. is_none p.1) totals
    then unknown_expected
    else let absent = absent_of totals disc_totals in
      if not (is_empty absent) && not (only_video video_media absent)
      then record { total = none; complete = false; absent_media = absent }
      else if any_of (λ p. is_none p.1) totals
      then unknown_expected
      else let total = sum (slots_of (map (λ p. p.1) totals)) in
        record {
          total = some total;
          complete = leb total (present + included);
          absent_media = absent;
        }

unfoldable pub expected_present :
    List ScanFields → Option (List ℕ) → List IncludedPregap → ExpectedTracks
unfolding disc_totals_of from_totals
expected_present [] video_media included = unknown_expected
expected_present (f ∷ fs) video_media included =
    let present = f ∷ fs in
    from_totals (disc_totals_of present) (distinct (slots_of (map (λ g. g.disc_total) present)))
      (length present) video_media (length included)

unfoldable pub expected_tracks :
    List ScanFields → List ScanFields → Option (List ℕ) → List IncludedPregap → ExpectedTracks
unfolding accounted readable expected_present
expected_tracks fields video_fields video_media included =
    expected_present (readable (accounted fields ++ video_fields)) video_media included
