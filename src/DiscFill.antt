-- ===== src/DiscFill.antt =====
-- src/harmonist/disc_fill.py: which folder could fill a disc that a review shows as missing. An
-- album has the fields that are read; the order of two paths is a parameter.
pub mod Unique
mod Tests
use harmonist.Prelude.{
  ℕ, zero, suc, String, Bool, true, false, ◌&&◌, ◌||◌, not, Option, none, some, List, [], ◌∷◌, ◌==◌,
  nat_eq, string_eq, map, length, keep, any_of, contains, count, leb, is_none, truthy, sort_by,
  if◌then◌else◌,
}
use harmonist.Models.{AlbumState, new, needs_mbid}
use harmonist.Match.{distance, length_tolerance_ms}

pub record Album : Type 0 where
  pub id : String
  pub path : String
  pub state : AlbumState
  pub track_count : ℕ
  pub has_tag_mbid : Bool
  pub sidecar_release : Option String
  pub folders : List String

pub record Gap : Type 0 where
  pub disc : ℕ
  pub lengths : List (Option ℕ)

pub record Candidate : Type 0 where
  pub album : Album
  pub fits : Bool

unfoldable pub is_close : Option ℕ → Option ℕ → Bool
unfolding distance
is_close (some a) (some b) = leb (distance a b) length_tolerance_ms
is_close _ _ = false

unfoldable pub all_close : List (Option ℕ) → List (Option ℕ) → Bool
unfolding is_close
all_close (a ∷ us) (b ∷ vs) = is_close a b && all_close us vs
all_close _ _ = true

unfoldable pub fits_gap : Gap → List (Option ℕ) → Bool
unfolding all_close
fits_gap gap lengths = length lengths == length gap.lengths && all_close lengths gap.lengths

-- `a.state in _UNMATCHED`
unfoldable pub is_unmatched : AlbumState → Bool
is_unmatched new = true
is_unmatched needs_mbid = true
is_unmatched _ = false

unfoldable pub could_fill : Album → List String → Album → Bool
unfolding is_unmatched
could_fill album exclude a =
    not (a.id == album.id)
    && is_unmatched a.state
    && not a.has_tag_mbid
    && not (truthy a.sidecar_release)
    && not (any_of (contains exclude) a.folders)

unfoldable pub eligible : Album → List Album → List String → List Album
unfolding could_fill
eligible album library exclude = keep (could_fill album exclude) library

unfoldable pub candidate_of : Gap → (Album → Option (List (Option ℕ))) → List Album → List Candidate
unfolding fits_gap
candidate_of gap lengths_of [] = []
candidate_of gap lengths_of (a ∷ albums) =
    let rest = candidate_of gap lengths_of albums in
    if a.track_count == length gap.lengths
    then record {
      album = a;
      fits = elim (lengths_of a) [ none ↦ false | some lengths ↦ fits_gap gap lengths ];
    }
      ∷ rest
    else rest

-- `(not c.fits, str(c.album.path))`, compared from the left.
unfoldable pub comes_first : (String → String → Bool) → Candidate → Candidate → Bool
comes_first path_le a b =
    if a.fits
    then (if b.fits then path_le a.album.path b.album.path else true)
    else (if b.fits then false else path_le a.album.path b.album.path)

unfoldable pub candidates :
    (String → String → Bool)
    → Gap
    → List Album
    → (Album → Option (List (Option ℕ)))
    → List Candidate
unfolding candidate_of comes_first
candidates path_le gap albums lengths_of =
    sort_by (comes_first path_le) (candidate_of gap lengths_of albums)

-- The discs that one folder fits, `only`.
unfoldable pub only_fitting : List (ℕ × List Candidate) → List (ℕ × Album)
only_fitting [] = []
only_fitting ((disc, cands) ∷ found) =
    let rest = only_fitting found in
    elim (keep (λ c. c.fits) cands) [
      | [] ↦ rest
      | c ∷ cs ↦ elim cs [ [] ↦ (disc, c.album) ∷ rest | d ∷ ds ↦ rest ]
    ]

abbrev pub ids_of : List (ℕ × Album) → List String
ids_of only = map (λ (p : ℕ × Album). p.1.id) only

unfoldable pub automatic : List (ℕ × List Candidate) → List (ℕ × Album)
automatic found =
    let only = only_fitting found in keep (λ (p : ℕ × Album). count p.1.id (ids_of only) == 1) only
