-- ===== src/Match/Ranking.antt =====
-- src/harmonist/match.py: `Ranking`, `match_releases` and `_rank_key`. Python negates the gap and
-- the delta of a key to sort them the other way; here the comparison of two keys does.
pub mod Order
use harmonist.Prelude.{
  ℕ, ◌+◌, Bool, true, false, ◌&&◌, ◌||◌, Option, none, some, List, [], ◌∷◌, ◌==◌, nat_eq, map,
  length, keep, ltb, leb, sort_by, insert_by,
}
use harmonist.Releases.{Release}
use harmonist.Match.{
  MatchConfidence, exact, approximate, no_match, TrackComparison, MatchCandidate, LocalFile,
  distance, assess_match,
}

unfoldable pub confidence_rank : MatchConfidence → ℕ
confidence_rank exact = 2
confidence_rank approximate = 1
confidence_rank no_match = 0

unfoldable pub total_delta : List TrackComparison → ℕ
total_delta [] = 0
total_delta (c ∷ cs) = elim c.delta_ms [ none ↦ 0 | some ms ↦ ms ] + total_delta cs

pub record RankKey : Type 0 where
  pub rank : ℕ
  pub count_gap : ℕ
  pub delta : ℕ

unfoldable pub rank_key : MatchCandidate → RankKey
unfolding confidence_rank total_delta distance
rank_key c = record {
  rank = confidence_rank c.confidence;
  count_gap = distance c.file_count c.track_count;
  delta = total_delta c.track_comparisons;
}

-- `a <= b` on the keys, tuples that Python compares from the left.
unfoldable pub no_better : RankKey → RankKey → Bool
no_better a b =
    ltb a.rank b.rank
    || (a.rank == b.rank
        && (ltb b.count_gap a.count_gap || (a.count_gap == b.count_gap && leb b.delta a.delta)))

-- `a == b` on the keys.
unfoldable pub same_key : RankKey → RankKey → Bool
same_key a b = a.rank == b.rank && (a.count_gap == b.count_gap && a.delta == b.delta)

pub record Ranking : Type 0 where
  pub candidates : List MatchCandidate

-- `self.candidates[0]`, an IndexError of an empty ranking being `none`.
unfoldable pub best : Ranking → Option MatchCandidate
best r = elim r.candidates [ [] ↦ none | c ∷ cs ↦ some c ]

unfoldable pub level_with : MatchCandidate → MatchCandidate → Bool
unfolding rank_key same_key
level_with top c = same_key (rank_key c) (rank_key top)

unfoldable pub equal_best : Ranking → List MatchCandidate
unfolding best
equal_best r = elim (best r) [ none ↦ [] | some top ↦ keep (level_with top) r.candidates ]

unfoldable pub unique : Ranking → Bool
unfolding equal_best
unique r = length (equal_best r) == 1

-- `sorted(..., reverse=True)` keeps an item before one whose key is no better.
unfoldable pub ranks_first : MatchCandidate → MatchCandidate → Bool
unfolding rank_key no_better
ranks_first a b = no_better (rank_key b) (rank_key a)

unfoldable pub match_releases : List LocalFile → List Release → Option Ranking
match_releases files [] = none
match_releases files (r ∷ rs) =
    some (record { candidates = sort_by ranks_first (map (assess_match files) (r ∷ rs)) })
