-- ===== src/Models.antt =====
-- src/harmonist/models.py: the persisted state of an album, and the helpers on store URLs and
-- titles that the decisions use. Words are native texts, and a host is its list of code points.
pub mod Titles
mod Tests
use Prim.Native.Char.{code}
use Prim.Native.String
use harmonist.Prelude.{
  ℕ, String, Bool, true, false, ◌&&◌, ◌||◌, Option, none, some, List, [], ◌∷◌, ◌==◌, nat_eq,
  string_eq, truthy, if◌then◌else◌,
}
use harmonist.Pregaps.{IncludedPregap}

pub data AlbumState : Type 0 where
  new needs_mbid tagging needs_sync complete incomplete inconsistent : AlbumState

pub record BandcampInfo : Type 0 where
  pub item_id : Option ℕ
  pub candidate_item_ids : List ℕ

pub record Sidecar : Type 0 where
  pub store_url : Option String
  pub bandcamp : Option BandcampInfo
  pub mb_release_id : Option String
  pub temp_uid : Option String
  pub purchase_unavailable : Bool
  pub included_pregaps : List IncludedPregap
  pub video_media : Option (List ℕ)

-- The code points of a text.
abbrev pub codes : String → List ℕ
codes String.[] = []
codes (String.◌∷◌ c s) = code c ∷ codes s

unfoldable pub same_codes : List ℕ → List ℕ → Bool
same_codes [] [] = true
same_codes (a ∷ as_) (b ∷ bs) = (a == b) && same_codes as_ bs
same_codes _ _ = false

-- `text.endswith(suffix)`
unfoldable pub ends_with : List ℕ → List ℕ → Bool
unfolding same_codes
ends_with [] suffix = same_codes [] suffix
ends_with (c ∷ text) suffix = same_codes (c ∷ text) suffix || ends_with text suffix

-- `hostname url` stands for the code points of `(urlparse(url).hostname or "").lower()`.
module _ (hostname : String → List ℕ) where
  unfoldable pub host_is : Option String → List ℕ → Bool
  unfolding ends_with
  host_is none domain = false
  host_is (some url) domain =
      truthy (some url)
      && (same_codes (hostname url) domain || ends_with (hostname url) (b'.' ∷ domain))

  unfoldable pub is_bandcamp_url : Option String → Bool
  unfolding host_is
  is_bandcamp_url url = host_is url (codes "bandcamp.com")

-- `word in it`: what is left of the iterator behind the first `word`, or `none` where it runs out.
unfoldable pub advance_past : String → List String → Option (List String)
advance_past word [] = none
advance_past word (w ∷ ws) = let rest = advance_past word ws in if w == word then some ws else rest

unfoldable pub is_word_subsequence : List String → List String → Bool
unfolding advance_past
is_word_subsequence [] long = true
is_word_subsequence (word ∷ short) long = elim (advance_past word long) [
  | none ↦ false
  | some rest ↦ is_word_subsequence short rest
]

unfoldable pub titles_match : List String → List String → Bool
unfolding is_word_subsequence
titles_match [] b = false
titles_match (x ∷ a) [] = false
titles_match (x ∷ a) (y ∷ b) =
    is_word_subsequence (x ∷ a) (y ∷ b) || is_word_subsequence (y ∷ b) (x ∷ a)
