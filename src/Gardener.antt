-- ===== src/Gardener.antt =====
-- src/harmonist/gardener.py: the verdict on an album's waiting update and where the update goes, with the
-- levels of src/harmonist/formats/owned.py. The plan of an album's files against a release is a parameter.
pub mod Routing
mod Tests
use harmonist.Prelude.{
  ℕ, zero, suc, ◌+◌, ◌*◌, ◌-◌, ◌/◌, min, String, Bool, true, false, not, ◌&&◌, ◌||◌, Option, none,
  some, List, [], ◌∷◌, ◌++◌, ◌==◌, option_eq, string_eq, nat_eq, leb, ltb, is_none, keep,
  if◌then◌else◌,
}
use harmonist.Models.{AlbumState, complete, incomplete}

pub data Significance : Type 0 where
  settings cosmetic enrichment identity structure : Significance

-- The place in `ORDER`.
unfoldable pub ranked : Significance → ℕ
ranked settings = 0
ranked cosmetic = 1
ranked enrichment = 2
ranked identity = 3
ranked structure = 4

abbrev pub same_level : Significance → Significance → Bool
same_level a b = ranked a == ranked b

-- `ReviewFrom`: `none` is its "none".
abbrev pub ReviewFrom : Type 0
ReviewFrom = Option Significance

pub record GardenerConfig : Type 0 where
  pub review_from : ReviewFrom
  pub apply_up_to : ReviewFrom

-- What a pass reads of an album. The rows of its changes are left out.
pub record Album : Type 0 where
  pub id : String
  pub state : AlbumState
  pub update_available : Bool
  pub update_significance : Option Significance
  pub mb_version : Option String
  pub mb_release_id : Option String
  pub included_pregap_count : ℕ

-- The user's Ignores, by album, each with the version it was made at.
pub record IgnoredUpdate : Type 0 where
  pub album_id : String
  pub release_version : String

-- What `plan_for` comes to: the levels of the entries that count, or the error that it raises.
pub data Planned : Type 0 where
  mismatch : Planned
  unreadable : Planned
  planned : List Significance → Planned

-- `max(levels, key=ranked)`, the first of the largest.
unfoldable pub verdict_for : List Significance → Option Significance
verdict_for [] = none
verdict_for (level ∷ levels) = elim (verdict_for levels) [
  | none ↦ some level
  | some later ↦ some (if leb (ranked later) (ranked level) then level else later)
]

abbrev pub with_verdict : Bool → Option Significance → Option String → Album → Album
with_verdict available level version a = record {
  id = a.id;
  state = a.state;
  update_available = available;
  update_significance = level;
  mb_version = version;
  mb_release_id = a.mb_release_id;
  included_pregap_count = a.included_pregap_count;
}

-- `_assess`: the album with its update fields set, where the plan could be built or does not fit.
unfoldable pub assess : Planned → Option String → Album → Album
unfolding verdict_for
assess mismatch version a = with_verdict true (some structure) version a
assess unreadable version a = a
assess (planned levels) version a =
    let verdict = verdict_for levels in with_verdict (not (is_none verdict)) verdict version a

-- `ignored.get(album.id)`
unfoldable pub ignored_for : String → List IgnoredUpdate → Option IgnoredUpdate
ignored_for id [] = none
ignored_for id (entry ∷ ignored) =
    let rest = ignored_for id ignored in if entry.album_id == id then some entry else rest

unfoldable pub is_settings : Option Significance → Bool
is_settings level = elim level [ none ↦ false | some l ↦ same_level l settings ]

unfoldable pub is_ignored : Album → List IgnoredUpdate → Bool
unfolding ignored_for is_settings
is_ignored a ignored = elim (ignored_for a.id ignored) [
  | none ↦ false
  | some entry ↦
      some entry.release_version == a.mb_version && not (is_settings a.update_significance)
]

unfoldable pub reviews : Significance → ReviewFrom → Bool
reviews level none = false
reviews level (some from) = leb (ranked from) (ranked level)

unfoldable pub applies : Significance → ReviewFrom → Bool
applies level none = false
applies level (some to) = not (same_level level structure) && leb (ranked level) (ranked to)

pub data Outcome : Type 0 where
  apply review library : Outcome

unfoldable pub outcome : Significance → GardenerConfig → Outcome
unfolding reviews applies
outcome level routing =
    if applies level routing.apply_up_to
    then apply
    else if reviews level routing.review_from
    then review
    else library

unfoldable pub bound_for_review : Significance → GardenerConfig → Bool
unfolding reviews applies
bound_for_review level routing =
    reviews level routing.review_from && not (applies level routing.apply_up_to)

-- `state in _LIBRARY_STATES`
unfoldable pub in_library : AlbumState → Bool
in_library complete = true
in_library incomplete = true
in_library _ = false

unfoldable pub waiting_at : Album → List IgnoredUpdate → Option Significance
unfolding in_library is_ignored
waiting_at a ignored =
    if not (in_library a.state) || (not a.update_available || is_ignored a ignored)
    then none
    else a.update_significance

-- The body of the loop of `for_review`.
unfoldable pub waits_in_inbox : List IgnoredUpdate → GardenerConfig → (Album → Bool) → Album → Bool
unfolding waiting_at applies reviews
waits_in_inbox ignored routing held a = elim (waiting_at a ignored) [
  | none ↦ false
  | some level ↦
      if applies level routing.apply_up_to then held a else reviews level routing.review_from
]

unfoldable pub for_review :
    List Album → List IgnoredUpdate → GardenerConfig → (Album → Bool) → List Album
unfolding waits_in_inbox
for_review albums ignored routing held = keep (waits_in_inbox ignored routing held) albums

unfoldable pub waiting_by_level : List Album → List IgnoredUpdate → Significance → ℕ
unfolding waiting_at
waiting_by_level [] ignored level = 0
waiting_by_level (a ∷ albums) ignored level =
    let rest = waiting_by_level albums ignored level in
    elim (waiting_at a ignored) [
      | none ↦ rest
      | some l ↦ if same_level l level then suc rest else rest
    ]
