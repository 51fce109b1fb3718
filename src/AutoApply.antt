-- ===== src/AutoApply.antt =====
-- src/harmonist/auto_apply.py: the updates written with nobody watching, and the holds on those that could
-- not be. The files and what a tagging writes to them are a world that the steps pass along; the plan of
-- an album's files, the stored releases and the write itself are parameters on it.
pub mod Settled
pub mod Places
pub mod Chosen
mod Tests
use harmonist.Prelude.{
  ℕ, zero, suc, ◌+◌, String, Bool, true, false, not, ◌&&◌, ◌||◌, Option, none, some, List, [], ◌∷◌,
  ◌++◌, ◌==◌, option_eq, string_eq, nat_eq, ltb, keep, if◌then◌else◌,
}
use harmonist.Models.{AlbumState, complete, incomplete}
use harmonist.Gardener.{
  Significance, ReviewFrom, Album, IgnoredUpdate, Planned, assess, applies, waiting_at,
}

-- Why an update was not applied.
pub data Reason : Type 0 where
  not_stored : Reason
  reaches : Significance → Reason
  tracks_missing : Reason
  failed : String → Reason

pub record Held : Type 0 where
  pub album_id : String
  pub version : Option String
  pub reason : Reason

-- `_held`, a dictionary by album.
unfoldable pub held_for : String → List Held → Option Held
held_for id [] = none
held_for id (entry ∷ held) =
    let rest = held_for id held in if entry.album_id == id then some entry else rest

unfoldable pub drop_hold : String → List Held → List Held
drop_hold id held = keep (λ (entry : Held). not (entry.album_id == id)) held

unfoldable pub held_reason : List Held → Album → Option Reason
unfolding held_for
held_reason held a = elim (held_for a.id held) [
  | none ↦ none
  | some entry ↦ if entry.version == a.mb_version then some entry.reason else none
]

unfoldable pub is_held : List Held → Album → Bool
unfolding held_reason
is_held held a = elim (held_reason held a) [ none ↦ false | some reason ↦ true ]

-- `_hold` and `_release_hold`: an assignment to a key and its removal.
unfoldable pub hold : Album → Reason → List Held → List Held
unfolding drop_hold
hold a reason held =
    record { album_id = a.id; version = a.mb_version; reason = reason } ∷ drop_hold a.id held

unfoldable pub release_hold : Album → List Held → List Held
unfolding drop_hold
release_hold a held = drop_hold a.id held

unfoldable pub is_due : List IgnoredUpdate → ReviewFrom → List Held → Album → Bool
is_due ignored up_to held a = elim (waiting_at a ignored) [
  | none ↦ false
  | some level ↦ applies level up_to && not (is_held held a)
]

unfoldable pub due : List Album → List IgnoredUpdate → ReviewFrom → List Held → List Album
unfolding is_due
due albums ignored up_to held = keep (is_due ignored up_to held) albums

abbrev pub is_incomplete : AlbumState → Bool
is_incomplete incomplete = true
is_incomplete _ = false

-- What one album's turn leaves: the files, the holds, the album, and whether it was written.
pub record Turn (W : Type 0) : Type 0 where
  pub world : W
  pub held : List Held
  pub album : Album
  pub written : Bool

abbrev pub turn : {W : Type 0} → W → List Held → Album → Bool → Turn W
turn w held a written = record { world = w; held = held; album = a; written = written }

-- `write` is `retag.tag_with_release`, tags only, with its `incomplete`: the files after it, and the failure
-- that it raised. The other three are `mb_cache.stored_release`, `plan_for` and `release_version`.
pub record Library (W R : Type 0) : Type 0 where
  pub stored : String → Option R
  pub plan : W → Album → R → Planned
  pub version : R → Option String
  pub write : W → Album → R → Bool → W × Option String

module _ {W R : Type 0} (lib : Library W R) where
  unfoldable pub refresh_flag : W → Album → R → Album
  refresh_flag w a release = assess (lib.plan w a release) (lib.version release) a

  unfoldable pub stored_release : Album → Option R
  stored_release a = elim a.mb_release_id [
    | none ↦ none
    | some mbid ↦ if mbid == "" then none else lib.stored mbid
  ]

  -- Held, so the Inbox says why, where the write failed.
  unfoldable pub after_write : W → List Held → Album → Option String → Turn W
  after_write w held a none = turn w (release_hold a held) a true
  after_write w held a (some why) = turn w (hold a (failed why) held) a false

  -- The write, and the flags after it.
  unfoldable pub write_one : W → List Held → Album → R → Turn W
  unfolding refresh_flag after_write
  write_one w held a release =
      let (w', failure) = lib.write w a release (ltb 0 a.included_pregap_count) in
      after_write w' held (refresh_flag w' a release) failure

  -- From the flags that were judged afresh on.
  unfoldable pub judged : ReviewFrom → W → List Held → Album → R → Option Significance → Turn W
  unfolding write_one
  judged up_to w held a release none = turn w (release_hold a held) a false
  judged up_to w held a release (some level) =
      if not a.update_available
      then turn w (release_hold a held) a false
      else if not (applies level up_to)
      then turn w (hold a (reaches level) held) a false
      else if is_incomplete a.state
      then turn w (hold a tracks_missing held) a false
      else write_one w held a release

  -- `_apply_one`
  unfoldable pub apply_one : ReviewFrom → W → List Held → Album → Turn W
  unfolding judged stored_release
  apply_one up_to w held a = elim (stored_release a) [
    | none ↦ turn w (hold a not_stored held) a false
    | some release ↦
        let a' = refresh_flag w a release in judged up_to w held a' release a'.update_significance
  ]
