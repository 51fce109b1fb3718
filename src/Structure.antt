-- ===== src/Structure.antt =====
-- src/harmonist/track_structure.py: `pairs`, which keeps the pairs of a file and a track that their
-- identities settle, and `review`. A set of tracks is a list; `eligible` holds indices of `targets`.
pub mod Once
pub mod Frame
pub mod Steps
pub mod Identified
pub mod Identity
mod Tests
use harmonist.Prelude.{
  ℕ, zero, suc, ◌+◌, String, Bool, true, false, ◌&&◌, ◌||◌, not, Option, none, some, List, [], ◌∷◌,
  ◌==◌, nat_eq, string_eq, option_eq, truthy, map, length, get_elem?, set, keep, every, contains,
  count, index?, replicate, is_none, if◌then◌else◌,
}
use harmonist.Formats.{TrackTags, TagSet, or_1}

-- `slots` and `free`.
pub record State : Type 0 where
  pub slots : List (Option ℕ)
  pub free : List ℕ

-- `slots[i] = j` and `free.remove(j)`.
unfoldable pub give : ℕ → ℕ → State → State
give i j s = record { slots = set s.slots i (some j); free = keep (λ k. not (k == j)) s.free }

-- A file with one candidate takes it.
unfoldable pub take_only : ℕ → List ℕ → State → State
unfolding give
take_only i (j ∷ []) s = give i j s
take_only i _ s = s

-- `for i, key in enumerate(keys)`, from index `i`.
unfoldable pub each {ℓ} : {K : Type ℓ} → (K → ℕ → State → State) → List K → ℕ → State → State
each step [] i s = s
each step (k ∷ keys) i s = each step keys (suc i) (step k i s)

-- The key by which a recording that the release has twice is told apart.
pub record Occurrence : Type 0 where
  pub recording : Option String
  pub disc : Option ℕ
  pub track : Option ℕ

unfoldable pub same_occurrence : Occurrence → Occurrence → Bool
same_occurrence a b = a.recording == b.recording && (a.disc == b.disc && a.track == b.track)

abbrev pub keys_of {ℓ} : {K : Type ℓ} → List (Option K) → List K
keys_of [] = []
keys_of (none ∷ ks) = keys_of ks
keys_of (some k ∷ ks) = k ∷ keys_of ks

-- `None not in key and occurrence_counts[key] == 1`
unfoldable pub settles_occurrence : List (Option Occurrence) → Occurrence → Bool
settles_occurrence keys key =
    not (is_none key.recording)
    && not (is_none key.disc)
    && not (is_none key.track)
    && length (keep (same_occurrence key) (keys_of keys)) == 1

module _ (tags : List TrackTags) (targets : List TagSet) (eligible : List ℕ) where
  -- The local `release_track_id` of `pairs`.
  unfoldable pub release_track_id : TrackTags → Option String
  release_track_id tag =
      let ref = tag.owned.mb_release_track_id in
      let album = tag.owned.mb_album_id in
      if contains (map (λ t. t.mb_release_track_id) targets) ref
        || not (truthy album)
        || contains (map (λ t. some t.mb_album_id) targets) album
      then ref
      else none

  abbrev pub disk_ids : List (Option String)
  disk_ids = map release_track_id tags

  abbrev pub mb_ids : List (Option String)
  mb_ids = map (λ t. t.mb_release_track_id) targets

  -- The track that a release-track id settles.
  unfoldable pub settled_by : Option String → Option ℕ
  settled_by ref =
      if truthy ref && (count ref disk_ids == 1 && count ref mb_ids == 1)
      then index? ref mb_ids
      else none

  unfoldable pub by_id : Option String → ℕ → State → State
  by_id ref i s = elim (settled_by ref) [
    | none ↦ s
    | some slot ↦ if contains s.free slot then give i slot s else s
  ]

  unfoldable pub recording_of : TrackTags → Option String
  recording_of tag = if truthy (release_track_id tag) then none else tag.owned.mb_track_id

  abbrev pub recordings : List (Option String)
  recordings = map recording_of tags

  -- `not mb_ids[j] or mb_counts[mb_ids[j]] == 1`
  unfoldable pub may_record : ℕ → Bool
  may_record j = elim (get_elem? mb_ids j) [
    | none ↦ false
    | some id ↦ not (truthy id) || count id mb_ids == 1
  ]

  unfoldable pub has_recording : Option String → ℕ → Bool
  has_recording recording j = elim (get_elem? targets j) [
    | none ↦ false
    | some t ↦ t.mb_track_id == recording
  ]

  unfoldable pub by_recording : List ℕ → Option String → ℕ → State → State
  by_recording recording_slots recording i s =
      if truthy recording && count recording recordings == 1
      then take_only i (keep (has_recording recording) (keep (contains recording_slots) s.free)) s
      else s

  -- `{targets[j].disc_num for j in eligible} == {1}`
  unfoldable pub on_disc_1 : ℕ → Bool
  on_disc_1 j = elim (get_elem? targets j) [ none ↦ false | some t ↦ t.disc_num == 1 ]

  unfoldable pub single_disc : Bool
  single_disc = not (eligible_empty eligible) && every on_disc_1 eligible
    where
      eligible_empty : List ℕ → Bool
      eligible_empty [] = true
      eligible_empty (j ∷ js) = false

  -- `tag.disc_num or (1 if single_disc else None)`
  unfoldable pub disc_of : TrackTags → Option ℕ
  disc_of tag = elim tag.disc_num [
    | some (suc n) ↦ some (suc n)
    | _ ↦ if single_disc then some 1 else none
  ]

  unfoldable pub occurrence_of : TrackTags → Option ℕ → Option Occurrence
  occurrence_of tag slot =
      if truthy (recording_of tag) && is_none slot
      then some (record { recording = recording_of tag; disc = disc_of tag; track = tag.track_num })
      else none

  unfoldable pub occurrences : List TrackTags → List (Option ℕ) → List (Option Occurrence)
  occurrences (tag ∷ ts) (slot ∷ slots) = occurrence_of tag slot ∷ occurrences ts slots
  occurrences _ _ = []

  unfoldable pub at_occurrence : Occurrence → ℕ → Bool
  at_occurrence key j = elim (get_elem? targets j) [
    | none ↦ false
    | some t ↦
        same_occurrence
          (record { recording = t.mb_track_id; disc = some t.disc_num; track = some t.track_num })
          key
  ]

  unfoldable pub by_occurrence :
      List ℕ → List (Option Occurrence) → Option Occurrence → ℕ → State → State
  by_occurrence recording_slots keys none i s = s
  by_occurrence recording_slots keys (some key) i s =
      if settles_occurrence keys key
      then take_only i (keep (at_occurrence key) (keep (contains recording_slots) s.free)) s
      else s

  -- What the proposal leaves to numbers: a file with no slot that carries no identity.
  unfoldable pub is_remaining : TrackTags → Option ℕ → Bool
  is_remaining tag slot =
      is_none slot
      && not (truthy (release_track_id tag))
      && not (truthy tag.owned.mb_track_id)
      && not tag.unreadable

  unfoldable pub numbers : List TrackTags → List (Option ℕ) → List (Option (Option ℕ × Option ℕ))
  numbers (tag ∷ ts) (slot ∷ slots) =
      (if is_remaining tag slot then some (disc_of tag, tag.track_num) else none) ∷ numbers ts slots
  numbers _ _ = []

  unfoldable pub same_number : Option ℕ × Option ℕ → Option ℕ × Option ℕ → Bool
  same_number a b = a.0 == b.0 && a.1 == b.1

  unfoldable pub at_number : Option ℕ × Option ℕ → ℕ → Bool
  at_number number j = elim (get_elem? targets j) [
    | none ↦ false
    | some t ↦ same_number (some t.disc_num, some t.track_num) number
  ]

  -- `None not in number and counts_by_number[number] == 1`
  unfoldable pub settles_number : List (Option (Option ℕ × Option ℕ)) → Option ℕ × Option ℕ → Bool
  settles_number keys number =
      not (is_none number.0)
      && not (is_none number.1)
      && length (keep (same_number number) (keys_of keys)) == 1

  unfoldable pub by_number :
      List (Option (Option ℕ × Option ℕ)) → Option (Option ℕ × Option ℕ) → ℕ → State → State
  by_number keys none i s = s
  by_number keys (some number) i s =
      if settles_number keys number then take_only i (keep (at_number number) s.free) s else s

  -- `not mb_ids[j] or mb_counts[mb_ids[j]] != 1`
  unfoldable pub is_invalid : ℕ → Bool
  is_invalid j = elim (get_elem? mb_ids j) [
    | none ↦ true
    | some id ↦ not (truthy id) || not (count id mb_ids == 1)
  ]

  -- The indices of the remaining files that still have no slot, from index `i`.
  unfoldable pub left_over : List (Option (Option ℕ × Option ℕ)) → List (Option ℕ) → ℕ → List ℕ
  left_over (some number ∷ keys) (none ∷ slots) i = i ∷ left_over keys slots (suc i)
  left_over (_ ∷ keys) (_ ∷ slots) i = left_over keys slots (suc i)
  left_over _ _ i = []

  -- One file and one track are left.
  unfoldable pub lone : List ℕ → List ℕ → State → State
  lone (i ∷ []) (j ∷ []) s = record { slots = set s.slots i (some j); free = s.free }
  lone _ _ s = s

  unfoldable pub start : State
  start = record { slots = replicate (length tags) none; free = eligible }

  unfoldable pub identified : State
  identified = each by_id disk_ids 0 start

  unfoldable pub recording_slots : List ℕ
  recording_slots = keep may_record identified.free

  unfoldable pub recorded : State
  recorded = each (by_recording recording_slots) recordings 0 identified

  unfoldable pub occurring : State
  occurring =
      let keys = occurrences tags recorded.slots in
      each (by_occurrence recording_slots keys) keys 0 recorded

  -- The block under `if propose`, up to the loop over the numbers.
  unfoldable pub numbered_in : State → State
  numbered_in s =
      let keys = numbers tags s.slots in
      each (by_number keys) keys 0
        (record { slots = s.slots; free = keep (λ j. not (is_invalid j)) s.free })

  unfoldable pub propose_in : State → State
  propose_in s =
      let u = numbered_in s in
      if length (keep is_invalid s.free) == 0
      then lone (left_over (numbers tags s.slots) u.slots 0) u.free u
      else u

  unfoldable pub pairs : Bool → List (Option ℕ)
  pairs propose = if propose then (propose_in occurring).slots else occurring.slots
