-- ===== src/Compare/Page.antt =====
-- `compare._assign`: the album page's pairing. On a confirmed album a file keeps the track its own
-- ids name, and a file that names none is a file with no track.
mod Narrowing
pub mod Files
use harmonist.Prelude.{
  ℕ, zero, suc, ◌+◌, ◌≤◌, ◌<◌, ◌≡◌, refl, ◌≢◌, ◌⊎◌, inl, inr, Bool, true, false, ◌&&◌, ◌||◌, not,
  Option, none, some, List, [], ◌∷◌, ◌++◌, arith, ◌==◌, nat_eq, string_eq, option_eq, truthy,
  beq→eq, beq_refl, count, contains, count-contains, slots_of, if◌then◌else◌, length, get_elem?,
  Bool-cases, Option-cases, bit, ltb, String, map, index?, index?-get_elem?, length-map,
  get_elem?-map, contains-count, Compared,
}
use harmonist.Formats.{TrackTags, TagSet}
use harmonist.Compare.{
  TrackIdentity, identity_of, of_tagset, Key, by_id, key_eq, key_beq, keys, assign,
  by_release_track_id,
}
use harmonist.Compare.Slots.{assign_once, length-assign}
use harmonist.Compare.Rungs.{ids, assign-by_id}

-- Whether a file on a confirmed album records no track decision at all.
unfoldable pub is_unassigned : Option String → Option String → Bool
is_unassigned release_track_id recording_id =
    not (truthy release_track_id) && not (truthy recording_id)

-- The body of the loop over a confirmed album: the new value of `slots[i]`.
module _ (ids disk_ids : List (Option String)) (confirmed_mbid : String) where
  unfoldable pub confirm : TrackTags → Option ℕ → Option ℕ
  unfolding is_unassigned
  confirm tags slot =
      let ref = tags.release_track_id in
      if tags.video || not (tags.owned.mb_album_id == some confirmed_mbid)
      then slot
      else if truthy ref
      then (if (count ref ids == 1) && (count ref disk_ids == 1) then index? ref ids else none)
      else if is_unassigned ref tags.owned.mb_track_id
      then none
      else slot

  unfoldable pub confirm_all : List (String × TrackTags) → List (Option ℕ) → List (Option ℕ)
  unfolding confirm
  confirm_all [] slots = slots
  confirm_all (t ∷ ts) [] = []
  confirm_all (t ∷ ts) (slot ∷ slots) = confirm t.1 slot ∷ confirm_all ts slots

-- `assigned[slot] = entry`: the last writer of a key stands.
module _ {ℓ} {V : Type ℓ} where
  unfoldable pub put : ℕ → V → List (ℕ × V) → List (ℕ × V)
  put k v [] = (k, v) ∷ []
  put k v ((j, w) ∷ m) = let rest = put k v m in if j == k then (j, v) ∷ m else (j, w) ∷ rest

  abbrev pub dict_keys : List (ℕ × V) → List ℕ
  dict_keys m = map (λ p. p.0) m

  abbrev pub dict_values : List (ℕ × V) → List V
  dict_values m = map (λ p. p.1) m

  -- The dictionary and the leftovers, from what they hold before the loop.
  unfoldable pub split_by_slot :
      List V → List (Option ℕ) → List (ℕ × V) → List V → List (ℕ × V) × List V
  unfolding put
  split_by_slot (t ∷ ts) (none ∷ slots) assigned leftover =
      split_by_slot ts slots assigned (leftover ++ t ∷ [])
  split_by_slot (t ∷ ts) (some s ∷ slots) assigned leftover =
      split_by_slot ts slots (put s t assigned) leftover
  split_by_slot (t ∷ ts) [] assigned leftover = (assigned, leftover)
  split_by_slot [] slots assigned leftover = (assigned, leftover)

abbrev pub identities : List (String × TrackTags) → List TrackIdentity
identities tracks = map (λ t. identity_of t.1) tracks

abbrev pub targets_of : List TagSet → List TrackIdentity
targets_of mb = map of_tagset mb

unfoldable pub page_slots :
    List (String × TrackTags) → List TagSet → Option String → List (Option ℕ)
unfolding confirm_all
page_slots tracks mb confirmed =
    let slots = assign (identities tracks) (targets_of mb) in
    if truthy confirmed
    then confirm_all (map (λ t. t.mb_release_track_id) mb) (map (λ t. t.1.release_track_id) tracks)
        (elim confirmed [ none ↦ "" | some mbid ↦ mbid ]) tracks slots
    else slots

unfoldable pub page_assign :
    List (String × TrackTags)
    → List TagSet
    → Option String
    → List (ℕ × (String × TrackTags)) × List (String × TrackTags)
unfolding page_slots split_by_slot
page_assign tracks mb confirmed = split_by_slot tracks (page_slots tracks mb confirmed) [] []
