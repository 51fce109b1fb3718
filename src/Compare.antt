-- ===== src/Compare.antt =====
-- src/harmonist/compare.py: the ladder that decides which MusicBrainz track a file is
-- (`TrackIdentity`, `identity_of`, `assign`, `_unique_slots`) and the page's use of it (`_assign`).
-- A dictionary built from a comprehension over distinct keys is an association list, `Counter` is
-- `count`, and the loops that write `out` and `taken` pass both along.
mod Visits
pub mod Slots
pub mod Rungs
pub mod Page
mod Tests
use harmonist.Prelude.{
  ℕ, zero, suc, ◌+◌, String, Bool, true, false, ◌&&◌, ◌||◌, not, Option, none, some, List, [], ◌∷◌,
  map, ◌≡◌, ◌↔◌, refl, arith, Compared, compared_by, beq_iff, ◌==◌, nat_eq, string_eq, beq→eq,
  beq_refl, count, contains, if◌then◌else◌, range, range_from, keep, length, replicate,
}
use harmonist.Formats.{TrackTags, TagSet, or_1}

pub record TrackIdentity : Type 0 where
  pub release_track_id : Option String
  pub disc : Option ℕ
  pub track : Option ℕ

-- What one rung of the ladder reads off an identity.
pub data Key : Type 0 where
  by_id : String → Key
  by_place : (disc track : ℕ) → Key

unfoldable pub key_beq : Key → Key → Bool
key_beq (by_id a) (by_id b) = a == b
key_beq (by_place d t) (by_place d' t') = (d == d') && (t == t')
key_beq _ _ = false

pub key_beq_iff : (a b : Key) → (key_beq a b ≡ true) ↔ (a ≡ b)
unfolding key_beq
key_beq_iff (by_id a) (by_id b) = ground (arith, beq_iff a b)
key_beq_iff (by_place d t) (by_place d' t') = ground arith
key_beq_iff (by_id a) (by_place d t) = ground arith
key_beq_iff (by_place d t) (by_id a) = ground arith

instance abbrev pub key_eq : Compared Key
key_eq = compared_by key_beq key_beq_iff

-- An unreadable file claims nothing.
unfoldable pub identity_of : TrackTags → TrackIdentity
identity_of tags =
    if tags.unreadable
    then record { release_track_id = none; disc = none; track = none }
    else record {
      release_track_id = tags.release_track_id;
      disc = tags.disc_num;
      track = tags.track_num;
    }

unfoldable pub of_tagset : TagSet → TrackIdentity
of_tagset tags = record {
  release_track_id = tags.mb_release_track_id;
  disc = some tags.disc_num;
  track = some tags.track_num;
}

abbrev pub Rung : Type 0
Rung = TrackIdentity → Option Key

unfoldable pub by_release_track_id : Rung
by_release_track_id identity = elim identity.release_track_id [
  | none ↦ none
  | some ref ↦ some (by_id ref)
]

unfoldable pub by_number : Rung
unfolding or_1
by_number identity = elim identity.track [
  | none ↦ none
  | some track ↦ some (by_place (or_1 identity.disc) track)
]

-- The keys that a rung reads off a list of identities, those with none left out.
abbrev pub keys : Rung → List TrackIdentity → List Key
keys rung [] = []
keys rung (t ∷ ts) =
    let rest = keys rung ts in elim (rung t) [ none ↦ rest | some key ↦ key ∷ rest ]

-- The dictionary of `_unique_slots`: each key that the tracks hold once, with its index. `counts`
-- is the counter over all of them, `i` the index of the first of `ts`.
unfoldable pub index_unique : Rung → List Key → ℕ → List TrackIdentity → List (Key × ℕ)
index_unique rung counts i [] = []
index_unique rung counts i (t ∷ ts) =
    let rest = index_unique rung counts (suc i) ts in
    elim (rung t) [
      | none ↦ rest
      | some key ↦ if count key counts == 1 then (key, i) ∷ rest else rest
    ]

unfoldable pub unique_slots : List TrackIdentity → Rung → List (Key × ℕ)
unfolding index_unique
unique_slots tracks rung = index_unique rung (keys rung tracks) 0 tracks

-- `slot_of.get(key)`
unfoldable pub get : List (Key × ℕ) → Key → Option ℕ
get [] key = none
get ((k, slot) ∷ rest) key = if k == key then some slot else get rest key

module _ (rung : Rung) (slot_of : List (Key × ℕ)) (claims : List Key) where
  -- A slot for one file, unless another file has it.
  unfoldable pub claim : Option ℕ → List ℕ → Option ℕ × List ℕ
  claim none taken = (none, taken)
  claim (some slot) taken = if contains taken slot then (none, taken) else (some slot, slot ∷ taken)

  -- The body of the inner loop of `assign`: the new value of `out[i]`, and of `taken`.
  unfoldable pub visit : TrackIdentity → Option ℕ → List ℕ → Option ℕ × List ℕ
  unfolding claim get
  visit identity (some slot) taken = (some slot, taken)
  visit identity none taken = elim (rung identity) [
    | none ↦ (none, taken)
    | some key ↦ if count key claims == 1 then claim (get slot_of key) taken else (none, taken)
  ]

  -- The inner loop, over the files with the entries of `out` that stand at their indices.
  unfoldable pub visit_all :
      List TrackIdentity → List (Option ℕ) → List ℕ → List (Option ℕ) × List ℕ
  unfolding visit
  visit_all (f ∷ fs) (o ∷ os) taken =
      let (o', taken') = visit f o taken in
      let (os', taken'') = visit_all fs os taken' in (o' ∷ os', taken'')
  visit_all [] os taken = (os, taken)
  visit_all (f ∷ fs) [] taken = ([], taken)

module _ (files tracks : List TrackIdentity) where
  -- One rung of the ladder, tried for every file.
  unfoldable pub climb : Rung → List (Option ℕ) × List ℕ → List (Option ℕ) × List ℕ
  unfolding visit_all unique_slots
  climb rung (out, taken) =
      visit_all rung (unique_slots tracks rung) (keys rung files) files out taken

-- `next(free, None)` for every file that is left.
unfoldable pub fill : List (Option ℕ) → List ℕ → List (Option ℕ)
fill [] free = []
fill (some slot ∷ os) free = some slot ∷ fill os free
fill (none ∷ os) [] = none ∷ fill os []
fill (none ∷ os) (i ∷ free) = some i ∷ fill os free

unfoldable pub free_slots : ℕ → List ℕ → List ℕ
free_slots n taken = keep (λ i. not (contains taken i)) (range n)

-- `out` and `taken` when every rung has been tried for every file.
unfoldable pub ladder : List TrackIdentity → List TrackIdentity → List (Option ℕ) × List ℕ
unfolding climb by_release_track_id by_number
ladder files tracks =
    climb files tracks by_number
      (climb files tracks by_release_track_id (replicate (length files) none, []))

unfoldable pub assign : List TrackIdentity → List TrackIdentity → List (Option ℕ)
unfolding ladder fill free_slots
assign files tracks =
    let (out, taken) = ladder files tracks in fill out (free_slots (length tracks) taken)
