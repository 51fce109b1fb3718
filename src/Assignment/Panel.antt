-- ===== src/Assignment/Panel.antt =====
-- src/harmonist/track_assignment.py: `Panel`, its moves, and `panel`, which makes one. A file is
-- its index, so that `mapping` has indices for keys; a move is parsed, and `other` one that is not.
pub mod Orders
pub mod Moves
pub mod Seats
pub mod Pairs
use harmonist.Prelude.{
  ℕ, zero, suc, ◌+◌, ◌-◌, String, Bool, true, false, ◌&&◌, ◌||◌, not, Option, none, some, List, [],
  ◌∷◌, ◌++◌, ◌==◌, nat_eq, option_eq, string_eq, map, length, range, ltb, leb, replicate, get_elem?,
  set, keep, contains, slots_of, every, if◌then◌else◌, max, is_none,
}
use harmonist.Pregaps.{IncludedPregap}
use harmonist.Compare.{TrackIdentity, assign}
use harmonist.Assignment.{encode, order, parts_of}

pub record Entry : Type 0 where
  pub title : String
  pub number : String
  pub length_ms : Option ℕ
  pub filename : String
  pub path : String

pub record Draft : Type 0 where
  pub disk_order : List ℕ
  pub mb_order : List ℕ
  pub disk_fingerprint : String
  pub included_pregaps : List String

-- The fields of a `pregaps.Offer` that the panel reads.
pub record Offer : Type 0 where
  pub decision : IncludedPregap
  pub pregap_slot : ℕ
  pub first_slot : ℕ
  pub disk_index : ℕ

-- The paths of the files are left out.
pub record Panel : Type 0 where
  pub disk : List Entry
  pub mb : List Entry
  pub disk_order : List (Option ℕ)
  pub mb_order : List (Option ℕ)
  pub disk_fingerprint : String
  pub known_slots : Option (List (Option ℕ))
  pub review_reasons : List String
  pub pregap_offers : List Offer
  pub included_pregaps : List String

abbrev pub with_orders : Panel → List (Option ℕ) → List (Option ℕ) → Panel
with_orders p disk_order mb_order = record {
  disk = p.disk;
  mb = p.mb;
  disk_order = disk_order;
  mb_order = mb_order;
  disk_fingerprint = p.disk_fingerprint;
  known_slots = p.known_slots;
  review_reasons = p.review_reasons;
  pregap_offers = p.pregap_offers;
  included_pregaps = p.included_pregaps;
}

-- `zip(...)` of the two orders.
unfoldable pub zip : List (Option ℕ) → List (Option ℕ) → List (Option ℕ × Option ℕ)
zip (d ∷ ds) (m ∷ ms) = (d, m) ∷ zip ds ms
zip _ _ = []

-- The pairs of a file and a track among the rows.
unfoldable pub both_of : List (Option ℕ × Option ℕ) → List (ℕ × ℕ)
both_of [] = []
both_of ((some d, some m) ∷ rows) = (d, m) ∷ both_of rows
both_of (_ ∷ rows) = both_of rows

unfoldable pub mapping : Panel → List (ℕ × ℕ)
unfolding zip both_of
mapping p = both_of (zip p.disk_order p.mb_order)

unfoldable pub paired : Panel → Bool
unfolding zip
paired p =
    every (λ (r : Option ℕ × Option ℕ). is_none r.0 || not (is_none r.1))
      (zip p.disk_order p.mb_order)

unfoldable pub proposed : Panel → List (ℕ × ℕ)
unfolding mapping
proposed p = elim p.known_slots [
  | none ↦ []
  | some known ↦ keep (λ (r : ℕ × ℕ). not (get_elem? known r.0 == some (some r.1))) (mapping p)
]

-- `paired.get(slot)`, for the dictionary that maps the track of each row to its file: of two rows
-- with one track, the last; a row with no file counts as a track without one.
unfoldable pub file_at : ℕ → List (Option ℕ × Option ℕ) → Option ℕ → Option ℕ
file_at slot [] found = found
file_at slot ((d, m) ∷ rows) found = file_at slot rows (if m == some slot then d else found)

unfoldable pub available_pregaps : Panel → List Offer
unfolding zip file_at
available_pregaps p =
    keep
      (λ o.
        file_at o.first_slot (zip p.disk_order p.mb_order) none == some o.disk_index
        && is_none (file_at o.pregap_slot (zip p.disk_order p.mb_order) none))
      p.pregap_offers

unfoldable pub unavailable_pregaps : Panel → List String
unfolding available_pregaps
unavailable_pregaps p =
    keep (λ id. not (contains (map (λ o. o.decision.pregap) (available_pregaps p)) id))
      p.included_pregaps

-- `none` where it raises AssignmentChanged.
unfoldable pub pregap_decisions : Panel → Option (List IncludedPregap)
unfolding unavailable_pregaps available_pregaps
pregap_decisions p = elim (unavailable_pregaps p) [
  | [] ↦ some (
      map (λ o. o.decision)
        (keep (λ o. contains p.included_pregaps o.decision.pregap) (available_pregaps p)))
  | id ∷ ids ↦ none
]

unfoldable pub draft : Panel → Draft
draft p = record {
  disk_order = encode p.disk_order;
  mb_order = encode p.mb_order;
  disk_fingerprint = p.disk_fingerprint;
  included_pregaps = p.included_pregaps;
}

pub data Side : Type 0 where
  disk_side mb_side : Side

pub data Direction : Type 0 where
  up down : Direction

pub data Move : Type 0 where
  release_only add_gap other : Move
  shift : Side → ℕ → Direction → Move

-- `order[i], order[j] = order[j], order[i]`, `none` where an index is out of range.
unfoldable pub swap : List (Option ℕ) → ℕ → ℕ → Option (List (Option ℕ))
swap xs i j = elim (get_elem? xs i) [
  | none ↦ none
  | some a ↦ elim (get_elem? xs j) [ none ↦ none | some b ↦ some (set (set xs i b) j a) ]
]

unfoldable pub shift_order : List (Option ℕ) → ℕ → Direction → Option (List (Option ℕ))
unfolding swap
shift_order xs i down = swap xs i (suc i)
shift_order xs zero up = none
shift_order xs (suc i) up = swap xs (suc i) i

-- `none` where it raises ValueError, the panel then being as it was.
unfoldable pub move : Panel → Move → Option Panel
move p release_only = some (
    with_orders p (map some (range (length p.disk)) ++ replicate (length p.mb) none)
      (replicate (length p.disk) none ++ map some (range (length p.mb))))
move p add_gap =
    if leb (length p.disk + length p.mb + 1) (length p.disk_order)
    then none
    else some (with_orders p (p.disk_order ++ none ∷ []) (p.mb_order ++ none ∷ []))
move p (shift disk_side i direction) = elim (shift_order p.disk_order i direction) [
  | none ↦ none
  | some moved ↦ some (with_orders p moved p.mb_order)
]
move p (shift mb_side i direction) = elim (shift_order p.mb_order i direction) [
  | none ↦ none
  | some moved ↦ some (with_orders p p.disk_order moved)
]
move p other = none

-- The part of `panel` that reads a draft, `none` where it raises ValueError.
unfoldable pub replay : Draft → ℕ → ℕ → Option (List (Option ℕ) × List (Option ℕ))
replay d disk_count mb_count =
    let rows = length (parts_of d.disk_order) in
    if leb (max disk_count mb_count) rows && leb rows (disk_count + mb_count + 1)
    then elim (order d.disk_order disk_count rows) [
      | none ↦ none
      | some disk_order ↦ elim (order d.mb_order mb_count rows) [
        | none ↦ none
        | some mb_order ↦ some (disk_order, mb_order)
      ]
    ]
    else none

-- The rows of a pairing: the files in their slots, and behind them those without one.
unfoldable pub seat : List (Option ℕ) → ℕ → List (Option ℕ) → List (Option ℕ)
seat [] i disk_order = disk_order
seat (some slot ∷ slots) i disk_order = seat slots (suc i) (set disk_order slot (some i))
seat (none ∷ slots) i disk_order = seat slots (suc i) (disk_order ++ some i ∷ [])

-- The part of `panel` that makes the orders from the slots of the files.
unfoldable pub seat_all : List (Option ℕ) → ℕ → List (Option ℕ) × List (Option ℕ)
unfolding seat
seat_all slots mb_count =
    let disk_order = seat slots 0 (replicate mb_count none) in
    (disk_order, map some (range mb_count) ++ replicate (length disk_order - mb_count) none)

-- The orders with which a panel starts, before anything is confirmed and with no disc filled.
unfoldable pub starting_orders :
    List TrackIdentity → List TrackIdentity → List (Option ℕ) × List (Option ℕ)
unfolding seat_all
starting_orders files tracks = seat_all (assign files tracks) (length tracks)
