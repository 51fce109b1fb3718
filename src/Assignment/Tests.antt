-- ===== src/Assignment/Tests.antt =====
-- A panel of two files and three tracks, and the theorems of Assignment at it.
use harmonist.Prelude.{
  ℕ, ◌≡◌, refl, true, Option, none, some, List, [], ◌∷◌, arith, nat_eq, leb, sort_by, range,
}
use harmonist.Compare.{TrackIdentity}
use harmonist.Assignment.{encode, cell, join}
use harmonist.Assignment.Decimal.{str}
use harmonist.Assignment.Panel.{
  Panel, Entry, draft, replay, shift, disk_side, up, move, paired, shift_order,
}
use harmonist.Assignment.Panel.Moves.{IsValid, move-IsValid, replay-draft}

abbrev row : Entry
row = record { title = "Song"; number = "1.1"; length_ms = none; filename = ""; path = "" }

abbrev panel_of : List (Option ℕ) → Panel
panel_of disk_order = record {
  disk = row ∷ row ∷ [];
  mb = row ∷ row ∷ row ∷ [];
  disk_order = disk_order;
  mb_order = some 0 ∷ some 1 ∷ some 2 ∷ [];
  disk_fingerprint = "";
  known_slots = none;
  review_reasons = [];
  pregap_offers = [];
  included_pregaps = [];
}

abbrev before : List (Option ℕ)
before = some 1 ∷ none ∷ some 0 ∷ []

abbrev after : List (Option ℕ)
after = some 1 ∷ some 0 ∷ none ∷ []

before-sorted : sort_by leb (1 ∷ 0 ∷ []) ≡ range 2
unfolding sort_by
before-sorted = refl

tracks-sorted : sort_by leb (0 ∷ 1 ∷ 2 ∷ []) ≡ range 3
unfolding sort_by
tracks-sorted = refl

abbrev before-IsValid : IsValid (panel_of before)
before-IsValid = record {
  rows = 3;
  disk_valid = record { each_once = before-sorted; has_rows = refl };
  mb_valid = record { each_once = tracks-sorted; has_rows = refl };
  room = omega arith;
  bounded = omega arith;
}

before-moves : move (panel_of before) (shift disk_side 2 up) ≡ some (panel_of after)
unfolding move shift_order
before-moves = refl

move-IsValid_example : IsValid (panel_of after)
move-IsValid_example =
    move-IsValid (panel_of before) (panel_of after) (shift disk_side 2 up) before-moves
      before-IsValid

encode-before : encode before ≡ b'1' ∷ b',' ∷ b'-' ∷ b',' ∷ b'0' ∷ []
unfolding encode cell join str
encode-before = refl

replay-draft_example :
    replay (draft (panel_of before)) 2 3 ≡ some (before, some 0 ∷ some 1 ∷ some 2 ∷ [])
replay-draft_example = replay-draft (panel_of before) before-IsValid (omega arith)

abbrev numbered : Option ℕ → TrackIdentity
numbered n = record { release_track_id = none; disc = some 1; track = n }

before-paired : paired (panel_of before) ≡ true
unfolding paired
before-paired = refl
