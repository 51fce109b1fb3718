-- ===== src/Fields/Tests.antt =====
-- Values on four tracks, a difflib that replaces from end to end, and the theorems of Fields at them.
use harmonist.Prelude.{
  String, ◌≡◌, refl, true, false, Option, none, some, List, [], ◌∷◌, ◌++◌, option_eq, nat_eq,
  string_eq, arith, length, sort_by, insert_by,
}
use harmonist.Fields.{
  Text, text_eq, counter_keys, most_common, first_that, tied_with, winner, consensus,
  flag_consensus, flag_yes,
}
use harmonist.Fields.Settled.{entry_eq}
use harmonist.Fields.Rows.{
  Opcode, bridge, bridge_gaps, extend, join_runs, merge, side_runs, changed_length, too_scattered,
  diff_runs,
}
use harmonist.Fields.Runs.{Covers, joined, alternating, diff_runs-joined}

-- Two tracks each say one thing; the second value is the first to be carried.
abbrev genres : List (String × Option Text)
genres =
    ("1", none)
    ∷ ("2", some (66 ∷ []))
    ∷ ("3", some (65 ∷ []))
    ∷ ("4", some (65 ∷ []))
    ∷ ("5", some (66 ∷ []))
    ∷ ("6", some (67 ∷ []))
    ∷ []

genres_value : (consensus genres).value ≡ some (66 ∷ [])
unfolding consensus winner most_common counter_keys tied_with first_that sort_by insert_by
genres_value = refl

-- One track of two with the flag makes the album one.
flagged : (flag_consensus (("1", none) ∷ ("2", some (49 ∷ [])) ∷ [])).value ≡ some flag_yes
unfolding flag_consensus counter_keys
flagged = refl

abbrev replaced : Text → Text → List Opcode
replaced a b = record { equal = false; i1 = 0; i2 = length a; j1 = 0; j2 = length b } ∷ []

replaced-Covers : Covers replaced
replaced-Covers a b = ((refl, omega arith, refl), (refl, omega arith, refl))

-- "2019" and "2019-3", as difflib has them.
abbrev appended : Text → Text → List Opcode
appended a b =
    record { equal = true; i1 = 0; i2 = 4; j1 = 0; j2 = 4 }
    ∷ record { equal = false; i1 = 4; i2 = 4; j1 = 4; j2 = 6 }
    ∷ []

abbrev year : Text
year = 50 ∷ 48 ∷ 49 ∷ 57 ∷ []

year_runs : diff_runs appended year (year ++ 45 ∷ 51 ∷ []) ≡ (
  record { text = year; changed = false } ∷ [],
  record { text = year; changed = false } ∷ record { text = 45 ∷ 51 ∷ []; changed = true } ∷ [],
)
unfolding diff_runs too_scattered changed_length side_runs merge bridge_gaps bridge join_runs extend
year_runs = refl

-- A gap of two between changes is marked with them.
gap_bridged :
    merge (
      record { text = 1 ∷ []; changed = true }
      ∷ record { text = 2 ∷ 3 ∷ []; changed = false }
      ∷ record { text = 4 ∷ []; changed = true }
      ∷ [])
    ≡ record { text = 1 ∷ 2 ∷ 3 ∷ 4 ∷ []; changed = true } ∷ []
unfolding merge bridge_gaps bridge join_runs extend
gap_bridged = refl

diff_runs-joined_example :
    (joined (diff_runs replaced year (49 ∷ [])).0 ≡ year)
    × (joined (diff_runs replaced year (49 ∷ [])).1 ≡ 49 ∷ [])
    × (alternating (diff_runs replaced year (49 ∷ [])).0 ≡ true)
    × (alternating (diff_runs replaced year (49 ∷ [])).1 ≡ true)
unfolding too_scattered changed_length
diff_runs-joined_example = diff_runs-joined replaced year (49 ∷ []) replaced-Covers refl refl
