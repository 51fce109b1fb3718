-- ===== src/Fields/Findings.antt =====
-- When a row of src/harmonist/compare.py is a finding.
use harmonist.Prelude.{
  String, ◌≡◌, refl, Bool, true, false, not, ◌||◌, Option, none, some, List, ◌==◌, option_eq, arith,
  contains, Bool-cases,
}
use harmonist.Fields.{Text, text_eq, Consensus}
use harmonist.Fields.Rows.{Opcode, compare_value, is_finding, is_advisory}

-- Whether the value on disk is a spelling that the field accepts.
abbrev pub accepts : List Text → Option Text → Option Text → Bool
accepts also_matches (some d) (some m) = contains also_matches d
accepts also_matches _ _ = false

-- A row of a readable album is a finding exactly where what the files say, a missing value included,
-- is not what MusicBrainz says, nor, where MusicBrainz says something, one of the accepted spellings; a row
-- of an unreadable one always is, and no row that is compared is advisory.
compare_value-finding :
    (opcodes : Text → Text → List Opcode) (label : String) (disk mb : Option Text)
    (tracks : Option Consensus) (also_matches : List Text)
    → (is_finding (compare_value opcodes label disk mb false tracks also_matches)
        ≡ not (disk == mb || accepts also_matches disk mb))
      × (is_finding (compare_value opcodes label disk mb true tracks also_matches) ≡ true)
      × ((unreadable_ : Bool)
          → is_advisory (compare_value opcodes label disk mb unreadable_ tracks also_matches)
            ≡ false)
unfolding is_finding is_advisory compare_value
compare_value-finding opcodes label none none tracks also =
    (refl, refl, λ u. ground (arith, Bool-cases u))
compare_value-finding opcodes label none (some m) tracks also =
    (refl, refl, λ u. ground (arith, Bool-cases u))
compare_value-finding opcodes label (some d) none tracks also =
    (refl, refl, λ u. ground (arith, Bool-cases u))
compare_value-finding opcodes label (some d) (some m) tracks also =
    (ground arith, refl, λ u. ground (arith, Bool-cases u))
