-- ===== src/Fields/Settled.antt =====
-- What `consensus` and `flag_consensus` of src/harmonist/compare.py report of an album's tracks.
use harmonist.Prelude.{String, Option, nat_eq, option_eq, Compared, product_eq, string_eq}
use harmonist.Fields.{Text, text_eq}

instance abbrev pub entry_eq : Compared (String × Option Text)
entry_eq = product_eq
