-- ===== src/Barcodes/Tests.antt =====
-- A UPC in two spellings, and the theorems of Barcodes at it.
use harmonist.Prelude.{ℕ, ◌≡◌, refl, false, none, some, List, [], ◌∷◌, ◌++◌, get_elem?, arith}
use harmonist.Barcodes.{
  normalise, normalise_stripped, strip, drop_spaces, is_space, weigh, is_gtin_length, BarcodeFields,
  values_of, evidence, is_one_code, same_code, first_value, variants, drop,
}
use harmonist.Barcodes.Checks.{normalise_detects}

abbrev start_digits : List ℕ
start_digits = b'7' ∷ b'2' ∷ b'4' ∷ b'3' ∷ b'8' ∷ b'4' ∷ b'9' ∷ []

-- 724384960650
abbrev upc : List ℕ
upc = start_digits ++ b'6' ∷ b'0' ∷ b'6' ∷ b'5' ∷ b'0' ∷ []

abbrev canonical : List ℕ
canonical = b'0' ∷ b'0' ∷ upc

upc-valid : normalise upc ≡ some canonical
unfolding normalise normalise_stripped strip drop_spaces is_space weigh is_gtin_length
upc-valid = refl

spaced-valid : normalise (b' ' ∷ b'0' ∷ upc) ≡ some canonical
unfolding normalise normalise_stripped strip drop_spaces is_space weigh is_gtin_length
spaced-valid = refl

wrong-refused : normalise (start_digits ++ b'7' ∷ b'0' ∷ b'6' ∷ b'5' ∷ b'0' ∷ []) ≡ none
unfolding normalise normalise_stripped strip drop_spaces is_space weigh is_gtin_length
wrong-refused = refl

normalise_detects_example : normalise (start_digits ++ b'9' ∷ b'0' ∷ b'6' ∷ b'5' ∷ b'0' ∷ []) ≡ none
normalise_detects_example =
    normalise_detects start_digits (b'0' ∷ b'6' ∷ b'5' ∷ b'0' ∷ []) b'6' b'9' canonical refl refl
      upc-valid (λ e. omega (arith, e))

abbrev tagged : List BarcodeFields
tagged =
    record { unreadable = false; barcodes = upc ∷ []; upcs = [] }
    ∷ record { unreadable = false; barcodes = (b'0' ∷ upc) ∷ []; upcs = [] }
    ∷ []

tagged-evidence : evidence tagged false ≡ some upc
unfolding evidence values_of is_one_code same_code first_value normalise normalise_stripped strip
    drop_spaces is_space weigh is_gtin_length
tagged-evidence = refl

upc-variant : get_elem? (variants upc) 1 ≡ some (b'0' ∷ upc)
unfolding variants same_code drop normalise normalise_stripped strip drop_spaces is_space weigh
    is_gtin_length
upc-variant = refl
