-- ===== src/Barcodes.antt =====
-- src/harmonist/barcodes.py: the barcodes in a file's tags as evidence of its release. A text is the
-- list of its code points.
pub mod Checks
pub mod Agreement
mod Tests
use harmonist.Prelude.{
  ℕ, zero, suc, ◌+◌, ◌-◌, ◌*◌, ◌%◌, Bool, true, false, ◌&&◌, ◌||◌, not, Option, none, some, List,
  [], ◌∷◌, ◌++◌, ◌==◌, nat_eq, map, concat, keep, length, replicate, every, any_of, leb, is_none,
  if◌then◌else◌,
}

abbrev pub reverse {ℓ} : {A : Type ℓ} → List A → List A
reverse [] = []
reverse (a ∷ rest) = reverse rest ++ a ∷ []

abbrev pub is_digit : ℕ → Bool
is_digit c = leb b'0' c && leb c b'9'

-- What `str.strip` takes away.
unfoldable pub is_space : ℕ → Bool
is_space c =
    (leb 9 c && leb c 13)
    || (leb 28 c && leb c 32)
    || c == 133
    || c == 160
    || c == 5760
    || (leb 8192 c && leb c 8202)
    || c == 8232
    || c == 8233
    || c == 8239
    || c == 8287
    || c == 12288

unfoldable pub drop_spaces : List ℕ → List ℕ
unfolding is_space
drop_spaces [] = []
drop_spaces (c ∷ cs) = let rest = drop_spaces cs in if is_space c then rest else c ∷ cs

unfoldable pub strip : List ℕ → List ℕ
strip value = reverse (drop_spaces (reverse (drop_spaces value)))

-- The digits from the right, of weight 1 and 3 by turns; `odd` says whether the first weighs 3.
unfoldable pub weigh : List ℕ → Bool → ℕ
weigh [] odd = 0
weigh (c ∷ cs) odd = (c - b'0') * (if odd then 3 else 1) + weigh cs (not odd)

-- `len(value) in (8, 12, 13, 14)`
unfoldable pub is_gtin_length : ℕ → Bool
is_gtin_length n = n == 8 || n == 12 || n == 13 || n == 14

-- `normalise` of a value that is stripped.
unfoldable pub normalise_stripped : List ℕ → Option (List ℕ)
unfolding weigh is_gtin_length
normalise_stripped value =
    if not (is_gtin_length (length value)) || not (every is_digit value)
    then none
    else if not (weigh (reverse value) false % 10 == 0)
    then none
    else some (replicate (14 - length value) b'0' ++ value)

unfoldable pub normalise : List ℕ → Option (List ℕ)
normalise value = normalise_stripped (strip value)

unfoldable pub same_digits : List ℕ → List ℕ → Bool
same_digits [] [] = true
same_digits (x ∷ us) (y ∷ vs) = (x == y) && same_digits us vs
same_digits _ _ = false

unfoldable pub same_code : Option (List ℕ) → Option (List ℕ) → Bool
unfolding same_digits
same_code none none = true
same_code (some a) (some b) = same_digits a b
same_code _ _ = false

unfoldable pub drop : ℕ → List ℕ → List ℕ
drop zero value = value
drop (suc n) [] = []
drop (suc n) (c ∷ cs) = drop n cs

-- `canonical[-length:]` of the fourteen digits.
unfoldable pub variants : List ℕ → List (List ℕ)
variants value = elim (normalise value) [
  | none ↦ []
  | some canonical ↦
      keep (λ v. same_code (normalise v) (some canonical))
        (map (λ n. drop (14 - n) canonical) (8 ∷ 12 ∷ 13 ∷ 14 ∷ []))
]

-- What `evidence` reads of a file.
pub record BarcodeFields : Type 0 where
  pub unreadable : Bool
  pub barcodes : List (List ℕ)
  pub upcs : List (List ℕ)

unfoldable pub values_of : Bool → BarcodeFields → List (List ℕ)
values_of source_only f = if source_only then f.upcs else f.barcodes

-- `None in codes or len(codes) != 1`, negated, for the list of the codes.
unfoldable pub is_one_code : List (Option (List ℕ)) → Bool
unfolding same_code
is_one_code [] = false
is_one_code (c ∷ cs) = not (is_none c) && every (λ d. same_code d c) cs

-- The evidence is the first value of the first file, stripped.
unfoldable pub first_value : List (List (List ℕ)) → Option (List ℕ)
unfolding strip
first_value ((v ∷ vs) ∷ files) = some (strip v)
first_value _ = none

abbrev pub is_empty_list {ℓ} : {A : Type ℓ} → List A → Bool
is_empty_list [] = true
is_empty_list (a ∷ as_) = false

unfoldable pub evidence : List BarcodeFields → Bool → Option (List ℕ)
evidence fields source_only =
    let values = map (values_of source_only) fields in
    if is_empty_list fields || any_of (λ f. f.unreadable) fields || any_of is_empty_list values
    then none
    else if is_one_code (map normalise (concat values))
    then first_value values
    else none
