-- ===== src/Assignment.antt =====
-- src/harmonist/track_assignment.py: the panel on which a user pairs files with tracks, and the
-- draft that carries it from one request to the next. A text is the list of its code points.
mod Decimal
pub mod Panel
pub mod Drafts
mod Tests
use harmonist.Prelude.{
  ℕ, zero, suc, ◌+◌, ◌-◌, ◌*◌, ◌/◌, ◌%◌, Bool, true, false, ◌&&◌, ◌||◌, not, Option, none, some,
  List, [], ◌∷◌, ◌++◌, ◌==◌, nat_eq, map, length, range, ltb, leb, every, slots_of, sort_by,
  insert_by, if◌then◌else◌, contains,
}
use harmonist.Assignment.Decimal.{str, int_of}

abbrev pub comma : ℕ
comma = b','

abbrev pub hyphen : ℕ
hyphen = b'-'

-- The cell of one row.
unfoldable pub cell : Option ℕ → List ℕ
cell none = hyphen ∷ []
cell (some i) = str i

-- `",".join(parts)`
unfoldable pub join : List (List ℕ) → List ℕ
join [] = []
join (p ∷ []) = p
join (p ∷ q ∷ ps) = p ++ comma ∷ join (q ∷ ps)

unfoldable pub encode : List (Option ℕ) → List ℕ
encode order = join (map cell order)

-- `value.split(",")`: the first part and the others.
unfoldable pub split : List ℕ → List ℕ × List (List ℕ)
split [] = ([], [])
split (c ∷ cs) =
    let (part, parts) = split cs in if c == comma then ([], part ∷ parts) else (c ∷ part, parts)

unfoldable pub parts_of : List ℕ → List (List ℕ)
unfolding split
parts_of value = (split value).0 ∷ (split value).1

-- `p.isascii() and p.isdecimal()`
unfoldable pub is_decimal : List ℕ → Bool
is_decimal [] = false
is_decimal (c ∷ cs) = every (λ d. leb b'0' d && leb d b'9') (c ∷ cs)

unfoldable pub parse_cell : List ℕ → Option (Option ℕ)
unfolding is_decimal
parse_cell (c ∷ []) =
    if c == hyphen
    then some none
    else if is_decimal (c ∷ [])
    then some (some (int_of (c ∷ []) 0))
    else none
parse_cell part = if is_decimal part then some (some (int_of part 0)) else none

unfoldable pub parse_cells : List (List ℕ) → Option (List (Option ℕ))
parse_cells [] = some []
parse_cells (p ∷ ps) = elim (parse_cell p) [
  | none ↦ none
  | some slot ↦ elim (parse_cells ps) [ none ↦ none | some slots ↦ some (slot ∷ slots) ]
]

unfoldable pub same_list : List ℕ → List ℕ → Bool
same_list [] [] = true
same_list (a ∷ us) (b ∷ vs) = (a == b) && same_list us vs
same_list _ _ = false

-- `_order`, `none` where it raises ValueError.
unfoldable pub order : List ℕ → ℕ → ℕ → Option (List (Option ℕ))
order value count rows =
    if not (length (parts_of value) == rows) then none else elim (parse_cells (parts_of value)) [
      | none ↦ none
      | some slots ↦
          if same_list (sort_by leb (slots_of slots)) (range count) then some slots else none
    ]
