-- ===== src/Assignment/Drafts.antt =====
-- A draft is read back as it was written: `_order` undoes `encode`.
use harmonist.Prelude.{
  ℕ, ◌≡◌, ◌≢◌, refl, ap, ◌∙◌, Bool, true, not, Option, none, some, List, [], ◌∷◌, ◌++◌, ◌==◌,
  nat_eq, beq_refl, map, length, length-map, range, leb, every, slots_of, sort_by, arith, inl, inr,
  Bool-cases,
}
use harmonist.Assignment.Decimal.{int_of, is_digit, str-front}
use harmonist.Assignment.{
  comma, cell, join, encode, split, parts_of, parse_cell, parse_cells, same_list, order,
}

-- A part has no comma in it.
abbrev no_comma : List ℕ → Bool
no_comma = every (λ c. not (c == comma))

digits-no_comma : (ds : List ℕ) → every is_digit ds ≡ true → no_comma ds ≡ true
digits-no_comma [] h = refl
digits-no_comma (d ∷ ds) h = ground (arith, digits-no_comma ds)

cell-no_comma : (slot : Option ℕ) → no_comma (cell slot) ≡ true
unfolding cell
cell-no_comma none = refl
cell-no_comma (some i) = let (d, ds, e, h, k) = str-front i in rw e (digits-no_comma (d ∷ ds) h)

split-last : (part : List ℕ) → no_comma part ≡ true → split part ≡ (part, [])
unfolding split
split-last [] h = refl
split-last (c ∷ cs) h = elim (Bool-cases (c == comma)) [
  | inl is ↦ absurd (ground arith)
  | inr is_not ↦ rw (split-last cs (ground arith), is_not) refl
]

split-part :
    (part rest : List ℕ)
    → no_comma part ≡ true
    → split (part ++ comma ∷ rest) ≡ (part, parts_of rest)
unfolding split parts_of
split-part [] rest h = refl
split-part (c ∷ cs) rest h = elim (Bool-cases (c == comma)) [
  | inl is ↦ absurd (ground arith)
  | inr is_not ↦ rw (split-part cs rest (ground arith), is_not) refl
]

parts_of-join :
    (slot : Option ℕ) (slots : List (Option ℕ))
    → parts_of (join (map cell (slot ∷ slots))) ≡ map cell (slot ∷ slots)
unfolding parts_of join
parts_of-join slot [] = rw (split-last (cell slot) (cell-no_comma slot)) refl
parts_of-join slot (next ∷ slots) =
    rw (split-part (cell slot) (join (map cell (next ∷ slots))) (cell-no_comma slot))
      (ap (λ ps. cell slot ∷ ps) (parts_of-join next slots))

parse_cell-decimal :
    (d : ℕ) (ds : List ℕ)
    → every is_digit (d ∷ ds) ≡ true
    → parse_cell (d ∷ ds) ≡ some (some (int_of (d ∷ ds) 0))
unfolding parse_cell
parse_cell-decimal d [] h = ground arith
parse_cell-decimal d (e ∷ ds) h = ground arith

parse_cell-cell : (slot : Option ℕ) → parse_cell (cell slot) ≡ some slot
unfolding cell parse_cell
parse_cell-cell none = refl
parse_cell-cell (some i) =
    let (d, ds, e, h, k) = str-front i in
    rw e (parse_cell-decimal d ds h ∙ ap (λ n. some (some n)) k)

parse_cells-cells : (slots : List (Option ℕ)) → parse_cells (map cell slots) ≡ some slots
unfolding parse_cells
parse_cells-cells [] = refl
parse_cells-cells (slot ∷ slots) = ground (arith, parse_cell-cell slot, parse_cells-cells slots)

same_list_refl : (xs : List ℕ) → same_list xs xs ≡ true
unfolding same_list
same_list_refl [] = refl
same_list_refl (x ∷ xs) = ground (arith, beq_refl x, same_list_refl xs)

same_list→eq : (xs ys : List ℕ) → same_list xs ys ≡ true → xs ≡ ys
unfolding same_list
same_list→eq [] [] h = refl
same_list→eq [] (y ∷ ys) h = absurd (cc)
same_list→eq (x ∷ xs) [] h = absurd (cc)
same_list→eq (x ∷ xs) (y ∷ ys) h = ground (arith, same_list→eq xs ys)

order-encode_cons :
    (slot : Option ℕ) (slots : List (Option ℕ)) (n : ℕ)
    → sort_by leb (slots_of (slot ∷ slots)) ≡ range n
    → order (encode (slot ∷ slots)) n (length (slot ∷ slots)) ≡ some (slot ∷ slots)
unfolding order encode
order-encode_cons slot slots n h =
    rw (parts_of-join slot slots, parse_cells-cells (slot ∷ slots), h)
      (ground (arith, same_list_refl (range n), beq_refl (length slots), length-map cell slots))

-- `_order` reads what `encode` writes: an order that has a row, and in which each entry below `n`
-- stands once, comes back as it was.
pub order-encode :
    (slots : List (Option ℕ)) (n : ℕ)
    → slots ≢ []
    → sort_by leb (slots_of slots) ≡ range n
    → order (encode slots) n (length slots) ≡ some slots
order-encode [] n ne h = absurd (ne refl)
order-encode (slot ∷ slots) n ne h = order-encode_cons slot slots n h

pub length-parts_of :
    (slots : List (Option ℕ)) → slots ≢ [] → length (parts_of (encode slots)) ≡ length slots
unfolding encode
length-parts_of [] ne = absurd (ne refl)
length-parts_of (slot ∷ slots) ne =
    ap length (parts_of-join slot slots) ∙ length-map cell (slot ∷ slots)
