-- ===== src/Match/Places.antt =====
-- The dictionary `file_of` of `assess_match`: a slot that a file has is found, and only one has it.
use harmonist.Prelude.{
  ℕ, zero, suc, ◌+◌, ◌≤◌, ◌<◌, ◌≡◌, refl, inl, inr, Option, none, some, List, [], ◌∷◌, nat_eq,
  option_eq, arith, beq_iff, get_elem?, ltb, count, slots_of, Bool-cases, ap,
}
use harmonist.Match.{file_of}

file_of_absent :
    (t : ℕ) (slots : List (Option ℕ)) (i : ℕ)
    → count t (slots_of slots) ≡ 0
    → file_of t slots i ≡ none
unfolding file_of
file_of_absent t [] i h = refl
file_of_absent t (none ∷ slots) i h = ground (arith, file_of_absent t slots (suc i))
file_of_absent t (some s ∷ slots) i h =
    ground (arith, file_of_absent t slots (suc i), beq_iff (some s) (some t))

-- A slot that a file has is found by `file_of`, at a file that has it.
pub file_of-slot :
    (t : ℕ) (slots : List (Option ℕ)) (i : ℕ)
    → 0 < count t (slots_of slots)
    → (k : ℕ) × (file_of t slots i ≡ some (i + k)) × (get_elem? slots k ≡ some (some t))
unfolding file_of
file_of-slot t [] i h = elim h [ ]
file_of-slot t (none ∷ slots) i h =
    let (k, e, at) = file_of-slot t slots (suc i) h in (suc k, rw e (ground arith), at)
file_of-slot t (some s ∷ slots) i h = elim (Bool-cases (ltb 0 (count t (slots_of slots)))) [
  | inl more ↦
      let (k, e, at) = file_of-slot t slots (suc i) (ground arith) in
      (suc k, rw e (ground arith), at)
  | inr no_more ↦
      let last : s ≡ t = ground arith in
      (
        0,
        rw (file_of_absent t slots (suc i) (ground arith)) (ground arith),
        ap (λ x. some (some x)) last,
      )
]

has_count :
    (slots : List (Option ℕ)) (i t : ℕ)
    → get_elem? slots i ≡ some (some t)
    → 0 < count t (slots_of slots)
has_count [] i t at = absurd (cc)
has_count (none ∷ slots) zero t at = absurd (cc)
has_count (some s ∷ slots) zero t at = ground arith
has_count (none ∷ slots) (suc i) t at = has_count slots i t at
has_count (some s ∷ slots) (suc i) t at = omega (arith, has_count slots i t at)

pub slot_unique :
    (slots : List (Option ℕ)) (i j t : ℕ)
    → count t (slots_of slots) ≤ 1
    → get_elem? slots i ≡ some (some t)
    → get_elem? slots j ≡ some (some t)
    → i ≡ j
slot_unique [] i j t once at_i at_j = absurd (cc)
slot_unique (slot ∷ slots) zero zero t once at_i at_j = refl
slot_unique (slot ∷ slots) zero (suc j) t once at_i at_j =
    absurd (ground (arith, has_count slots j t at_j))
slot_unique (slot ∷ slots) (suc i) zero t once at_i at_j =
    absurd (ground (arith, has_count slots i t at_i))
slot_unique (none ∷ slots) (suc i) (suc j) t once at_i at_j =
    ap suc (slot_unique slots i j t once at_i at_j)
slot_unique (some s ∷ slots) (suc i) (suc j) t once at_i at_j =
    ap suc (slot_unique slots i j t (omega arith) at_i at_j)
