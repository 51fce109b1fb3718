-- ===== src/Assignment/Panel/Orders.antt =====
-- The orders of a valid panel.
use mathlib.Core.List.{Permᴰ}
use mathlib.Core.List.Permᴰ
use harmonist.Prelude.{
  ℕ, zero, suc, ◌≡◌, refl, sym, ap, ◌∙◌, Option, none, some, List, [], ◌∷◌, ◌++◌, map, length,
  range, leb, replicate, get_elem?, set, slots_of, sort_by, sort-Perm, arith, inl, inr,
  Option-cases, subst,
}
use harmonist.Assignment.Panel.{swap, shift_order, Direction, up, down}

pub slots_of-append : (xs ys : List (Option ℕ)) → slots_of (xs ++ ys) ≡ slots_of xs ++ slots_of ys
slots_of-append [] ys = refl
slots_of-append (none ∷ xs) ys = slots_of-append xs ys
slots_of-append (some x ∷ xs) ys = ap (λ zs. x ∷ zs) (slots_of-append xs ys)

pub slots_of-replicate : (n : ℕ) → slots_of {A = ℕ} (replicate n none) ≡ []
slots_of-replicate zero = refl
slots_of-replicate (suc n) = slots_of-replicate n

pub slots_of-map : (xs : List ℕ) → slots_of (map some xs) ≡ xs
slots_of-map [] = refl
slots_of-map (x ∷ xs) = ap (λ zs. x ∷ zs) (slots_of-map xs)

some_inj : (xs ys : List (Option ℕ)) → some xs ≡ some ys → xs ≡ ys
some_inj xs ys e = ap (λ o. elim o [ none ↦ xs | some zs ↦ zs ]) e

-- Two lists that differ by two neighbours, swapped.
data Swapped : List (Option ℕ) → List (Option ℕ) → Type 0 where
  here : {a b : Option ℕ} {xs : List (Option ℕ)} → Swapped (a ∷ b ∷ xs) (b ∷ a ∷ xs)
  there : {a : Option ℕ} {xs ys : List (Option ℕ)} → Swapped xs ys → Swapped (a ∷ xs) (a ∷ ys)

Swapped-Permᴰ : {xs ys : List (Option ℕ)} → Swapped xs ys → Permᴰ (slots_of ys) (slots_of xs)
Swapped-Permᴰ (here {a = none} {b = none}) = Permᴰ.refl _
Swapped-Permᴰ (here {a = none} {b = some b}) = Permᴰ.refl _
Swapped-Permᴰ (here {a = some a} {b = none}) = Permᴰ.refl _
Swapped-Permᴰ (here {a = some a} {b = some b}) = Permᴰ.swap refl refl
Swapped-Permᴰ (there {a = none} s) = Swapped-Permᴰ s
Swapped-Permᴰ (there {a = some a} s) = Permᴰ.cons refl (Swapped-Permᴰ s)

Swapped-length : {xs ys : List (Option ℕ)} → Swapped xs ys → length ys ≡ length xs
Swapped-length here = refl
Swapped-length (there s) = ap suc (Swapped-length s)

swap_down : (xs ys : List (Option ℕ)) (i : ℕ) → swap xs i (suc i) ≡ some ys → Swapped xs ys
unfolding swap
swap_down [] ys i h = absurd (cc)
swap_down (a ∷ []) ys zero h = absurd (cc)
swap_down (a ∷ b ∷ xs) ys zero h = subst (Swapped (a ∷ b ∷ xs)) (some_inj _ _ h) here
swap_down (a ∷ xs) ys (suc i) h = elim (Option-cases (get_elem? xs i)) [
  | inl out ↦ absurd (ground arith)
  | inr (u, at_i) ↦ elim (Option-cases (get_elem? xs (suc i))) [
    | inl out ↦ absurd (ground arith)
    | inr (v, at_j) ↦
        let made : swap (a ∷ xs) (suc i) (suc (suc i)) ≡ some (a ∷ set (set xs i v) (suc i) u) =
          ground (arith, at_i, at_j) in
        subst (Swapped (a ∷ xs)) (some_inj _ _ (sym made ∙ h))
          (there (swap_down xs (set (set xs i v) (suc i) u) i (ground (arith, at_i, at_j))))
  ]
]

swap_up : (xs ys : List (Option ℕ)) (i : ℕ) → swap xs (suc i) i ≡ some ys → Swapped xs ys
unfolding swap
swap_up [] ys i h = absurd (cc)
swap_up (a ∷ []) ys zero h = absurd (cc)
swap_up (a ∷ b ∷ xs) ys zero h = subst (Swapped (a ∷ b ∷ xs)) (some_inj _ _ h) here
swap_up (a ∷ xs) ys (suc i) h = elim (Option-cases (get_elem? xs (suc i))) [
  | inl out ↦ absurd (ground arith)
  | inr (u, at_i) ↦ elim (Option-cases (get_elem? xs i)) [
    | inl out ↦ absurd (ground arith)
    | inr (v, at_j) ↦
        let made : swap (a ∷ xs) (suc (suc i)) (suc i) ≡ some (a ∷ set (set xs (suc i) v) i u) =
          ground (arith, at_i, at_j) in
        subst (Swapped (a ∷ xs)) (some_inj _ _ (sym made ∙ h))
          (there (swap_up xs (set (set xs (suc i) v) i u) i (ground (arith, at_i, at_j))))
  ]
]

shift_order-Swapped :
    (xs ys : List (Option ℕ)) (i : ℕ) (direction : Direction)
    → shift_order xs i direction ≡ some ys
    → Swapped xs ys
unfolding shift_order
shift_order-Swapped xs ys i down h = swap_down xs ys i h
shift_order-Swapped xs ys zero up h = absurd (cc)
shift_order-Swapped xs ys (suc i) up h = swap_up xs ys i h

-- A shift keeps the entries of an order and the number of its rows.
pub shift_order-keeps :
    (xs ys : List (Option ℕ)) (i n : ℕ) (direction : Direction)
    → shift_order xs i direction ≡ some ys
    → sort_by leb (slots_of xs) ≡ range n
    → (sort_by leb (slots_of ys) ≡ range n) × (length ys ≡ length xs)
shift_order-keeps xs ys i n direction h e =
    let s = shift_order-Swapped xs ys i direction h in
    (sort-Perm _ _ ∣ Swapped-Permᴰ s ∣₁ ∙ e, Swapped-length s)
