-- ===== src/Assignment/Panel/Seats.antt =====
-- The panel starts valid: `panel` writes every file into its orders once, over nothing.
use mathlib.Core.List.{Perm, append_assoc, perm_middle, append-nil}
use mathlib.Core.List.Perm
use harmonist.Prelude.{
  ℕ, zero, suc, ◌+◌, ◌-◌, ◌≡◌, ◌≢◌, ◌≤◌, ◌<◌, refl, ap, ◌∙◌, subst, Option, none, some, List, [],
  ◌∷◌, ◌++◌, map, length, length-append, length-map, length-range_from, length-replicate,
  get_elem?-replicate, get_elem?-append, length-Perm, range, range_from, ltb, leb, bit, count,
  replicate, get_elem?, set, slots_of, sort_by, sorted_of_Perm, sort-range, arith, max, nat_eq,
}
use harmonist.Compare.{TrackIdentity, assign}
use harmonist.Compare.Slots.{assign_once, length-assign}
use harmonist.Assignment.Panel.{seat, seat_all, starting_orders}
use harmonist.Assignment.Panel.Orders.{slots_of-append, slots_of-replicate, slots_of-map}
use harmonist.Assignment.Panel.Moves.{IsOrderOf}

slots_of-set :
    (xs : List (Option ℕ)) (t i : ℕ)
    → get_elem? xs t ≡ some none
    → Perm (slots_of (set xs t (some i))) (i ∷ slots_of xs)
slots_of-set [] t i h = absurd (cc)
slots_of-set (none ∷ xs) zero i h = Perm.refl _
slots_of-set (some x ∷ xs) zero i h = absurd (cc)
slots_of-set (none ∷ xs) (suc t) i h = slots_of-set xs t i h
slots_of-set (some x ∷ xs) (suc t) i h =
    Perm.trans (Perm.cons x (slots_of-set xs t i h)) (Perm.swap i x (slots_of xs))

get_elem?-set {ℓ} :
    {A : Type ℓ} (xs : List A) (t u : ℕ) (a : A) → t ≢ u → get_elem? (set xs t a) u ≡ get_elem? xs u
get_elem?-set [] t u a ne = refl
get_elem?-set (x ∷ xs) zero zero a ne = absurd (ne refl)
get_elem?-set (x ∷ xs) zero (suc u) a ne = refl
get_elem?-set (x ∷ xs) (suc t) zero a ne = refl
get_elem?-set (x ∷ xs) (suc t) (suc u) a ne = get_elem?-set xs t u a (λ e. ne (ap suc e))

length-set {ℓ} : {A : Type ℓ} (xs : List A) (t : ℕ) (a : A) → length (set xs t a) ≡ length xs
length-set [] t a = refl
length-set (x ∷ xs) zero a = refl
length-set (x ∷ xs) (suc t) a = ap suc (length-set xs t a)

length-seat :
    (slots : List (Option ℕ)) (i : ℕ) (xs : List (Option ℕ))
    → (length xs ≤ length (seat slots i xs)) × (length (seat slots i xs) ≤ length xs + length slots)
unfolding seat
length-seat [] i xs = (omega arith, omega arith)
length-seat (some slot ∷ slots) i xs =
    let (low, high) = length-seat slots (suc i) (set xs slot (some i)) in
    (omega (arith, length-set xs slot (some i)), omega (arith, length-set xs slot (some i)))
length-seat (none ∷ slots) i xs =
    let (low, high) = length-seat slots (suc i) (xs ++ some i ∷ []) in
    (omega (arith, length-append xs (some i ∷ [])), omega (arith, length-append xs (some i ∷ [])))

-- Every slot that is still to come is free.
abbrev IsFree : List (Option ℕ) → List (Option ℕ) → Type 0
IsFree slots xs = (t : ℕ) → 0 < count t (slots_of slots) → get_elem? xs t ≡ some none

seat-perm :
    (slots : List (Option ℕ)) (i : ℕ) (xs : List (Option ℕ))
    → ((t : ℕ) → count t (slots_of slots) ≤ 1)
    → IsFree slots xs
    → Perm (slots_of (seat slots i xs)) (slots_of xs ++ range_from i (length slots))
unfolding seat
seat-perm [] i xs once free = rw append-nil (Perm.refl _)
seat-perm (some slot ∷ slots) i xs once free =
    Perm.trans
      (seat-perm slots (suc i) (set xs slot (some i)) (λ t. omega (arith, once t)) still_free)
      (Perm.trans
        (Perm.append_right (range_from (suc i) (length slots))
          (slots_of-set xs slot i (free slot (ground arith))))
        (Perm.symm (perm_middle (slots_of xs) (range_from (suc i) (length slots)))))
  where
    still_free : IsFree slots (set xs slot (some i))
    still_free t h =
        get_elem?-set xs slot t (some i) (λ e. ground (arith, once t, e)) ∙ free t (omega arith)
seat-perm (none ∷ slots) i xs once free =
    subst (Perm (slots_of (seat slots (suc i) (xs ++ some i ∷ []))))
      (ap (λ zs. zs ++ range_from (suc i) (length slots)) (slots_of-append xs (some i ∷ []))
        ∙ append_assoc (slots_of xs) (i ∷ []) (range_from (suc i) (length slots)))
      (seat-perm slots (suc i) (xs ++ some i ∷ []) once
        (λ t h. get_elem?-append xs (some i ∷ []) t none (free t h)))

length-slots_of : (xs : List (Option ℕ)) → length (slots_of xs) ≤ length xs
length-slots_of [] = omega arith
length-slots_of (none ∷ xs) = omega (arith, length-slots_of xs)
length-slots_of (some x ∷ xs) = omega (arith, length-slots_of xs)

module _ (slots : List (Option ℕ)) (m : ℕ)
    (once : (t : ℕ) → count t (slots_of slots) ≤ bit (ltb t m)) where
  abbrev seated : List (Option ℕ)
  seated = seat slots 0 (replicate m none)

  seated-perm : Perm (slots_of seated) (range (length slots))
  seated-perm =
      subst (λ zs. Perm (slots_of seated) (zs ++ range (length slots))) (slots_of-replicate m)
        (seat-perm slots 0 (replicate m none) (λ t. ground (arith, once t))
          (λ t h. get_elem?-replicate m none t (ground (arith, once t))))

  seated_rows :
      (length slots ≤ length seated) × (m ≤ length seated) × (length seated ≤ m + length slots)
  seated_rows =
      let (low, high) = length-seat slots 0 (replicate m none) in
      let e = length-replicate {A = Option ℕ} m none in
      (
        omega (
          arith,
          length-slots_of seated,
          length-Perm _ _ seated-perm,
          length-range_from 0 (length slots),
        ),
        omega (arith, e, low),
        omega (arith, e, high),
      )

  seat_all-valid :
      IsOrderOf (seat_all slots m).0 (length slots) (length seated)
      × IsOrderOf (seat_all slots m).1 m (length seated)
  unfolding seat_all
  seat_all-valid = (
    record {
      each_once = sorted_of_Perm (slots_of seated) (length slots) seated-perm;
      has_rows = refl;
    },
    record {
      each_once =
          ap (sort_by leb) (
            slots_of-append (map some (range m)) (replicate (length seated - m) none)
            ∙ rw (slots_of-replicate (length seated - m), slots_of-map (range m))
                (append-nil (range m)))
          ∙ sort-range m;
      has_rows =
          length-append (map some (range m)) (replicate (length seated - m) none)
          ∙ omega (
            arith,
            length-map {B = Option ℕ} some (range m),
            length-range_from 0 m,
            length-replicate {A = Option ℕ} (length seated - m) none,
            seated_rows.1,
          );
    },
  )

-- The orders with which a panel starts hold each file and each track once, in equally many rows, at
-- least as many as there are files or tracks, and at most as many as both together.
starting_orders-valid :
    (files tracks : List TrackIdentity)
    → (rows : ℕ) × IsOrderOf (starting_orders files tracks).0 (length files) rows
      × IsOrderOf (starting_orders files tracks).1 (length tracks) rows
      × (max (length files) (length tracks) ≤ rows)
      × (rows ≤ length files + length tracks)
unfolding starting_orders
starting_orders-valid files tracks =
    let slots = assign files tracks in
    let e = length-assign files tracks in
    let (a, b) = seat_all-valid slots (length tracks) (assign_once files tracks) in
    let (x, y, z) = seated_rows slots (length tracks) (assign_once files tracks) in
    (
      length (seat slots 0 (replicate (length tracks) none)),
      subst
          (λ n.
            IsOrderOf (seat_all slots (length tracks)).0 n
              (length (seat slots 0 (replicate (length tracks) none))))
          e a,
      b,
      omega (arith, e, x, y),
      omega (arith, e, z),
    )
