-- ===== src/Structure/Once.antt =====
-- No track is given to two files by `pairs`, and only eligible ones are given.
use harmonist.Prelude.{
  ℕ, String, zero, suc, ◌+◌, ◌≡◌, ◌≤◌, refl, ap, Bool, true, false, not, ◌&&◌, Option, none, some,
  List, [], ◌∷◌, ◌==◌, nat_eq, count, contains, keep, set, slots_of, replicate, length, bit, arith,
  inl, inr, Bool-cases, Option-cases, truthy, beq_refl, keep-contains, string_eq, option_eq,
}
use harmonist.Formats.{TrackTags, TagSet}
use harmonist.Structure.{
  State, give, take_only, each, by_id, settled_by, by_recording, by_occurrence, by_number, lone,
  start, identified, recorded, occurring, propose_in, pairs, recordings, is_invalid,
  settles_occurrence, settles_number, numbered_in, numbers, Occurrence,
}

-- The slots and the free tracks are no more than the eligible ones.
abbrev IsWithin : List ℕ → State → Type 0
IsWithin eligible s = (x : ℕ) → count x (slots_of s.slots) + count x s.free ≤ count x eligible

count-set :
    (x : ℕ) (xs : List (Option ℕ)) (i j : ℕ)
    → count x (slots_of (set xs i (some j))) ≤ bit (j == x) + count x (slots_of xs)
count-set x [] i j = omega arith
count-set x (none ∷ xs) zero j = omega arith
count-set x (some y ∷ xs) zero j = omega arith
count-set x (none ∷ xs) (suc i) j = count-set x xs i j
count-set x (some y ∷ xs) (suc i) j = omega (arith, count-set x xs i j)

-- A track that is in a set is taken out of it once at least.
count-remove :
    (x j : ℕ) (xs : List ℕ)
    → contains xs j ≡ true
    → bit (j == x) + count x (keep (λ k. not (k == j)) xs) ≤ count x xs
count-remove x j [] h = absurd (cc)
count-remove x j (y ∷ xs) h = elim (Bool-cases (contains xs j)) [
  | inl more ↦ ground (arith, count-remove x j xs more)
  | inr no_more ↦ ground (arith, count-kept x j xs)
]
  where
    count-kept : (x j : ℕ) (xs : List ℕ) → count x (keep (λ k. not (k == j)) xs) ≤ count x xs
    count-kept x j [] = omega arith
    count-kept x j (y ∷ xs) = ground (arith, count-kept x j xs)

give-IsWithin :
    (eligible : List ℕ) (i j : ℕ) (s : State)
    → contains s.free j ≡ true
    → IsWithin eligible s
    → IsWithin eligible (give i j s)
unfolding give
give-IsWithin eligible i j s h w x =
    omega (arith, count-set x s.slots i j, count-remove x j s.free h, w x)

take_only-IsWithin :
    (eligible : List ℕ) (i : ℕ) (candidates : List ℕ) (s : State)
    → ((j : ℕ) → contains candidates j ≡ true → contains s.free j ≡ true)
    → IsWithin eligible s
    → IsWithin eligible (take_only i candidates s)
unfolding take_only
take_only-IsWithin eligible i [] s h w = w
take_only-IsWithin eligible i (j ∷ []) s h w =
    give-IsWithin eligible i j s (h j (ground (arith, beq_refl j))) w
take_only-IsWithin eligible i (j ∷ k ∷ ks) s h w = w

each-IsWithin {ℓ} :
    {K : Type ℓ} (eligible : List ℕ) (step : K → ℕ → State → State) (keys : List K) (i : ℕ)
    (s : State)
    → ((k : K) (n : ℕ) (u : State) → IsWithin eligible u → IsWithin eligible (step k n u))
    → IsWithin eligible s
    → IsWithin eligible (each step keys i s)
unfolding each
each-IsWithin eligible step [] i s h w = w
each-IsWithin eligible step (k ∷ keys) i s h w =
    each-IsWithin eligible step keys (suc i) (step k i s) h (h k i s w)

slots_of-none : (n x : ℕ) → count x (slots_of {A = ℕ} (replicate n none)) ≡ 0
slots_of-none zero x = refl
slots_of-none (suc n) x = slots_of-none n x

count-keep : (test : ℕ → Bool) (x : ℕ) (xs : List ℕ) → count x (keep test xs) ≤ count x xs
count-keep test x [] = omega arith
count-keep test x (y ∷ xs) = ground (arith, count-keep test x xs)

module _ (tags : List TrackTags) (targets : List TagSet) (eligible : List ℕ) where
  by_id-IsWithin :
      (ref : Option String) (i : ℕ) (s : State)
      → IsWithin eligible s
      → IsWithin eligible (by_id tags targets eligible ref i s)
  unfolding by_id
  by_id-IsWithin ref i s w = elim (Option-cases (settled_by tags targets eligible ref)) [
    | inl unsettled ↦ rw (unsettled, by_id) w
    | inr (slot, e) ↦ elim (Bool-cases (contains s.free slot)) [
      | inl here ↦ rw (e, by_id, here) (give-IsWithin eligible i slot s here w)
      | inr gone ↦ rw (e, by_id, gone) w
    ]
  ]

  by_recording-IsWithin :
      (open_slots : List ℕ) (recording : Option String) (i : ℕ) (s : State)
      → IsWithin eligible s
      → IsWithin eligible (by_recording tags targets eligible open_slots recording i s)
  unfolding by_recording
  by_recording-IsWithin open_slots recording i s w =
      elim (Bool-cases
        (truthy recording && count recording (recordings tags targets eligible) == 1)) [
          | inl one ↦ rw one (
              take_only-IsWithin eligible i _ s
                (λ j h. (keep-contains _ s.free j (keep-contains _ _ j h).0).0) w)
          | inr many ↦ rw many w
        ]

  by_occurrence-IsWithin :
      (open_slots : List ℕ) (keys : List (Option Occurrence)) (key : Option Occurrence) (i : ℕ)
      (s : State)
      → IsWithin eligible s
      → IsWithin eligible (by_occurrence tags targets eligible open_slots keys key i s)
  unfolding by_occurrence
  by_occurrence-IsWithin open_slots keys none i s w = w
  by_occurrence-IsWithin open_slots keys (some key) i s w =
      elim (Bool-cases (settles_occurrence keys key)) [
        | inl one ↦ rw one (
            take_only-IsWithin eligible i _ s
              (λ j h. (keep-contains _ s.free j (keep-contains _ _ j h).0).0) w)
        | inr many ↦ rw many w
      ]

  by_number-IsWithin :
      (keys : List (Option (Option ℕ × Option ℕ))) (key : Option (Option ℕ × Option ℕ)) (i : ℕ)
      (s : State)
      → IsWithin eligible s
      → IsWithin eligible (by_number tags targets eligible keys key i s)
  unfolding by_number
  by_number-IsWithin keys none i s w = w
  by_number-IsWithin keys (some number) i s w =
      elim (Bool-cases (settles_number tags targets eligible keys number)) [
        | inl one ↦
            rw one (take_only-IsWithin eligible i _ s (λ j h. (keep-contains _ s.free j h).0) w)
        | inr many ↦ rw many w
      ]

  occurring-IsWithin : IsWithin eligible (occurring tags targets eligible)
  unfolding occurring recorded identified start
  occurring-IsWithin =
      each-IsWithin eligible _ _ 0 _ (λ key i s w. by_occurrence-IsWithin _ _ key i s w)
        (each-IsWithin eligible _ _ 0 _ (λ recording i s w. by_recording-IsWithin _ recording i s w)
          (each-IsWithin eligible _ _ 0 _ (λ ref i s w. by_id-IsWithin ref i s w)
            (λ x. omega (arith, slots_of-none (length tags) x))))

  lone_once :
      (left free : List ℕ) (s : State) (x : ℕ)
      → free ≡ s.free
      → IsWithin eligible s
      → count x (slots_of (lone tags targets eligible left free s).slots) ≤ count x eligible
  unfolding lone
  lone_once [] free s x e w = omega (arith, w x)
  lone_once (i ∷ []) [] s x e w = omega (arith, w x)
  lone_once (i ∷ []) (j ∷ []) s x e w = omega (arith, w x, count-set x s.slots i j, ap (count x) e)
  lone_once (i ∷ []) (j ∷ k ∷ ks) s x e w = omega (arith, w x)
  lone_once (i ∷ l ∷ ls) free s x e w = omega (arith, w x)

  numbered_in-IsWithin :
      (s : State) → IsWithin eligible s → IsWithin eligible (numbered_in tags targets eligible s)
  unfolding numbered_in
  numbered_in-IsWithin s w =
      let valid : State = record {
        slots = s.slots;
        free = keep (λ j. not (is_invalid tags targets eligible j)) s.free;
      } in
      let keys = numbers tags targets eligible tags s.slots in
      each-IsWithin eligible (by_number tags targets eligible keys) keys 0 valid
        (λ key i u v. by_number-IsWithin keys key i u v)
        (λ y.
          omega (arith, w y, count-keep (λ j. not (is_invalid tags targets eligible j)) y s.free))

  propose_in_once :
      (s : State) (x : ℕ)
      → IsWithin eligible s
      → count x (slots_of (propose_in tags targets eligible s).slots) ≤ count x eligible
  unfolding propose_in
  propose_in_once s x w =
      elim (Bool-cases (length (keep (is_invalid tags targets eligible) s.free) == 0)) [
        | inl valid ↦
            rw valid (
              lone_once _ _ (numbered_in tags targets eligible s) x refl (numbered_in-IsWithin s w))
        | inr broken ↦ rw broken (omega (arith, numbered_in-IsWithin s w x))
      ]

  -- `pairs` gives no track to more files than the track stands among the eligible ones, with or
  -- without a proposal. So a track that is not eligible is given to no file, and one that stands
  -- there once to one file at most.
  pub pairs_once :
      (propose : Bool) (x : ℕ)
      → count x (slots_of (pairs tags targets eligible propose)) ≤ count x eligible
  unfolding pairs
  pairs_once true x = propose_in_once (occurring tags targets eligible) x occurring-IsWithin
  pairs_once false x = omega (arith, occurring-IsWithin x)
