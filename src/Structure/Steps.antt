-- ===== src/Structure/Steps.antt =====
-- The steps of `pairs` touch the slot of their own file alone.
use harmonist.Prelude.{
  ℕ, String, ◌≡◌, refl, ap, ◌∙◌, true, false, ◌&&◌, Option, none, some, List, ◌==◌, nat_eq,
  string_eq, option_eq, get_elem?, contains, count, inl, inr, Bool-cases, Option-cases, truthy,
}
use harmonist.Formats.{TrackTags, TagSet}
use harmonist.Structure.{
  State, give, settled_by, by_id, recordings, by_recording, by_occurrence, by_number, Occurrence,
  settles_occurrence, settles_number,
}
use harmonist.Structure.Frame.{IsLocal, take_only-local, get_elem?-set_other}

module _ (tags : List TrackTags) (targets : List TagSet) (eligible : List ℕ) where
  pub by_id_unsettled :
      (ref : Option String) (i : ℕ) (s : State)
      → settled_by tags targets eligible ref ≡ none
      → by_id tags targets eligible ref i s ≡ s
  unfolding by_id
  by_id_unsettled ref i s e = rw (e, by_id) refl

  pub by_id_gives :
      (ref : Option String) (i slot : ℕ) (s : State)
      → settled_by tags targets eligible ref ≡ some slot
      → contains s.free slot ≡ true
      → by_id tags targets eligible ref i s ≡ give i slot s
  unfolding by_id
  by_id_gives ref i slot s e h = rw (e, by_id, h) refl

  pub by_id_gone :
      (ref : Option String) (i slot : ℕ) (s : State)
      → settled_by tags targets eligible ref ≡ some slot
      → contains s.free slot ≡ false
      → by_id tags targets eligible ref i s ≡ s
  unfolding by_id
  by_id_gone ref i slot s e h = rw (e, by_id, h) refl

  pub by_id-IsLocal : IsLocal (by_id tags targets eligible)
  unfolding give
  by_id-IsLocal ref i n s ne = elim (Option-cases (settled_by tags targets eligible ref)) [
    | inl unsettled ↦ ap (λ u. get_elem? u.slots n) (by_id_unsettled ref i s unsettled)
    | inr (slot, e) ↦ elim (Bool-cases (contains s.free slot)) [
      | inl here ↦
          ap (λ u. get_elem? u.slots n) (by_id_gives ref i slot s e here)
          ∙ get_elem?-set_other s.slots i n (some slot) ne
      | inr gone ↦ ap (λ u. get_elem? u.slots n) (by_id_gone ref i slot s e gone)
    ]
  ]

  pub by_recording-IsLocal :
      (open_slots : List ℕ) → IsLocal (by_recording tags targets eligible open_slots)
  unfolding by_recording
  by_recording-IsLocal open_slots recording i n s ne =
      elim (Bool-cases
        (truthy recording && count recording (recordings tags targets eligible) == 1)) [
          | inl one ↦ rw one (take_only-local _ i n s ne)
          | inr many ↦ rw many refl
        ]

  pub by_occurrence-IsLocal :
      (open_slots : List ℕ) (keys : List (Option Occurrence))
      → IsLocal (by_occurrence tags targets eligible open_slots keys)
  unfolding by_occurrence
  by_occurrence-IsLocal open_slots keys none i n s ne = refl
  by_occurrence-IsLocal open_slots keys (some key) i n s ne =
      elim (Bool-cases (settles_occurrence keys key)) [
        | inl one ↦ rw one (take_only-local _ i n s ne)
        | inr many ↦ rw many refl
      ]

  pub by_number-IsLocal :
      (keys : List (Option (Option ℕ × Option ℕ))) → IsLocal (by_number tags targets eligible keys)
  unfolding by_number
  by_number-IsLocal keys none i n s ne = refl
  by_number-IsLocal keys (some number) i n s ne =
      elim (Bool-cases (settles_number tags targets eligible keys number)) [
        | inl one ↦ rw one (take_only-local _ i n s ne)
        | inr many ↦ rw many refl
      ]
