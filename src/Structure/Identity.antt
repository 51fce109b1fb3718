-- ===== src/Structure/Identity.antt =====
-- A release-track id decides the slot of its file, or it stays a conflict; a proposal only adds.
use harmonist.Prelude.{
  ℕ, zero, suc, ◌+◌, ◌≡◌, refl, sym, ap, ◌∙◌, subst, true, false, not, Option, none, some, List, [],
  ◌∷◌, ◌==◌, nat_eq, string_eq, option_eq, keep, get_elem?, length, contains, arith, inl, inr,
  Bool-cases, if◌then◌else◌,
}
use harmonist.Formats.{TrackTags, TagSet}
use harmonist.Structure.{
  State, is_remaining, numbers, is_invalid, disc_of, by_number, left_over, lone, occurring,
  numbered_in, propose_in, pairs,
}
use harmonist.Structure.Frame.{each-skips, get_elem?-set_other}
use harmonist.Structure.Steps.{by_number-IsLocal}

module _ (tags : List TrackTags) (targets : List TagSet) (eligible : List ℕ) where
  number_key : TrackTags → Option ℕ → Option (Option ℕ × Option ℕ)
  number_key tag slot =
      if is_remaining tags targets eligible tag slot
      then some (disc_of tags targets eligible tag, tag.track_num)
      else none

  numbers-at :
      (ts : List TrackTags) (slots : List (Option ℕ)) (i : ℕ) (key : Option (Option ℕ × Option ℕ))
      → get_elem? (numbers tags targets eligible ts slots) i ≡ some key
      → (tag : TrackTags) × (slot : Option ℕ) × (get_elem? ts i ≡ some tag)
        × (get_elem? slots i ≡ some slot)
        × (number_key tag slot ≡ key)
  unfolding numbers number_key
  numbers-at [] slots i key h = absurd (cc)
  numbers-at (t ∷ ts) [] i key h = absurd (cc)
  numbers-at (t ∷ ts) (slot ∷ slots) zero key h = (t, slot, refl, refl, cc)
  numbers-at (t ∷ ts) (slot ∷ slots) (suc i) key h = numbers-at ts slots i key h

  -- A file that is left over has a number.
  left_over-key :
      (keys : List (Option (Option ℕ × Option ℕ))) (slots : List (Option ℕ)) (i m : ℕ)
      → contains (left_over tags targets eligible keys slots i) m ≡ true
      → (n : ℕ) × (number : Option ℕ × Option ℕ) × (m ≡ i + n)
        × (get_elem? keys n ≡ some (some number))
  unfolding left_over
  left_over-key [] slots i m h = absurd (cc)
  left_over-key (none ∷ keys) [] i m h = absurd (cc)
  left_over-key (some k ∷ keys) [] i m h = absurd (cc)
  left_over-key (none ∷ keys) (slot ∷ slots) i m h =
      let (n, number, e, at) = left_over-key keys slots (suc i) m h in
      (suc n, number, omega (arith, e), at)
  left_over-key (some k ∷ keys) (some slot ∷ slots) i m h =
      let (n, number, e, at) = left_over-key keys slots (suc i) m h in
      (suc n, number, omega (arith, e), at)
  left_over-key (some k ∷ keys) (none ∷ slots) i m h = elim (Bool-cases (i == m)) [
    | inl here ↦ (0, k, ground arith, refl)
    | inr later ↦
        let (n, number, e, at) = left_over-key keys slots (suc i) m (ground arith) in
        (suc n, number, omega (arith, e), at)
  ]

  lone-skips :
      (left free : List ℕ) (s : State) (i : ℕ)
      → contains left i ≡ false
      → get_elem? (lone tags targets eligible left free s).slots i ≡ get_elem? s.slots i
  unfolding lone
  lone-skips [] free s i h = refl
  lone-skips (k ∷ []) [] s i h = refl
  lone-skips (k ∷ []) (j ∷ []) s i h =
      get_elem?-set_other s.slots k i (some j) (λ e. ground (arith, e))
  lone-skips (k ∷ []) (j ∷ l ∷ ls) s i h = refl
  lone-skips (k ∷ m ∷ ms) free s i h = refl

  numbered_in-skips :
      (s : State) (i : ℕ)
      → ((key : Option (Option ℕ × Option ℕ))
          → get_elem? (numbers tags targets eligible tags s.slots) i ≡ some key
          → key ≡ none)
      → get_elem? (numbered_in tags targets eligible s).slots i ≡ get_elem? s.slots i
  unfolding numbered_in by_number
  numbered_in-skips s i blank =
      let keys = numbers tags targets eligible tags s.slots in
      let valid : State = record {
        slots = s.slots;
        free = keep (λ j. not (is_invalid tags targets eligible j)) s.free;
      } in
      each-skips (by_number tags targets eligible keys) keys 0 i i valid
        (by_number-IsLocal tags targets eligible keys) (omega arith)
        (λ k u at.
          subst (λ z. by_number tags targets eligible keys z i u ≡ u) (sym (blank k at)) refl)

  left_absent :
      (keys : List (Option (Option ℕ × Option ℕ))) (slots : List (Option ℕ)) (i : ℕ)
      → ((key : Option (Option ℕ × Option ℕ)) → get_elem? keys i ≡ some key → key ≡ none)
      → contains (left_over tags targets eligible keys slots 0) i ≡ false
  left_absent keys slots i blank =
      elim (Bool-cases (contains (left_over tags targets eligible keys slots 0) i)) [
        | inr absent ↦ absent
        | inl present ↦
            let (n, number, e, at) = left_over-key keys slots 0 i present in
            let same : n ≡ i = omega (arith, e) in
            let none_there =
              blank (some number) (subst (λ a. get_elem? keys a ≡ some (some number)) same at) in
            absurd (cc)
      ]

  -- A proposal leaves a file for which it has no number.
  propose_in-skips :
      (s : State) (i : ℕ)
      → ((key : Option (Option ℕ × Option ℕ))
          → get_elem? (numbers tags targets eligible tags s.slots) i ≡ some key
          → key ≡ none)
      → get_elem? (propose_in tags targets eligible s).slots i ≡ get_elem? s.slots i
  unfolding propose_in
  propose_in-skips s i blank =
      let u = numbered_in tags targets eligible s in
      let keys = numbers tags targets eligible tags s.slots in
      let numbered = numbered_in-skips s i blank in
      elim (Bool-cases (length (keep (is_invalid tags targets eligible) s.free) == 0)) [
        | inl valid ↦ rw valid (
            lone-skips (left_over tags targets eligible keys u.slots 0) u.free u i
              (left_absent keys u.slots i blank)
            ∙ numbered)
        | inr broken ↦ rw broken numbered
      ]

  number_key-slot : (tag : TrackTags) (t : ℕ) → number_key tag (some t) ≡ none
  unfolding number_key is_remaining
  number_key-slot tag t = refl

  -- A proposal keeps what `pairs` settles without it: a file with a track keeps that track.
  pairs-keeps :
      (i t : ℕ)
      → get_elem? (pairs tags targets eligible false) i ≡ some (some t)
      → get_elem? (pairs tags targets eligible true) i ≡ some (some t)
  unfolding pairs
  pairs-keeps i t h =
      propose_in-skips (occurring tags targets eligible) i (λ key at.
        let (tag, slot, at_tag, at_slot, e) = numbers-at tags _ i key at in
        let has : slot ≡ some t = ap (λ o. elim o [ none ↦ slot | some z ↦ z ]) (sym at_slot ∙ h) in
        sym e ∙ ap (number_key tag) has ∙ number_key-slot tag t)
      ∙ h
