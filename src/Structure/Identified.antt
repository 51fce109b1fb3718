-- ===== src/Structure/Identified.antt =====
-- The first stage of `pairs`: what a release-track id gives its file.
use harmonist.Prelude.{
  ℕ, String, zero, suc, ◌≡◌, ◌≢◌, ◌<◌, refl, sym, ap, ◌∙◌, subst, not, Option, none, some, List, [],
  ◌∷◌, ◌==◌, nat_eq, string_eq, option_eq, keep, set, get_elem?, get_elem?-lt, length, contains,
  count, count-get_elem?, index?, index?-get_elem?, arith, beq_refl, inl, inr, Bool-cases,
  Option-cases, if◌then◌else◌, length-map, get_elem?-replicate,
}
use harmonist.Formats.{TrackTags, TagSet}
use harmonist.Structure.{
  State, give, disk_ids, mb_ids, release_track_id, settled_by, by_id, start, identified,
}
use harmonist.Structure.Frame.{each-skips, each-gives}
use harmonist.Structure.Steps.{by_id_unsettled, by_id_gives, by_id_gone, by_id-IsLocal}

count_two :
    (xs : List (Option String)) (i j : ℕ) (a : Option String)
    → get_elem? xs i ≡ some a
    → get_elem? xs j ≡ some a
    → i ≢ j
    → 1 < count a xs
count_two [] i j a h k ne = absurd (cc)
count_two (x ∷ xs) zero zero a h k ne = absurd (ne refl)
count_two (x ∷ xs) zero (suc j) a h k ne = ground (arith, count-get_elem? xs j a k, beq_refl a)
count_two (x ∷ xs) (suc i) zero a h k ne = ground (arith, count-get_elem? xs i a h, beq_refl a)
count_two (x ∷ xs) (suc i) (suc j) a h k ne =
    omega (arith, count_two xs i j a h k (λ e. ne (ap suc e)))

contains-remove :
    (xs : List ℕ) (j k : ℕ) → j ≢ k → contains (keep (λ x. not (x == j)) xs) k ≡ contains xs k
contains-remove [] j k ne = refl
contains-remove (x ∷ xs) j k ne = ground (arith, contains-remove xs j k ne)

set-here :
    (xs : List (Option ℕ)) (i : ℕ) (a : Option ℕ)
    → i < length xs
    → get_elem? (set xs i a) i ≡ some a
set-here [] i a h = elim h [ ]
set-here (x ∷ xs) zero a h = refl
set-here (x ∷ xs) (suc i) a h = set-here xs i a (omega arith)

module _ (tags : List TrackTags) (targets : List TagSet) (eligible : List ℕ) where
  settled_parts :
      (ref : Option String) (slot : ℕ)
      → settled_by tags targets eligible ref ≡ some slot
      → (count ref (disk_ids tags targets eligible) ≡ 1)
        × (index? ref (mb_ids tags targets eligible) ≡ some slot)
  unfolding settled_by
  settled_parts ref slot h = ground arith

  settled_same :
      (a b : Option String) (slot : ℕ)
      → settled_by tags targets eligible a ≡ some slot
      → settled_by tags targets eligible b ≡ some slot
      → a ≡ b
  settled_same a b slot h k =
      let p = index?-get_elem? a (mb_ids tags targets eligible) slot (settled_parts a slot h).1 in
      let q = index?-get_elem? b (mb_ids tags targets eligible) slot (settled_parts b slot k).1 in
      ap (λ o. elim o [ none ↦ a | some z ↦ z ]) (sym p ∙ q)

  other_track :
      (n j slot taken : ℕ) (ref other : Option String)
      → get_elem? (disk_ids tags targets eligible) n ≡ some ref
      → settled_by tags targets eligible ref ≡ some slot
      → get_elem? (disk_ids tags targets eligible) j ≡ some other
      → settled_by tags targets eligible other ≡ some taken
      → j ≢ n
      → taken ≢ slot
  other_track n j slot taken ref other at h at_j e ne same =
      let one = (settled_parts ref slot h).0 in
      let k : ref ≡ other =
        settled_same ref other slot h
          (subst (λ t. settled_by tags targets eligible other ≡ some t) same e) in
      omega (
        arith,
        count_two (disk_ids tags targets eligible) j n ref
            (subst (λ r. get_elem? (disk_ids tags targets eligible) j ≡ some r) (sym k) at_j) at ne,
        one,
      )

  -- The file of another id takes another track.
  by_id-leaves :
      (n slot : ℕ) (ref : Option String)
      → get_elem? (disk_ids tags targets eligible) n ≡ some ref
      → settled_by tags targets eligible ref ≡ some slot
      → (other : Option String) (j a : ℕ) (u : State)
      → get_elem? (disk_ids tags targets eligible) j ≡ some other
      → j ≢ n
      → contains u.free slot ≡ contains eligible slot
      → contains (by_id tags targets eligible other a u).free slot ≡ contains eligible slot
  unfolding give
  by_id-leaves n slot ref at h other j a u at_j ne same =
      elim (Option-cases (settled_by tags targets eligible other)) [
        | inl unsettled ↦
            ap (λ v. contains v.free slot)
              (by_id_unsettled tags targets eligible other a u unsettled)
            ∙ same
        | inr (taken, e) ↦ elim (Bool-cases (contains u.free taken)) [
          | inl here ↦
              ap (λ v. contains v.free slot)
                (by_id_gives tags targets eligible other a taken u e here)
              ∙ contains-remove u.free taken slot
                  (other_track n j slot taken ref other at h at_j e ne)
              ∙ same
          | inr gone ↦
              ap (λ v. contains v.free slot)
                (by_id_gone tags targets eligible other a taken u e gone)
              ∙ same
        ]
      ]

  -- What a release-track id gives its file.
  abbrev pub verdict : Option String → Option ℕ
  verdict ref = elim (settled_by tags targets eligible ref) [
    | none ↦ none
    | some slot ↦ if contains eligible slot then some slot else none
  ]

  start-free :
      (slot : ℕ) → contains (start tags targets eligible).free slot ≡ contains eligible slot
  unfolding start
  start-free slot = refl

  start-blank :
      (i : ℕ) → i < length tags → get_elem? (start tags targets eligible).slots i ≡ some none
  unfolding start
  start-blank i h = get_elem?-replicate (length tags) none i h

  pub length-tags :
      (i : ℕ) (ref : Option String)
      → get_elem? (disk_ids tags targets eligible) i ≡ some ref
      → i < length tags
  length-tags i ref at = omega (
    arith,
    get_elem?-lt (disk_ids tags targets eligible) i ref at,
    length-map (release_track_id tags targets eligible) tags,
  )

  given_here :
      (i slot : ℕ) (u : State)
      → get_elem? u.slots i ≡ some none
      → get_elem? (give i slot u).slots i ≡ some (some slot)
  unfolding give
  given_here i slot u blank = set-here u.slots i (some slot) (get_elem?-lt u.slots i none blank)

  -- The step of a file that an id settles, where its track is free or taken as at the start.
  settled-verdict :
      (i slot : ℕ) (ref : Option String) (u : State)
      → settled_by tags targets eligible ref ≡ some slot
      → contains u.free slot ≡ contains eligible slot
      → get_elem? u.slots i ≡ some none
      → get_elem? (by_id tags targets eligible ref i u).slots i ≡ some (verdict ref)
  settled-verdict i slot ref u e same blank = elim (Bool-cases (contains eligible slot)) [
    | inl here ↦
        ap (λ v. get_elem? v.slots i)
          (by_id_gives tags targets eligible ref i slot u e (same ∙ here))
        ∙ given_here i slot u blank
        ∙ ground (arith, e, here)
    | inr gone ↦
        ap (λ v. get_elem? v.slots i)
          (by_id_gone tags targets eligible ref i slot u e (same ∙ gone))
        ∙ blank
        ∙ ground (arith, e, gone)
  ]

  pub identified-verdict :
      (i : ℕ) (ref : Option String)
      → get_elem? (disk_ids tags targets eligible) i ≡ some ref
      → get_elem? (identified tags targets eligible).slots i ≡ some (verdict ref)
  unfolding identified
  identified-verdict i ref at = elim (Option-cases (settled_by tags targets eligible ref)) [
    | inl unsettled ↦
        each-skips (by_id tags targets eligible) (disk_ids tags targets eligible) 0 i i
          (start tags targets eligible) (by_id-IsLocal tags targets eligible) (omega arith)
          (λ k u at_k. by_id_unsettled tags targets eligible k i u (
            subst (λ r. settled_by tags targets eligible r ≡ none)
              (ap (λ o. elim o [ none ↦ ref | some z ↦ z ]) (sym at ∙ at_k)) unsettled))
        ∙ start-blank i (length-tags i ref at)
        ∙ ground (arith, unsettled)
    | inr (slot, e) ↦
        let (u, w, eq, same) =
          each-gives (by_id tags targets eligible) (disk_ids tags targets eligible) ref 0 i i
            (start tags targets eligible) (λ u. contains u.free slot ≡ contains eligible slot)
            (by_id-IsLocal tags targets eligible) (omega arith) at
            (λ other j a u at_j ne same. by_id-leaves i slot ref at e other j a u at_j ne same)
            (start-free slot) in
        eq ∙ settled-verdict i slot ref u e w (same ∙ start-blank i (length-tags i ref at))
  ]
