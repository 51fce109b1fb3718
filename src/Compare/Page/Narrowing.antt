-- ===== src/Compare/Page/Narrowing.antt =====
-- The slots of the album page, against those of the ladder.
use harmonist.Prelude.{
  ℕ, zero, suc, ◌≤◌, ◌≡◌, refl, ◌⊎◌, inl, inr, true, Option, none, some, List, [], ◌∷◌, arith,
  nat_eq, string_eq, option_eq, truthy, count, slots_of, length, get_elem?, Bool-cases,
  Option-cases, String, map, index?, index?-get_elem?, length-map, get_elem?-map, get_elem?-map_inv,
  ◌∙◌, sym,
}
use harmonist.Formats.{TrackTags, TagSet}
use harmonist.Compare.{
  TrackIdentity, identity_of, of_tagset, by_id, key_eq, key_beq, assign, by_release_track_id,
}
use harmonist.Compare.Slots.{length-assign}
use harmonist.Compare.Rungs.{ids, assign-by_id}
use harmonist.Compare.Page.{confirm, confirm_all, identities, targets_of, page_slots}

-- Each entry of the first list is empty, or stands in the second at the same index.
abbrev pub Narrows : List (Option ℕ) → List (Option ℕ) → Type 0
Narrows [] [] = Unit
Narrows (o' ∷ os') (o ∷ os) = ((o' ≡ none) ⊎ (o' ≡ o)) × Narrows os' os
Narrows _ _ = ⊥

Narrows-refl : (os : List (Option ℕ)) → Narrows os os
Narrows-refl [] = tt
Narrows-refl (o ∷ os) = (inr refl, Narrows-refl os)

pub count-Narrows :
    (x : ℕ) (os' os : List (Option ℕ))
    → Narrows os' os
    → count x (slots_of os') ≤ count x (slots_of os)
count-Narrows x [] [] h = omega arith
count-Narrows x (o' ∷ os') [] h = absurd h
count-Narrows x [] (o ∷ os) h = absurd h
count-Narrows x (o' ∷ os') (none ∷ os) h = elim h.0 [
  | inl e ↦ rw e (count-Narrows x os' os h.1)
  | inr e ↦ rw e (count-Narrows x os' os h.1)
]
count-Narrows x (o' ∷ os') (some s ∷ os) h = elim h.0 [
  | inl e ↦ rw e (omega (arith, count-Narrows x os' os h.1))
  | inr e ↦ rw e (omega (arith, count-Narrows x os' os h.1))
]

pub length-Narrows : (os' os : List (Option ℕ)) → Narrows os' os → length os' ≡ length os
length-Narrows [] [] h = refl
length-Narrows (o' ∷ os') [] h = absurd h
length-Narrows [] (o ∷ os) h = absurd h
length-Narrows (o' ∷ os') (o ∷ os) h = omega (arith, length-Narrows os' os h.1)

-- `f` reads the release track id that `g` reads, on each item.
abbrev Reads {ℓ} : {A : Type ℓ} → (A → TrackIdentity) → (A → Option String) → List A → Type 0
Reads f g [] = Unit
Reads f g (a ∷ as_) = ((f a).release_track_id ≡ g a) × Reads f g as_

-- The two ways that the code counts an id agree.
count-ids {ℓ} :
    {A : Type ℓ} (f : A → TrackIdentity) (g : A → Option String) (ref : String) (l : List A)
    → Reads f g l
    → count (by_id ref) (ids (map f l)) ≡ count (some ref) (map g l)
unfolding by_release_track_id key_beq
count-ids f g ref [] h = refl
count-ids f g ref (a ∷ l) h = ground (arith, count-ids f g ref l h.1)

-- A file that could not be read has no tags.
abbrev pub Blank : List (String × TrackTags) → Type 0
Blank [] = Unit
Blank (t ∷ ts) = (t.1.unreadable ≡ true → t.1.release_track_id ≡ none) × Blank ts

Blank-Reads :
    (ts : List (String × TrackTags))
    → Blank ts
    → Reads (λ t. identity_of t.1) (λ t. t.1.release_track_id) ts
unfolding identity_of
Blank-Reads [] h = tt
Blank-Reads (t ∷ ts) h = (ground (arith, h.0), Blank-Reads ts h.1)

Blank-get_elem? :
    (ts : List (String × TrackTags)) (i : ℕ) (t : String × TrackTags)
    → Blank ts
    → get_elem? ts i ≡ some t
    → (identity_of t.1).release_track_id ≡ t.1.release_track_id
unfolding identity_of
Blank-get_elem? [] i t h at = absurd (cc)
Blank-get_elem? (t₀ ∷ ts) zero t h at = ground (arith, h.0)
Blank-get_elem? (t₀ ∷ ts) (suc i) t h at = Blank-get_elem? ts i t h.1 at

targets-Reads : (mb : List TagSet) → Reads of_tagset (λ t. t.mb_release_track_id) mb
unfolding of_tagset
targets-Reads [] = tt
targets-Reads (t ∷ ts) = (refl, targets-Reads ts)

module _ (ids disk_ids : List (Option String)) (mbid : String) where
  -- What the ladder has said of the files whose id names one track.
  abbrev Agrees : List (String × TrackTags) → List (Option ℕ) → Type 0
  Agrees ts slots =
      (i : ℕ) (t : String × TrackTags) (ref : String) (s : ℕ)
      → get_elem? ts i ≡ some t
      → t.1.release_track_id ≡ some ref
      → count (some ref) ids ≡ 1
      → count (some ref) disk_ids ≡ 1
      → index? (some ref) ids ≡ some s
      → get_elem? slots i ≡ some (some s)

  confirm_cases :
      (t : String × TrackTags) (slot : Option ℕ)
      → ((ref : String) (s : ℕ)
          → t.1.release_track_id ≡ some ref
          → count (some ref) ids ≡ 1
          → count (some ref) disk_ids ≡ 1
          → index? (some ref) ids ≡ some s
          → slot ≡ some s)
      → (confirm ids disk_ids mbid t.1 slot ≡ none) ⊎ (confirm ids disk_ids mbid t.1 slot ≡ slot)
  unfolding confirm
  confirm_cases t slot h = elim (Option-cases t.1.release_track_id) [
    | inl absent ↦ ground arith
    | inr (ref, e) ↦ elim (Option-cases (index? (some ref) ids)) [
      | inl missing ↦ ground arith
      | inr (s, at) ↦ ground (arith, h ref s)
    ]
  ]

  confirm_all-Narrows :
      (ts : List (String × TrackTags)) (slots : List (Option ℕ))
      → length ts ≡ length slots
      → Agrees ts slots
      → Narrows (confirm_all ids disk_ids mbid ts slots) slots
  unfolding confirm_all
  confirm_all-Narrows [] slots l h = Narrows-refl slots
  confirm_all-Narrows (t ∷ ts) [] l h = tt
  confirm_all-Narrows (t ∷ ts) (slot ∷ slots) l h = (
    confirm_cases t slot (λ ref s a b c d. ground (arith, h 0 t ref s refl a b c d)),
    confirm_all-Narrows ts slots (omega arith) (λ i t' ref s. h (suc i) t' ref s),
  )

-- On the page a file has the track that `assign` gives it, or none: confirming an album only ever
-- takes a pairing back.
pub page_slots-Narrows :
    (tracks : List (String × TrackTags)) (mb : List TagSet) (confirmed : Option String)
    → Blank tracks
    → Narrows (page_slots tracks mb confirmed) (assign (identities tracks) (targets_of mb))
unfolding page_slots
page_slots-Narrows tracks mb none b = Narrows-refl (assign (identities tracks) (targets_of mb))
page_slots-Narrows tracks mb (some mbid) b = elim (Bool-cases (truthy (some mbid))) [
  | inl named ↦ rw named narrowed
  | inr blank ↦ rw blank (Narrows-refl (assign (identities tracks) (targets_of mb)))
]
  where
    ref_of : String × TrackTags → Option String
    ref_of = λ t. t.1.release_track_id

    agrees :
        Agrees
          (map (λ t. t.mb_release_track_id) mb)
          (map ref_of tracks)
          mbid
          tracks
          (assign (identities tracks) (targets_of mb))
    agrees i t ref s at e one one' found =
        let (u, there, same) =
          get_elem?-map_inv (λ t. t.mb_release_track_id) mb s (some ref)
            (index?-get_elem? (some ref) _ s found) in
        assign-by_id (identities tracks) (targets_of mb) i s (identity_of t.1) (of_tagset u) ref
          (get_elem?-map (λ t. identity_of t.1) tracks i t at)
          (get_elem?-map of_tagset mb s u there) (Blank-get_elem? tracks i t b at ∙ e)
          (unfold of_tagset in same) (count-ids _ ref_of ref tracks (Blank-Reads tracks b) ∙ one')
          (count-ids of_tagset _ ref mb (targets-Reads mb) ∙ one)

    narrowed :
        Narrows
          (confirm_all
            (map (λ t. t.mb_release_track_id) mb)
            (map ref_of tracks)
            mbid
            tracks
            (assign (identities tracks) (targets_of mb)))
          (assign (identities tracks) (targets_of mb))
    narrowed =
        confirm_all-Narrows _ _ mbid tracks _
          (sym (length-assign (identities tracks) (targets_of mb) ∙ length-map _ tracks)) agrees
