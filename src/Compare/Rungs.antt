-- ===== src/Compare/Rungs.antt =====
-- What the rungs of `compare.assign` decide: the release track id is a lookup, and an album that
-- says nothing is paired by file order.
use harmonist.Prelude.{
  ℕ, zero, suc, ◌+◌, ◌≤◌, ◌<◌, ◌≡◌, refl, inl, inr, false, not, Option, none, some, List, [], ◌∷◌,
  arith, ◌==◌, nat_eq, beq_refl, count, contains, if◌then◌else◌, length, get_elem?, Bool-cases,
  Option-cases, ltb, range_from, keep, replicate, length-replicate, take, get_elem?-replicate,
  get_elem?-lt, String, sym, ap,
}
use harmonist.Compare.{
  TrackIdentity, Key, by_id, key_eq, key_beq_iff, Rung, keys, get, visit, visit_all, index_unique,
  unique_slots, climb, fill, free_slots, ladder, assign, by_number, by_release_track_id,
}
use harmonist.Compare.Visits.{visit_cases, Gives}

module _ (rung : Rung) where
  -- A key that stands at an index is counted.
  count-keys :
      (ts : List TrackIdentity) (j : ℕ) (t : TrackIdentity) (key : Key)
      → get_elem? ts j ≡ some t
      → rung t ≡ some key
      → 0 < count key (keys rung ts)
  count-keys [] j t key at read = absurd (cc)
  count-keys (t₀ ∷ ts) zero t key at read = ground (arith, beq_refl key)
  count-keys (t₀ ∷ ts) (suc j) t key at read = ground (arith, count-keys ts j t key)

  count-keys-take :
      (ts : List TrackIdentity) (j : ℕ) (t : TrackIdentity) (key : Key)
      → get_elem? ts j ≡ some t
      → rung t ≡ some key
      → suc (count key (keys rung (take j ts))) ≤ count key (keys rung ts)
  count-keys-take [] j t key at read = absurd (cc)
  count-keys-take (t₀ ∷ ts) zero t key at read = ground (arith, beq_refl key)
  count-keys-take (t₀ ∷ ts) (suc j) t key at read = ground (arith, count-keys-take ts j t key)

  -- The track at `slot`, where the first of `ts` has index `i`, has the key.
  abbrev Names : List TrackIdentity → ℕ → Key → ℕ → Type 0
  Names ts i key slot =
      (j : ℕ) × (t : TrackIdentity) × (slot ≡ i + j)
      × (get_elem? ts j ≡ some t)
      × (rung t ≡ some key)

  Names-cons :
      (t : TrackIdentity) (ts : List TrackIdentity) (i : ℕ) (key : Key) (slot : ℕ)
      → Names ts (suc i) key slot
      → Names (t ∷ ts) i key slot
  Names-cons t ts i key slot (j, t', at, found, read) = (suc j, t', omega arith, found, read)

  -- What the table holds of a key is the index of a track with that key.
  index_unique-Names :
      (counts : List Key) (i : ℕ) (ts : List TrackIdentity) (key : Key) (slot : ℕ)
      → get (index_unique rung counts i ts) key ≡ some slot
      → Names ts i key slot
  unfolding index_unique get
  index_unique-Names counts i [] key slot h = absurd (cc)
  index_unique-Names counts i (t ∷ ts) key slot h =
      let later = λ (e : get (index_unique rung counts (suc i) ts) key ≡ some slot).
        Names-cons t ts i key slot (index_unique-Names counts (suc i) ts key slot e) in
      elim (Option-cases (rung t)) [
        | inl silent ↦ later (ground arith)
        | inr (k, read) ↦ elim (Bool-cases (count k counts == 1)) [
          | inl alone ↦ elim (Bool-cases (k == key)) [
            | inl same ↦ (0, t, ground arith, refl, ground (arith, key_beq_iff k key))
            | inr other ↦ later (ground arith)
          ]
          | inr shared ↦ later (ground arith)
        ]
      ]

  -- A key that one track alone has is in the table.
  index_unique_complete :
      (counts : List Key) (i : ℕ) (ts : List TrackIdentity) (j : ℕ) (t : TrackIdentity) (key : Key)
      → get_elem? ts j ≡ some t
      → rung t ≡ some key
      → count key counts ≡ 1
      → count key (keys rung ts) ≤ 1
      → get (index_unique rung counts i ts) key ≡ some (i + j)
  unfolding index_unique get
  index_unique_complete counts i [] j t key at read one suffix = absurd (cc)
  index_unique_complete counts i (t₀ ∷ ts) zero t key at read one suffix =
      ground (arith, beq_refl key)
  index_unique_complete counts i (t₀ ∷ ts) (suc j) t key at read one suffix =
      ground (arith, index_unique_complete counts (suc i) ts j t key, count-keys ts j t key)

module _ (rung : Rung) (slot_of : List (Key × ℕ)) (claims : List Key) where
  -- A slot that is given is kept.
  visit_all-keeps :
      (fs : List TrackIdentity) (os : List (Option ℕ)) (taken : List ℕ) (i s : ℕ)
      → get_elem? os i ≡ some (some s)
      → get_elem? (visit_all rung slot_of claims fs os taken).0 i ≡ some (some s)
  unfolding visit_all
  visit_all-keeps [] os taken i s h = h
  visit_all-keeps (f ∷ fs) [] taken i s h = absurd (cc)
  visit_all-keeps (f ∷ fs) (o ∷ os) taken zero s h =
      elim (visit_cases rung slot_of claims f o taken) [
        | inl same ↦ rw same h
        | inr (key, slot, g, open_, e) ↦ cc
      ]
  visit_all-keeps (f ∷ fs) (o ∷ os) taken (suc i) s h =
      visit_all-keeps fs os (visit rung slot_of claims f o taken).1 i s h

  -- A file that alone has the key of a slot which only that key names is given the slot.
  visit_all-Gives :
      (fs : List TrackIdentity) (os : List (Option ℕ)) (taken : List ℕ) (i : ℕ) (f : TrackIdentity)
      (key : Key) (slot : ℕ)
      → get_elem? fs i ≡ some f
      → get_elem? os i ≡ some none
      → Gives rung slot_of claims f taken key slot
      → count key (keys rung (take i fs)) ≡ 0
      → ((k : Key) → get slot_of k ≡ some slot → k ≡ key)
      → get_elem? (visit_all rung slot_of claims fs os taken).0 i ≡ some (some slot)
  unfolding visit_all visit
  visit_all-Gives [] os taken i f key slot at open_ g before only = absurd (cc)
  visit_all-Gives (f₀ ∷ fs) [] taken i f key slot at open_ g before only = absurd (cc)
  visit_all-Gives (f₀ ∷ fs) (o ∷ os) taken zero f key slot at open_ g before only =
      ground (arith, g.read, g.alone, g.known, g.is_free)
  visit_all-Gives (f₀ ∷ fs) (o ∷ os) taken (suc i) f key slot at open_ g before only =
      visit_all-Gives fs os (visit rung slot_of claims f₀ o taken).1 i f key slot at open_
        (record { read = g.read; alone = g.alone; known = g.known; is_free = still_free })
        (ground arith) only
    where
      still_free : contains (visit rung slot_of claims f₀ o taken).1 slot ≡ false
      still_free = elim (visit_cases rung slot_of claims f₀ o taken) [
        | inl same ↦ rw same g.is_free
        | inr (k, s, g₀, _, e) ↦
            rw e (ground (arith, g₀.read, g₀.known, g.is_free, only k, beq_refl key))
      ]

fill-keeps :
    (os : List (Option ℕ)) (free : List ℕ) (i s : ℕ)
    → get_elem? os i ≡ some (some s)
    → get_elem? (fill os free) i ≡ some (some s)
unfolding fill
fill-keeps [] free i s h = h
fill-keeps (some x ∷ os) free zero s h = h
fill-keeps (some x ∷ os) free (suc i) s h = fill-keeps os free i s h
fill-keeps (none ∷ os) free zero s h = cc
fill-keeps (none ∷ os) [] (suc i) s h = fill-keeps os [] i s h
fill-keeps (none ∷ os) (y ∷ free) (suc i) s h = fill-keeps os free i s h

-- The release track ids of a list of identities, as the first rung reads them.
abbrev pub ids : List TrackIdentity → List Key
ids = keys by_release_track_id

-- A file whose release track id no other file carries, and which exactly one track of the release
-- carries, is given that track by `assign`, wherever the two stand and whatever their numbers say.
pub assign-by_id :
    (files tracks : List TrackIdentity) (i j : ℕ) (file track : TrackIdentity) (ref : String)
    → get_elem? files i ≡ some file
    → get_elem? tracks j ≡ some track
    → file.release_track_id ≡ some ref
    → track.release_track_id ≡ some ref
    → count (by_id ref) (ids files) ≡ 1
    → count (by_id ref) (ids tracks) ≡ 1
    → get_elem? (assign files tracks) i ≡ some (some j)
unfolding assign ladder climb unique_slots by_release_track_id
assign-by_id files tracks i j file track ref at there fid tid alone unique =
    fill-keeps _ _ i j (visit_all-keeps by_number _ _ files _ _ i j first)
  where
    key : Key
    key = by_id ref

    only : (k : Key) → get (unique_slots tracks by_release_track_id) k ≡ some j → k ≡ key
    only k e =
        let (j', t, same, found, read) =
          index_unique-Names by_release_track_id (ids tracks) 0 tracks k j e in
        ground arith

    first :
        get_elem? (climb files tracks by_release_track_id (replicate (length files) none, [])).0 i
        ≡ some (some j)
    first =
        visit_all-Gives by_release_track_id (unique_slots tracks by_release_track_id) (ids files)
          files (replicate (length files) none) [] i file key j at
          (get_elem?-replicate (length files) none i (get_elem?-lt files i file at))
          (record {
            read = ground arith;
            alone = alone;
            known = ground (
              arith,
              index_unique_complete by_release_track_id (ids tracks) 0 tracks j track key there
                  (ground arith) unique (omega arith),
            );
            is_free = refl;
          })
          (ground (arith, count-keys-take by_release_track_id files i file key at)) only

-- A file that names neither a track of the release nor a number.
abbrev pub Silent : List TrackIdentity → Type 0
Silent [] = Unit
Silent (f ∷ fs) = (f.release_track_id ≡ none) × (f.track ≡ none) × Silent fs

visit_all-Silent :
    (rung : Rung) (slot_of : List (Key × ℕ)) (claims : List Key) (fs : List TrackIdentity)
    (os : List (Option ℕ)) (taken : List ℕ)
    → ((f : TrackIdentity) → f.release_track_id ≡ none → f.track ≡ none → rung f ≡ none)
    → length fs ≡ length os
    → Silent fs
    → visit_all rung slot_of claims fs os taken ≡ (os, taken)
unfolding visit_all visit
visit_all-Silent rung slot_of claims [] os taken h l s = refl
visit_all-Silent rung slot_of claims (f ∷ fs) [] taken h l s = absurd (omega arith)
visit_all-Silent rung slot_of claims (f ∷ fs) (some o ∷ os) taken h l s =
    rw (visit_all-Silent rung slot_of claims fs os taken h (omega arith) s.2)
visit_all-Silent rung slot_of claims (f ∷ fs) (none ∷ os) taken h l s =
    rw (h f s.0 s.1, visit)
      (rw (visit_all-Silent rung slot_of claims fs os taken h (omega arith) s.2))

ladder-Silent :
    (files tracks : List TrackIdentity)
    → Silent files
    → ladder files tracks ≡ (replicate (length files) none, [])
unfolding ladder climb by_release_track_id by_number
ladder-Silent files tracks s =
    let size = sym (length-replicate {A = Option ℕ} (length files) none) in
    rw
      (visit_all-Silent by_release_track_id _ _ files (replicate (length files) none) []
        (λ f a b. ground arith) size s)
      (visit_all-Silent by_number _ _ files (replicate (length files) none) []
        (λ f a b. ground arith) size s)

keep-all : (xs : List ℕ) → keep (λ i. not (contains [] i)) xs ≡ xs
keep-all [] = refl
keep-all (x ∷ xs) = ap (λ l. x ∷ l) (keep-all xs)

fill-range :
    (m start n i : ℕ)
    → i < m
    → get_elem? (fill (replicate m none) (range_from start n)) i
      ≡ some (if ltb i n then some (start + i) else none)
unfolding fill
fill-range zero start n i h = elim h [ ]
fill-range (suc m) start zero zero h = ground arith
fill-range (suc m) start zero (suc i) h = ground (arith, fill-range m start zero i)
fill-range (suc m) start (suc n) zero h = ground arith
fill-range (suc m) start (suc n) (suc i) h = ground (arith, fill-range m (suc start) n i)

-- Where no file carries a release track id or a track number, `assign` gives the i-th file the i-th
-- track, and no track to the files beyond the last one.
assign-in_order :
    (files tracks : List TrackIdentity) (i : ℕ)
    → Silent files
    → i < length files
    → get_elem? (assign files tracks) i ≡ some (if ltb i (length tracks) then some i else none)
unfolding assign free_slots
assign-in_order files tracks i s h =
    rw (ladder-Silent files tracks s)
      (rw keep-all (ground (arith, fill-range (length files) 0 (length tracks) i)))
