-- ===== src/Compare/Slots.antt =====
-- The slots that `compare.assign` gives: none twice, none out of range, as many as there can be.
use harmonist.Prelude.{
  ℕ, zero, suc, ◌+◌, ◌≤◌, ◌<◌, ◌≡◌, refl, ◌≢◌, inl, inr, not, Option, none, some, List, [], ◌∷◌,
  arith, nat_eq, count, contains, count-contains, slots_of, if◌then◌else◌, length, bit, min, ltb,
  range, keep, replicate, length-replicate, ◌++◌, ◌∙◌, length-append, count-append,
  length-range_from, count-range_from, contains-count, sum_counts-eq, sum_counts-eq-length,
  count_full,
}
use harmonist.Compare.{
  TrackIdentity, Key, key_eq, Rung, keys, get, visit, visit_all, index_unique, unique_slots, climb,
  fill, free_slots, ladder, assign, by_number, by_release_track_id,
}
use harmonist.Compare.Visits.{visit_cases}

module _ (rung : Rung) (slot_of : List (Key × ℕ)) (claims : List Key) where
  visit_all_balance :
      (x : ℕ) (fs : List TrackIdentity) (os : List (Option ℕ)) (taken : List ℕ)
      → count x (slots_of (visit_all rung slot_of claims fs os taken).0) + count x taken
        ≡ count x (slots_of os) + count x (visit_all rung slot_of claims fs os taken).1
  unfolding visit_all
  visit_all_balance x [] os taken = refl
  visit_all_balance x (f ∷ fs) [] taken = refl
  visit_all_balance x (f ∷ fs) (o ∷ os) taken = elim (visit_cases rung slot_of claims f o taken) [
    | inl same ↦ rw same (ground (arith, visit_all_balance x fs os taken))
    | inr (key, slot, g, open_, e) ↦
        rw e (rw open_ (ground (arith, visit_all_balance x fs os (slot ∷ taken))))
  ]

  visit_all_once :
      (x : ℕ) (fs : List TrackIdentity) (os : List (Option ℕ)) (taken : List ℕ)
      → count x taken ≤ 1
      → count x (visit_all rung slot_of claims fs os taken).1 ≤ 1
  unfolding visit_all
  visit_all_once x [] os taken h = h
  visit_all_once x (f ∷ fs) [] taken h = h
  visit_all_once x (f ∷ fs) (o ∷ os) taken h = elim (visit_cases rung slot_of claims f o taken) [
    | inl same ↦ rw same (visit_all_once x fs os taken h)
    | inr (key, slot, g, open_, e) ↦ rw e (
        visit_all_once x fs os (slot ∷ taken) (ground (arith, count-contains taken slot g.is_free)))
  ]

  visit_all_range :
      (x : ℕ) (fs : List TrackIdentity) (os : List (Option ℕ)) (taken : List ℕ)
      → ((key : Key) → get slot_of key ≢ some x)
      → count x taken ≡ 0
      → count x (visit_all rung slot_of claims fs os taken).1 ≡ 0
  unfolding visit_all
  visit_all_range x [] os taken out h = h
  visit_all_range x (f ∷ fs) [] taken out h = h
  visit_all_range x (f ∷ fs) (o ∷ os) taken out h =
      elim (visit_cases rung slot_of claims f o taken) [
        | inl same ↦ rw same (visit_all_range x fs os taken out h)
        | inr (key, slot, g, open_, e) ↦
            rw e (visit_all_range x fs os (slot ∷ taken) out (ground (arith, out key, g.known)))
      ]

  length-visit_all :
      (fs : List TrackIdentity) (os : List (Option ℕ)) (taken : List ℕ)
      → length (visit_all rung slot_of claims fs os taken).0 ≡ length os
  unfolding visit_all
  length-visit_all [] os taken = refl
  length-visit_all (f ∷ fs) [] taken = refl
  length-visit_all (f ∷ fs) (o ∷ os) taken =
      omega (arith, length-visit_all fs os (visit rung slot_of claims f o taken).1)

index_unique_range :
    (rung : Rung) (counts : List Key) (i : ℕ) (ts : List TrackIdentity) (key : Key) (s : ℕ)
    → get (index_unique rung counts i ts) key ≡ some s
    → s < i + length ts
unfolding index_unique get
index_unique_range rung counts i [] key s h = absurd (cc)
index_unique_range rung counts i (t ∷ ts) key s h =
    ground (arith, index_unique_range rung counts (suc i) ts key s)

-- `out` and `taken` between two rungs, for a release of `n` tracks.
record IsSound (n : ℕ) (out : List (Option ℕ)) (taken : List ℕ) : Type 0 where
  balance : (x : ℕ) → count x (slots_of out) ≡ count x taken
  once : (x : ℕ) → count x taken ≤ 1
  range : (x : ℕ) → n ≤ x → count x taken ≡ 0

module _ (files tracks : List TrackIdentity) where
  climb-IsSound :
      (rung : Rung) (out : List (Option ℕ)) (taken : List ℕ)
      → IsSound (length tracks) out taken
      → IsSound
          (length tracks)
          (climb files tracks rung (out, taken)).0
          (climb files tracks rung (out, taken)).1
  unfolding climb
  climb-IsSound rung out taken s =
      let table = unique_slots tracks rung in
      let claims = keys rung files in
      record {
        balance =
            λ x. omega (arith, s.balance x, visit_all_balance rung table claims x files out taken);
        once = λ x. visit_all_once rung table claims x files out taken (s.once x);
        range = λ x le.
            visit_all_range rung table claims x files out taken
              (λ key e. omega (arith, index_unique_range rung (keys rung tracks) 0 tracks key x e))
              (s.range x le);
      }

slots_of-replicate : (n : ℕ) → slots_of (replicate {A = Option ℕ} n none) ≡ []
slots_of-replicate zero = refl
slots_of-replicate (suc n) = slots_of-replicate n

start-IsSound : (n m : ℕ) → IsSound n (replicate m none) []
start-IsSound n m = record {
  balance = λ x. rw slots_of-replicate;
  once = λ x. omega arith;
  range = λ x le. refl;
}

count-keep-free :
    (x : ℕ) (taken xs : List ℕ)
    → count x (keep (λ i. not (contains taken i)) xs) ≡ (if contains taken x then 0 else count x xs)
count-keep-free x taken [] = ground arith
count-keep-free x taken (y ∷ ys) = ground (arith, count-keep-free x taken ys)

count-fill :
    (x : ℕ) (os : List (Option ℕ)) (free : List ℕ)
    → count x (slots_of (fill os free)) ≤ count x (slots_of os) + count x free
unfolding fill
count-fill x [] free = omega arith
count-fill x (some s ∷ os) free = omega (arith, count-fill x os free)
count-fill x (none ∷ os) [] = count-fill x os []
count-fill x (none ∷ os) (i ∷ free) = omega (arith, count-fill x os free)

length-fill : (os : List (Option ℕ)) (free : List ℕ) → length (fill os free) ≡ length os
unfolding fill
length-fill [] free = refl
length-fill (some s ∷ os) free = omega (arith, length-fill os free)
length-fill (none ∷ os) [] = omega (arith, length-fill os [])
length-fill (none ∷ os) (i ∷ free) = omega (arith, length-fill os free)

length-slots_of-le : (os : List (Option ℕ)) → length (slots_of os) ≤ length os
length-slots_of-le [] = omega arith
length-slots_of-le (none ∷ os) = omega (arith, length-slots_of-le os)
length-slots_of-le (some s ∷ os) = omega (arith, length-slots_of-le os)

length-slots_of-fill :
    (os : List (Option ℕ)) (free : List ℕ)
    → length (slots_of (fill os free)) ≡ min (length os) (length (slots_of os) + length free)
unfolding fill
length-slots_of-fill [] free = omega arith
length-slots_of-fill (some s ∷ os) free = omega (arith, length-slots_of-fill os free)
length-slots_of-fill (none ∷ os) [] =
    omega (arith, length-slots_of-fill os [], length-slots_of-le os)
length-slots_of-fill (none ∷ os) (i ∷ free) = omega (arith, length-slots_of-fill os free)

module _ (files tracks : List TrackIdentity) where
  ladder-IsSound : IsSound (length tracks) (ladder files tracks).0 (ladder files tracks).1
  unfolding ladder
  ladder-IsSound =
      let first = climb files tracks by_release_track_id (replicate (length files) none, []) in
      climb-IsSound files tracks by_number first.0 first.1 (
        climb-IsSound files tracks by_release_track_id (replicate (length files) none) []
          (start-IsSound (length tracks) (length files)))

  length-ladder : length (ladder files tracks).0 ≡ length files
  unfolding ladder climb
  length-ladder =
      omega (arith, length-visit_all, length-replicate {A = Option ℕ} (length files) none)

  count-free_slots :
      (x : ℕ)
      → count x (free_slots (length tracks) (ladder files tracks).1)
        ≡ (if contains (ladder files tracks).1 x then 0 else bit (ltb x (length tracks)))
  unfolding free_slots
  count-free_slots x =
      let taken = (ladder files tracks).1 in
      ground (
        arith,
        count-keep-free x taken (range (length tracks)),
        count-range_from x 0 (length tracks),
      )

  -- Each slot is given to a file or left free, once.
  shared_out :
      (x : ℕ)
      → count x (slots_of (ladder files tracks).0)
          + count x (free_slots (length tracks) (ladder files tracks).1)
        ≡ bit (ltb x (length tracks))
  shared_out x =
      let (out, taken) = ladder files tracks in
      let s = ladder-IsSound in
      ground (
        arith,
        count-free_slots x,
        s.balance x,
        s.once x,
        (λ (le : length tracks ≤ x). s.range x le),
        contains-count taken x,
        count-contains taken x,
      )

  -- `assign` gives no track of the release to two files, and nothing that is not a track of it.
  pub assign_once : (x : ℕ) → count x (slots_of (assign files tracks)) ≤ bit (ltb x (length tracks))
  unfolding assign
  assign_once x =
      let (out, taken) = ladder files tracks in
      omega (arith, count-fill x out (free_slots (length tracks) taken), shared_out x)

  pub length-assign : length (assign files tracks) ≡ length files
  unfolding assign
  length-assign =
      let (out, taken) = ladder files tracks in
      length-fill out (free_slots (length tracks) taken) ∙ length-ladder

  all_shared :
      length (slots_of (ladder files tracks).0)
        + length (free_slots (length tracks) (ladder files tracks).1)
      ≡ length tracks
  all_shared =
      let (out, taken) = ladder files tracks in
      let free = free_slots (length tracks) taken in
      let n = length tracks in
      let both = slots_of out ++ free in
      omega (
        arith,
        length-append (slots_of out) free,
        sum_counts-eq-length n both
            (λ x le. ground (arith, shared_out x, count-append x (slots_of out) free)),
        sum_counts-eq-length n (range n) (λ x le. ground (arith, count-range_from x 0 n)),
        sum_counts-eq n both (range n) (λ x lt.
            ground
              (arith, shared_out x, count-append x (slots_of out) free, count-range_from x 0 n)),
        length-range_from 0 n,
      )

  -- `assign` makes as many pairs as there can be: the files with a track are as many as the smaller of
  -- the numbers of files and of tracks.
  assign_fills : length (slots_of (assign files tracks)) ≡ min (length files) (length tracks)
  unfolding assign
  assign_fills =
      let (out, taken) = ladder files tracks in
      let free = free_slots (length tracks) taken in
      omega (arith, length-slots_of-fill out free, length-ladder, all_shared)

  -- With as many files as tracks, each track has its file.
  pub assign_covers :
      (t : ℕ)
      → length files ≡ length tracks
      → t < length tracks
      → count t (slots_of (assign files tracks)) ≡ 1
  assign_covers t same lt =
      count_full (length tracks) t (slots_of (assign files tracks)) assign_once
        (omega (arith, assign_fills)) lt
