-- ===== src/Downloads/Lifetimes.antt =====
-- How long a purchase stays pending and a carried match stays to be taken.
use harmonist.Prelude.{
  ℕ, ◌≡◌, ◌≢◌, ◌≤◌, refl, ap, ◌∙◌, true, none, some, List, [], ◌∷◌, ◌==◌, nat_eq, beq_refl, count,
  arith, inl, inr, Bool-cases, if◌then◌else◌, max,
}
use harmonist.Downloads.{
  lookup, store, pop, keys, PendingPurchase, Downloads, fill_pending, replace_all, approve,
  is_approved, get_pending, PendingRedownload, CarriedMatch, Redownloads, add, take_match, prune,
}

module _ {ℓ} {V : Type ℓ} where
  lookup-pop : (k : ℕ) (m : List (ℕ × V)) → lookup k (pop k m) ≡ none
  unfolding lookup pop
  lookup-pop k [] = refl
  lookup-pop k ((j, v) ∷ m) = elim (Bool-cases (j == k)) [
    | inl here ↦ rw here (lookup-pop k m)
    | inr there ↦ rw there (rw there (lookup-pop k m))
  ]

  lookup-store : (k : ℕ) (v : V) (m : List (ℕ × V)) → lookup k (store k v m) ≡ some v
  unfolding lookup store
  lookup-store k v [] = ground arith
  lookup-store k v ((j, w) ∷ m) = elim (Bool-cases (j == k)) [
    | inl here ↦ ground arith
    | inr there ↦ ground (arith, lookup-store k v m)
  ]

  lookup-pop_other : (k n : ℕ) (m : List (ℕ × V)) → k ≢ n → lookup n (pop k m) ≡ lookup n m
  unfolding lookup pop
  lookup-pop_other k n [] ne = refl
  lookup-pop_other k n ((j, v) ∷ m) ne = elim (Bool-cases (j == k)) [
    | inl here ↦ rw here (lookup-pop_other k n m ne ∙ ground arith)
    | inr there ↦ rw there (ground (arith, lookup-pop_other k n m ne))
  ]

  -- A write makes a key of one that is none, and no second entry of one that is.
  count-store :
      (x k : ℕ) (v : V) (m : List (ℕ × V))
      → count x (keys (store k v m))
        ≡ (if k == x then max 1 (count x (keys m)) else count x (keys m))
  unfolding store
  count-store x k v [] = ground arith
  count-store x k v ((j, w) ∷ m) = ground (arith, count-store x k v m)

count-fill_pending :
    (x : ℕ) (items : List PendingPurchase) (m : List (ℕ × PendingPurchase))
    → count x (keys m) ≤ 1
    → count x (keys (fill_pending items m)) ≤ 1
unfolding fill_pending
count-fill_pending x [] m h = h
count-fill_pending x (p ∷ ps) m h =
    count-fill_pending x ps (store p.item_id p m) (ground (arith, count-store x p.item_id p m))

-- However often a sync reports a purchase, it is pending once.
replace_all_once :
    (x : ℕ) (items : List PendingPurchase) (d : Downloads)
    → count x (keys (replace_all items d).pending) ≤ 1
unfolding replace_all
replace_all_once x items d = count-fill_pending x items [] (omega arith)

-- An approved purchase is no longer pending and is approved, and any other purchase stays as it was.
approve_moves :
    (k n : ℕ) (d : Downloads)
    → k ≢ n
    → (get_pending k (approve k d) ≡ none)
      × (is_approved k (approve k d) ≡ true)
      × (get_pending n (approve k d) ≡ get_pending n d)
      × (is_approved n (approve k d) ≡ is_approved n d)
unfolding approve get_pending is_approved
approve_moves k n d ne = (
  lookup-pop k d.pending,
  ground (arith, beq_refl k),
  lookup-pop_other k n d.pending ne,
  ground arith,
)

-- Any number of scans, each with the purchases that it found.
pub prune_all : List (List ℕ) → Redownloads → Redownloads
prune_all [] r = r
prune_all (present ∷ scans) r = prune_all scans (prune present r)

prune_all-carried :
    (scans : List (List ℕ)) (r : Redownloads) → (prune_all scans r).carried ≡ r.carried
unfolding prune_all prune
prune_all-carried [] r = refl
prune_all-carried (present ∷ scans) r = prune_all-carried scans (prune present r)

-- The match that a re-download carries survives any scans that clear its card, and is answered
-- once: a second `take_match` finds nothing.
pub take_match_once :
    (entry : PendingRedownload) (m : CarriedMatch) (scans : List (List ℕ)) (r : Redownloads)
    → ((take_match entry.item_id (prune_all scans (add entry (some m) r))).0 ≡ some m)
      × ((take_match entry.item_id
            (take_match entry.item_id (prune_all scans (add entry (some m) r))).1).0
          ≡ none)
unfolding take_match add
take_match_once entry m scans r = (
  ap (lookup entry.item_id) (prune_all-carried scans (add entry (some m) r))
      ∙ lookup-store entry.item_id m r.carried,
  lookup-pop entry.item_id (prune_all scans (add entry (some m) r)).carried,
)
