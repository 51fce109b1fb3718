-- ===== src/Downloads.antt =====
-- src/harmonist/pending_downloads.py and src/harmonist/redownloads.py: the purchases that wait for a
-- decision or a download. Each lock makes its operation one step on the module's dictionaries, whose
-- keys are purchases; `lower` and the time stamps' order are parameters of the listings.
pub mod Lifetimes
mod Tests
use harmonist.Prelude.{
  ℕ, zero, suc, String, Bool, true, false, not, Option, none, some, List, [], ◌∷◌, ◌==◌, nat_eq,
  map, length, keep, contains, sort_by, insert_by, if◌then◌else◌,
}

-- A dictionary by purchase.
module _ {ℓ} {V : Type ℓ} where
  unfoldable pub lookup : ℕ → List (ℕ × V) → Option V
  lookup k [] = none
  lookup k ((j, v) ∷ m) = let rest = lookup k m in if j == k then some v else rest

  unfoldable pub store : ℕ → V → List (ℕ × V) → List (ℕ × V)
  store k v [] = (k, v) ∷ []
  store k v ((j, w) ∷ m) = let rest = store k v m in if j == k then (j, v) ∷ m else (j, w) ∷ rest

  -- `m.pop(k, None)`, without its answer.
  unfoldable pub pop : ℕ → List (ℕ × V) → List (ℕ × V)
  pop k m = keep (λ (p : ℕ × V). not (p.0 == k)) m

  abbrev pub values : List (ℕ × V) → List V
  values m = map (λ p. p.1) m

  abbrev pub keys : List (ℕ × V) → List ℕ
  keys m = map (λ p. p.0) m

pub record PendingPurchase : Type 0 where
  pub item_id : ℕ
  pub band : String
  pub title : String
  pub url : String
  pub fmt : String

-- `_pending` and `_approved`.
pub record Downloads : Type 0 where
  pub pending : List (ℕ × PendingPurchase)
  pub approved : List ℕ

unfoldable pub fill_pending :
    List PendingPurchase → List (ℕ × PendingPurchase) → List (ℕ × PendingPurchase)
unfolding store
fill_pending [] m = m
fill_pending (p ∷ ps) m = fill_pending ps (store p.item_id p m)

unfoldable pub replace_all : List PendingPurchase → Downloads → Downloads
unfolding fill_pending
replace_all items d = record { pending = fill_pending items []; approved = d.approved }

unfoldable pub remove : ℕ → Downloads → Downloads
remove k d = record { pending = pop k d.pending; approved = d.approved }

unfoldable pub approve : ℕ → Downloads → Downloads
approve k d = record {
  pending = pop k d.pending;
  approved = if contains d.approved k then d.approved else k ∷ d.approved;
}

unfoldable pub is_approved : ℕ → Downloads → Bool
is_approved k d = contains d.approved k

unfoldable pub get_pending : ℕ → Downloads → Option PendingPurchase
get_pending k d = lookup k d.pending

-- `le` compares `(band.lower(), title.lower())`.
unfoldable pub all_pending :
    (PendingPurchase → PendingPurchase → Bool) → Downloads → List PendingPurchase
all_pending le d = sort_by le (values d.pending)

unfoldable pub count_pending : Downloads → ℕ
count_pending d = length d.pending

abbrev pub reset_downloads : Downloads
reset_downloads = record { pending = []; approved = [] }

pub record PendingRedownload : Type 0 where
  pub item_id : ℕ
  pub artist : String
  pub title : String
  pub url : String
  pub archive_name : String
  pub requested_at : ℕ

pub record CarriedMatch : Type 0 where
  pub mb_release_id : String
  pub incomplete : Bool
  pub added_at : Option ℕ

-- `_pending` and `_carried`.
pub record Redownloads : Type 0 where
  pub pending : List (ℕ × PendingRedownload)
  pub carried : List (ℕ × CarriedMatch)

unfoldable pub add : PendingRedownload → Option CarriedMatch → Redownloads → Redownloads
add entry match_ r = record {
  pending = store entry.item_id entry r.pending;
  carried = elim match_ [ none ↦ r.carried | some m ↦ store entry.item_id m r.carried ];
}

-- The answer, and the state without it.
unfoldable pub take_match : ℕ → Redownloads → Option CarriedMatch × Redownloads
take_match k r = (lookup k r.carried, record { pending = r.pending; carried = pop k r.carried })

unfoldable pub remove_redownload : ℕ → Redownloads → Redownloads
remove_redownload k r = record { pending = pop k r.pending; carried = pop k r.carried }

-- Each purchase that is present and pending is deleted.
unfoldable pub prune : List ℕ → Redownloads → Redownloads
prune present r = record {
  pending = keep (λ (p : ℕ × PendingRedownload). not (contains present p.0)) r.pending;
  carried = r.carried;
}

unfoldable pub awaited :
    (PendingRedownload → PendingRedownload → Bool) → Redownloads → List PendingRedownload
awaited le r = sort_by le (values r.pending)
