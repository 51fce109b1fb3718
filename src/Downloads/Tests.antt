-- ===== src/Downloads/Tests.antt =====
-- One purchase and one re-download, and the theorems of Downloads at them.
use harmonist.Prelude.{◌≡◌, refl, false, none, some, [], ◌∷◌, nat_eq}
use harmonist.Downloads.{
  PendingPurchase, Downloads, replace_all, PendingRedownload, CarriedMatch, Redownloads, add,
  take_match, fill_pending, store,
}
use harmonist.Downloads.Lifetimes.{prune_all, take_match_once}

abbrev purchase : PendingPurchase
purchase = record { item_id = 7; band = "Band"; title = "Title"; url = ""; fmt = "flac" }

abbrev waiting : Downloads
waiting = record { pending = (7, purchase) ∷ []; approved = [] }

abbrev entry : PendingRedownload
entry = record {
  item_id = 7;
  artist = "Band";
  title = "Title";
  url = "";
  archive_name = "a.zip";
  requested_at = 1;
}

abbrev carried : CarriedMatch
carried = record { mb_release_id = "release"; incomplete = false; added_at = none }

abbrev nothing : Redownloads
nothing = record { pending = []; carried = [] }

reported_twice : replace_all (purchase ∷ purchase ∷ []) waiting ≡ waiting
unfolding replace_all fill_pending store
reported_twice = refl

take_match_once_example :
    ((take_match 7 (prune_all ((7 ∷ []) ∷ []) (add entry (some carried) nothing))).0 ≡ some carried)
    × ((take_match 7
          (take_match 7 (prune_all ((7 ∷ []) ∷ []) (add entry (some carried) nothing))).1).0
        ≡ none)
take_match_once_example = take_match_once entry carried ((7 ∷ []) ∷ []) nothing
