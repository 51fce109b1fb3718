-- ===== src/Library/Tests.antt =====
-- Two copies of an album and a label's page, and the theorems of Library at them.
use harmonist.Prelude.{
  ℕ, String, true, false, Option, none, some, List, [], ◌∷◌, ◌==◌, string_eq, nat_eq, option_eq,
  map, count, bit, if◌then◌else◌, dict_get, ◌≡◌, refl,
}
use harmonist.Models.{Sidecar}
use harmonist.Transforms.{Release, TaggingChoices, none_, album_title}
use harmonist.Library.{Album, folders}
use harmonist.Library.Titles.{Titles, pair_eq, configure, reset_from, upsert, changed, choices}
use harmonist.Library.Titles.Quiet.{Step, QuietRun, scanned, scans_same_title}
use harmonist.Library.Index.{
  Urls, Index, cleared, album_slug, store_host, dir_for_url, item_ids, remove, slug_copies,
  upsert as index_upsert,
}
use harmonist.Library.Index.Kept.{url_at, item_at}
use harmonist.Library.Index.Runs.{Reached}
use harmonist.Library.Index.Exact.{shares_slug, lookups_exact, remove_hides}

-- The URLs of the tests: one album on the artist's page and on a label's.
abbrev own_page : String
own_page = "https://gas.bandcamp.com/album/Pop"

abbrev label_page : String
label_page = "https://www.kompakt.bandcamp.com/album/pop"

abbrev few_urls : Urls
few_urls = record {
  segments =
      λ u. if u == own_page then some ("album" ∷ "Pop" ∷ []) else some ("album" ∷ "pop" ∷ []);
  hostname =
      λ u. if u == own_page then some "gas.bandcamp.com" else some "www.kompakt.bandcamp.com";
  lower = λ s. if s == "Pop" then "pop" else s;
}

abbrev linked_to : String → Option ℕ → Sidecar
linked_to url item = record {
  store_url = some url;
  bandcamp = some (record { item_id = item; candidate_item_ids = [] });
  mb_release_id = some "r1";
  temp_uid = none;
  purchase_unavailable = false;
  included_pregaps = [];
  video_media = none;
}

-- Two copies of one purchase, written one after the other, and the label's.
abbrev copies : Index
copies = index_upsert few_urls "copy" (linked_to own_page (some 7)) (
    index_upsert few_urls "label" (linked_to label_page none)
      (index_upsert few_urls "first" (linked_to own_page (some 7)) cleared))

copies-Reached : Reached few_urls copies
copies-Reached = Reached.upserts "copy" (linked_to own_page (some 7)) _ (
    Reached.upserts "label" (linked_to label_page none) _
      (Reached.upserts "first" (linked_to own_page (some 7)) _ Reached.clears))

copies_slugs :
    (map (λ c. c.album_dir) (slug_copies few_urls label_page copies)
      ≡ ("copy" ∷ "label" ∷ "first" ∷ []))
    × (map (λ c. c.same_host) (slug_copies few_urls label_page copies)
        ≡ (false ∷ true ∷ false ∷ []))
unfolding slug_copies index_upsert cleared album_slug store_host
copies_slugs = (refl, refl)

-- The purchase is no longer known as linked, though its first copy is.
removed_item : item_ids (remove few_urls "copy" copies) 7 ≡ false
unfolding item_ids remove index_upsert cleared
removed_item = refl

lookups_exact_example :
    ((url d : String)
      → count d (map (λ c. c.album_dir) (slug_copies few_urls url copies))
        ≡ bit (shares_slug few_urls url (dict_get copies.sidecars d)))
    × ((url d : String)
        → dir_for_url url copies ≡ some d
        → url_at (dict_get copies.sidecars d) ≡ some url)
    × ((item : ℕ) (d : String)
        → dict_get copies.by_item_id item ≡ some d
        → item_at (dict_get copies.sidecars d) ≡ some item)
lookups_exact_example = lookups_exact few_urls copies copies-Reached

remove_hides_example :
    (dir_for_url own_page (remove few_urls "copy" copies) ≡ none)
    × (url_at (dict_get (remove few_urls "copy" copies).sidecars "first") ≡ some own_page)
unfolding index_upsert dir_for_url cleared
remove_hides_example =
    remove_hides few_urls "copy" "first" (linked_to own_page (some 7)) (linked_to own_page (some 7))
      own_page copies copies-Reached refl refl refl refl refl

-- Albums that carry a release and its group.
abbrev tagged : String → String → String → Album
tagged dir mbid group = record {
  path = dir;
  paths = [];
  sidecar = none;
  tagged_release_group = some (mbid, group);
}

abbrev one_album : Titles
one_album = (reset_from (tagged "pop" "r1" "g1" ∷ []) (configure true)).0

abbrev pop : Release
pop = record { id = "r1"; title = "Pop"; group = some "g1"; disambiguation = some "remaster" }

-- Another release of the group asks for a recheck.
second_release_calls :
    (reset_from (tagged "pop" "r1" "g1" ∷ tagged "pop2" "r2" "g1" ∷ []) one_album).1 ≡ true
unfolding reset_from changed configure folders
second_release_calls = refl

-- One of another group does not.
abbrev next_scan : List Album
next_scan = tagged "pop" "r1" "g1" ∷ tagged "zauberberg" "r3" "g3" ∷ []

abbrev if_needed : TaggingChoices
if_needed = record {
  transforms = record { album_disambiguation = false; album_disambiguation_if_needed = true };
  standardize_artist_names = none_;
  always_standardize_multivalue_artist = false;
  library_releases = [];
}

-- Between the scans another copy is matched to a release.
abbrev matched_since : Titles
matched_since = upsert "zauberberg" (some (linked_to label_page none)) one_album

scans_same_title_example :
    album_title pop
      (if_needed.transforms)
      (choices if_needed ("pop" ∷ []) one_album).library_releases
    ≡ album_title pop
        (if_needed.transforms)
        (choices if_needed [] (scanned next_scan matched_since)).library_releases
unfolding reset_from configure folders changed choices upsert
scans_same_title_example =
    scans_same_title (tagged "pop" "r1" "g1" ∷ []) next_scan (configure true) matched_since refl
      (QuietRun.then_ one_album matched_since false QuietRun.stay
        (Step.upserts "zauberberg" (some (linked_to label_page none)) one_album) refl)
      refl pop "g1" if_needed ("pop" ∷ []) [] refl refl refl refl refl
