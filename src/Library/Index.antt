-- ===== src/Library/Index.antt =====
-- src/harmonist/library_index.py with the slugs and hosts of src/harmonist/url_recovery.py: the sidecars of the
-- library by directory, and the directories by purchase, store URL and slug. Its calls of library_titles.py are
-- in Library.Titles.
pub mod Lookups
pub mod Kept
pub mod Runs
pub mod Exact
use Prim.Native.String.{◌++◌}
use text.Mathlib.Text.{starts_with}
use harmonist.Prelude.{
  ℕ, String, Bool, true, false, not, ◌&&◌, ◌||◌, Option, none, some, List, [], ◌∷◌, ◌==◌, string_eq,
  nat_eq, option_eq, map, keep, contains, truthy, is_none, if◌then◌else◌, dict_get, dict_set,
  dict_pop,
}
use harmonist.Models.{Sidecar, BandcampInfo}
use harmonist.Library.{Album}

-- What `urllib.parse` reads of a URL, and `str.lower`: the parts of `urlparse(url).path.split("/")` that are not
-- empty and the host, both `none` where parsing raises.
pub record Urls : Type 0 where
  pub segments : String → Option (List String)
  pub hostname : String → Option String
  pub lower : String → String

-- The module's variables.
pub record Index : Type 0 where
  pub sidecars : List (String × Sidecar)
  pub by_item_id : List (ℕ × String)
  pub by_url : List (String × String)
  pub by_slug : List (String × List String)

pub record SlugCopy : Type 0 where
  pub album_dir : String
  pub linked : Bool
  pub same_host : Bool
  pub mb_release_id : Option String

-- `_clear_locked`
unfoldable pub cleared : Index
cleared = record { sidecars = []; by_item_id = []; by_url = []; by_slug = [] }

-- The last two parts of a path, where they are a kind and a slug.
unfoldable pub slug_of_parts : (String → String) → List String → Option String
slug_of_parts lower [] = none
slug_of_parts lower (a ∷ []) = none
slug_of_parts lower (a ∷ b ∷ []) =
    if a == "album" || a == "track" then some (a ++ ("/" ++ lower b)) else none
slug_of_parts lower (a ∷ b ∷ c ∷ parts) = slug_of_parts lower (b ∷ c ∷ parts)

-- `text.removeprefix("www.")`
abbrev pub without_www : String → String
without_www (String.◌∷◌ w (String.◌∷◌ w' (String.◌∷◌ w'' (String.◌∷◌ dot rest)))) =
    if starts_with (String.◌∷◌ w (String.◌∷◌ w' (String.◌∷◌ w'' (String.◌∷◌ dot rest)))) "www."
    then rest
    else String.◌∷◌ w (String.◌∷◌ w' (String.◌∷◌ w'' (String.◌∷◌ dot rest)))
without_www host = host

-- `sc.bandcamp.item_id`
abbrev pub item_of : Sidecar → Option ℕ
item_of sc = elim sc.bandcamp [ none ↦ none | some b ↦ b.item_id ]

-- `_by_slug.get(slug, set())`
abbrev pub dirs_of : List (String × List String) → String → List String
dirs_of by_slug slug = elim (dict_get by_slug slug) [ none ↦ [] | some dirs ↦ dirs ]

unfoldable pub with_item : String → Option ℕ → List (ℕ × String) → List (ℕ × String)
with_item dir none by_item_id = by_item_id
with_item dir (some item) by_item_id = dict_set by_item_id item dir

unfoldable pub with_url : String → Option String → List (String × String) → List (String × String)
with_url dir none by_url = by_url
with_url dir (some url) by_url = if truthy (some url) then dict_set by_url url dir else by_url

-- `_by_slug.setdefault(slug, set()).add(album_dir)`
unfoldable pub with_slug :
    String → Option String → List (String × List String) → List (String × List String)
with_slug dir none by_slug = by_slug
with_slug dir (some slug) by_slug =
    let dirs = dirs_of by_slug slug in
    dict_set by_slug slug (if contains dirs dir then dirs else dir ∷ dirs)

unfoldable pub without_item : String → Option ℕ → List (ℕ × String) → List (ℕ × String)
without_item dir none by_item_id = by_item_id
without_item dir (some item) by_item_id =
    if dict_get by_item_id item == some dir then dict_pop by_item_id item else by_item_id

unfoldable pub without_url :
    String → Option String → List (String × String) → List (String × String)
without_url dir none by_url = by_url
without_url dir (some url) by_url =
    if truthy (some url) && dict_get by_url url == some dir then dict_pop by_url url else by_url

-- `_by_slug[slug].discard(album_dir)`, and the slug where no directory is left.
unfoldable pub discarded :
    List (String × List String) → String → List String → List (String × List String)
discarded by_slug slug [] = dict_pop by_slug slug
discarded by_slug slug (d ∷ dirs) = dict_set by_slug slug (d ∷ dirs)

unfoldable pub without_slug :
    String → Option String → List (String × List String) → List (String × List String)
unfolding discarded
without_slug dir none by_slug = by_slug
without_slug dir (some slug) by_slug = elim (dict_get by_slug slug) [
  | none ↦ by_slug
  | some dirs ↦ discarded by_slug slug (keep (λ d. not (d == dir)) dirs)
]

unfoldable pub hold : List (String × Sidecar) → Index → Index
hold sidecars x = record {
  sidecars = sidecars;
  by_item_id = x.by_item_id;
  by_url = x.by_url;
  by_slug = x.by_slug;
}

unfoldable pub dir_for_url : String → Index → Option String
dir_for_url url x = dict_get x.by_url url

-- `item_ids`, as its members.
unfoldable pub item_ids : Index → ℕ → Bool
item_ids x item = not (is_none (dict_get x.by_item_id item))

module _ (urls : Urls) where
  unfoldable pub album_slug : Option String → Option String
  unfolding slug_of_parts
  album_slug none = none
  album_slug (some url) =
      if truthy (some url)
      then elim (urls.segments url) [ none ↦ none | some parts ↦ slug_of_parts urls.lower parts ]
      else none

  unfoldable pub store_host : Option String → Option String
  store_host none = none
  store_host (some url) =
      if truthy (some url)
      then elim (urls.hostname url) [
        | none ↦ none
        | some host ↦ let h = without_www (urls.lower host) in if h == "" then none else some h
      ]
      else none

  -- `_index`. An absent or empty URL has no slug.
  unfoldable pub index : String → Sidecar → Index → Index
  unfolding with_item with_url with_slug album_slug
  index dir sc x = record {
    sidecars = x.sidecars;
    by_item_id = with_item dir (item_of sc) x.by_item_id;
    by_url = with_url dir sc.store_url x.by_url;
    by_slug = with_slug dir (album_slug sc.store_url) x.by_slug;
  }

  -- `_deindex`
  unfoldable pub deindex : String → Sidecar → Index → Index
  unfolding without_item without_url without_slug album_slug
  deindex dir sc x = record {
    sidecars = x.sidecars;
    by_item_id = without_item dir (item_of sc) x.by_item_id;
    by_url = without_url dir sc.store_url x.by_url;
    by_slug = without_slug dir (album_slug sc.store_url) x.by_slug;
  }

  -- The `_deindex` of what a directory held.
  unfoldable pub deindex_old : String → Option Sidecar → Index → Index
  unfolding deindex
  deindex_old dir none x = x
  deindex_old dir (some old) x = deindex dir old x

  -- `upsert`
  unfoldable pub upsert : String → Sidecar → Index → Index
  unfolding index deindex_old hold
  upsert dir sc x =
      let y = deindex_old dir (dict_get x.sidecars dir) x in
      index dir sc (hold (dict_set y.sidecars dir sc) y)

  -- `remove`
  unfoldable pub remove : String → Index → Index
  unfolding deindex_old hold
  remove dir x = deindex_old dir (dict_get x.sidecars dir) (hold (dict_pop x.sidecars dir) x)

  -- One round of the loop of `reset_from`.
  unfoldable pub add_album : String → Option Sidecar → Index → Index
  unfolding index hold
  add_album dir none x = x
  add_album dir (some sc) x = index dir sc (hold (dict_set x.sidecars dir sc) x)

  unfoldable pub add_all : List Album → Index → Index
  unfolding add_album
  add_all [] x = x
  add_all (a ∷ albums) x = add_all albums (add_album a.path a.sidecar x)

  -- `reset_from`
  unfoldable pub reset_from : List Album → Index
  unfolding add_all cleared
  reset_from albums = add_all albums cleared

  -- One round of `slug_copies`.
  unfoldable pub slug_copy : String → Index → String → SlugCopy
  unfolding store_host
  slug_copy url x dir =
      let sc = dict_get x.sidecars dir in
      record {
        album_dir = dir;
        linked = elim sc [ none ↦ false | some s ↦ not (is_none (item_of s)) ];
        same_host = elim sc [
          | none ↦ false
          | some s ↦
              not (is_none (store_host (some url)))
              && store_host s.store_url == store_host (some url)
        ];
        mb_release_id = elim sc [ none ↦ none | some s ↦ s.mb_release_id ];
      }

  unfoldable pub slug_copies : String → Index → List SlugCopy
  unfolding slug_copy album_slug
  slug_copies url x = elim (album_slug (some url)) [
    | none ↦ []
    | some slug ↦ map (slug_copy url x) (dirs_of x.by_slug slug)
  ]
