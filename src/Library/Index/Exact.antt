-- ===== src/Library/Index/Exact.antt =====
-- That the lookups of src/harmonist/library_index.py answer from the sidecars of the library.
use harmonist.Prelude.{
  ℕ, String, Bool, false, not, ◌&&◌, Option, none, some, List, [], ◌∷◌, ◌==◌, string_eq, nat_eq,
  option_eq, map, count, is_none, dict_get, get-pop, bit, ◌≡◌, refl, inl, inr, beq_refl, arith,
  Option-cases,
}
use harmonist.Models.{Sidecar}
use harmonist.Library.Index.{
  Urls, Index, dirs_of, album_slug, deindex, deindex_old, hold, remove, dir_for_url, slug_copy,
  slug_copies,
}
use harmonist.Library.Index.Lookups.{get-without_url}
use harmonist.Library.Index.Kept.{url_at, item_at, slug_at}
use harmonist.Library.Index.Runs.{Reached, Reached-IsIndexOf}

module _ (urls : Urls) where
  -- The album in a directory has a store URL with the slug of a URL that has one.
  abbrev pub shares_slug : String → Option Sidecar → Bool
  shares_slug url o =
      not (is_none (album_slug urls (some url))) && slug_at urls o == album_slug urls (some url)

  count-copies :
      (url : String) (x : Index) (d : String) (dirs : List String)
      → count d (map (λ c. c.album_dir) (map (slug_copy urls url x) dirs)) ≡ count d dirs
  unfolding slug_copy
  count-copies url x d [] = refl
  count-copies url x d (q ∷ dirs) = omega (arith, count-copies url x d dirs)

  -- After any scans, whose albums stand in different directories, writes and deletions, the lookups
  -- answer from the sidecars alone: `slug_copies` lists once each directory whose store URL has the slug of
  -- the URL, and no other; a directory that `dir_for_url` gives holds that URL, and one that a
  -- purchase leads to is linked to it.
  pub lookups_exact :
      (x : Index)
      → Reached urls x
      → ((url d : String)
          → count d (map (λ c. c.album_dir) (slug_copies urls url x))
            ≡ bit (shares_slug url (dict_get x.sidecars d)))
        × ((url d : String)
            → dir_for_url url x ≡ some d
            → url_at (dict_get x.sidecars d) ≡ some url)
        × ((item : ℕ) (d : String)
            → dict_get x.by_item_id item ≡ some d
            → item_at (dict_get x.sidecars d) ≡ some item)
  unfolding slug_copies dir_for_url
  lookups_exact x r =
      let i = Reached-IsIndexOf urls x r in
      (
        λ url d. elim (Option-cases (album_slug urls (some url))) [
          | inl without ↦ ground arith
          | inr (slug, at) ↦
              ground (arith, count-copies url x d (dirs_of x.by_slug slug), i.slugs slug d)
        ],
        λ url d h. (i.links url d h).0,
        i.items,
      )

  -- Where two directories hold one store URL, removing the one that the URL leads to hides the other: the
  -- URL then leads nowhere, though the other still holds it.
  pub remove_hides :
      (dir other : String) (sc sc' : Sidecar) (url : String) (x : Index)
      → Reached urls x
      → dict_get x.sidecars dir ≡ some sc
      → dict_get x.sidecars other ≡ some sc'
      → dir == other ≡ false
      → sc'.store_url ≡ some url
      → dir_for_url url x ≡ some dir
      → (dir_for_url url (remove urls dir x) ≡ none)
        × (url_at (dict_get (remove urls dir x).sidecars other) ≡ some url)
  unfolding dir_for_url remove deindex_old deindex hold
  remove_hides dir other sc sc' url x r at at' apart u leads =
      let i = Reached-IsIndexOf urls x r in
      let (own, set) = i.links url dir leads in
      let held_url : sc.store_url ≡ some url = ground (arith, at, own) in
      rw at (
        ground (
          arith,
          held_url,
          get-without_url dir sc.store_url x.by_url url,
          beq_refl url,
          beq_refl dir,
        ),
        ground (arith, get-pop x.sidecars dir other),
      )
