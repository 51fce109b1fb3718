-- ===== src/Library/Index/Kept.antt =====
-- The indexes of src/harmonist/library_index.py speak of the sidecars, and each operation keeps it so.
use harmonist.Prelude.{
  ℕ, String, true, Option, none, some, List, ◌==◌, string_eq, nat_eq, option_eq, count, truthy,
  dict_get, dict_set, dict_pop, get-set, get-pop, bit, ◌≡◌, refl, beq_iff, beq_refl, arith,
}
use harmonist.Models.{Sidecar}
use harmonist.Library.Index.{
  Urls, Index, item_of, dirs_of, with_item, with_url, album_slug, index, deindex, deindex_old, hold,
  upsert, remove,
}
use harmonist.Library.Index.Lookups.{
  count-without_slug, count-with_slug, get-with_url, get-without_url, get-with_item,
  get-without_item,
}

abbrev pub url_at : Option Sidecar → Option String
url_at none = none
url_at (some sc) = sc.store_url

abbrev pub item_at : Option Sidecar → Option ℕ
item_at none = none
item_at (some sc) = item_of sc

module _ (urls : Urls) where
  abbrev pub slug_at : Option Sidecar → Option String
  slug_at none = none
  slug_at (some sc) = album_slug urls sc.store_url

  -- The three indexes speak of what the directories hold.
  pub record IsIndexOf (held : List (String × Sidecar)) (x : Index) : Type 0 where
    pub slugs :
        (slug d : String)
        → count d (dirs_of x.by_slug slug) ≡ bit (slug_at (dict_get held d) == some slug)
    pub links :
        (url d : String)
        → dict_get x.by_url url ≡ some d
        → (url_at (dict_get held d) ≡ some url) × (truthy (some url) ≡ true)
    pub items :
        (item : ℕ) (d : String)
        → dict_get x.by_item_id item ≡ some d
        → item_at (dict_get held d) ≡ some item

  pub IsIndexOf-same :
      (held held' : List (String × Sidecar)) (x : Index)
      → ((q : String) → dict_get held q ≡ dict_get held' q)
      → IsIndexOf held x
      → IsIndexOf held' x
  IsIndexOf-same held held' x same i = record {
    slugs = λ slug d. rw (← same d) (i.slugs slug d);
    links = λ url d h. rw (← same d) (i.links url d h);
    items = λ item d h. rw (← same d) (i.items item d h);
  }

  pub index-IsIndexOf :
      (dir : String) (sc : Sidecar) (held : List (String × Sidecar)) (x : Index)
      → dict_get held dir ≡ none
      → IsIndexOf held x
      → IsIndexOf (dict_set held dir sc) (index urls dir sc x)
  unfolding index with_url with_item
  index-IsIndexOf dir sc held x out i = record {
    slugs = λ slug d. ground (
      arith,
      count-with_slug dir (album_slug urls sc.store_url) x.by_slug slug d,
      i.slugs slug d,
      i.slugs slug dir,
      get-set held dir d sc,
      beq_iff dir d,
    );
    links = λ url d h. ground (
      arith,
      get-with_url dir sc.store_url x.by_url url,
      i.links url d,
      get-set held dir d sc,
      beq_iff dir d,
      beq_iff sc.store_url (some url),
    );
    items = λ item d h. ground (
      arith,
      get-with_item dir (item_of sc) x.by_item_id item,
      i.items item d,
      get-set held dir d sc,
      beq_iff dir d,
      beq_iff (item_of sc) (some item),
    );
  }

  deindex-IsIndexOf :
      (dir : String) (old : Sidecar) (held : List (String × Sidecar)) (x : Index)
      → dict_get held dir ≡ some old
      → IsIndexOf held x
      → IsIndexOf (dict_pop held dir) (deindex urls dir old x)
  unfolding deindex
  deindex-IsIndexOf dir old held x at i = record {
    slugs = λ slug d. ground (
      arith,
      count-without_slug dir (album_slug urls old.store_url) x.by_slug slug d,
      i.slugs slug d,
      get-pop held dir d,
      beq_iff dir d,
    );
    links = λ url d h. ground (
      arith,
      get-without_url dir old.store_url x.by_url url,
      i.links url d,
      get-pop held dir d,
      beq_iff dir d,
      beq_refl d,
      beq_iff old.store_url (some url),
    );
    items = λ item d h. ground (
      arith,
      get-without_item dir (item_of old) x.by_item_id item,
      i.items item d,
      get-pop held dir d,
      beq_iff dir d,
      beq_refl d,
      beq_iff (item_of old) (some item),
    );
  }

  deindex_old-IsIndexOf :
      (dir : String) (o : Option Sidecar) (held : List (String × Sidecar)) (x : Index)
      → dict_get held dir ≡ o
      → IsIndexOf held x
      → IsIndexOf (dict_pop held dir) (deindex_old urls dir o x)
  unfolding deindex_old
  deindex_old-IsIndexOf dir none held x at i =
      IsIndexOf-same held (dict_pop held dir) x
        (λ q. ground (arith, get-pop held dir q, beq_iff dir q)) i
  deindex_old-IsIndexOf dir (some old) held x at i = deindex-IsIndexOf dir old held x at i

  deindex_old-sidecars :
      (dir : String) (o : Option Sidecar) (x : Index)
      → (deindex_old urls dir o x).sidecars ≡ x.sidecars
  unfolding deindex_old deindex
  deindex_old-sidecars dir none x = refl
  deindex_old-sidecars dir (some old) x = refl

  pub upsert-IsIndexOf :
      (dir : String) (sc : Sidecar) (x : Index)
      → IsIndexOf x.sidecars x
      → IsIndexOf (upsert urls dir sc x).sidecars (upsert urls dir sc x)
  unfolding upsert index hold
  upsert-IsIndexOf dir sc x i =
      let y = deindex_old urls dir (dict_get x.sidecars dir) x in
      let kept = deindex_old-sidecars dir (dict_get x.sidecars dir) x in
      let j = deindex_old-IsIndexOf dir (dict_get x.sidecars dir) x.sidecars x refl i in
      let gone : dict_get (dict_pop x.sidecars dir) dir ≡ none =
        ground (arith, get-pop x.sidecars dir dir, beq_refl dir) in
      let k =
        index-IsIndexOf dir sc (dict_pop x.sidecars dir) (hold (dict_set y.sidecars dir sc) y) gone
          (record { slugs = j.slugs; links = j.links; items = j.items }) in
      IsIndexOf-same (dict_set (dict_pop x.sidecars dir) dir sc) (dict_set y.sidecars dir sc)
        (upsert urls dir sc x)
        (λ q. ground (
          arith,
          kept,
          get-set (dict_pop x.sidecars dir) dir q sc,
          get-set y.sidecars dir q sc,
          get-pop x.sidecars dir q,
        ))
        (record { slugs = k.slugs; links = k.links; items = k.items })

  pub remove-IsIndexOf :
      (dir : String) (x : Index)
      → IsIndexOf x.sidecars x
      → IsIndexOf (remove urls dir x).sidecars (remove urls dir x)
  unfolding remove hold
  remove-IsIndexOf dir x i =
      let y = hold (dict_pop x.sidecars dir) x in
      let j =
        deindex_old-IsIndexOf dir (dict_get x.sidecars dir) x.sidecars y refl
          (record { slugs = i.slugs; links = i.links; items = i.items }) in
      rw (deindex_old-sidecars dir (dict_get x.sidecars dir) y) j
