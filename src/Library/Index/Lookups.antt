-- ===== src/Library/Index/Lookups.antt =====
-- What a lookup in the indexes of src/harmonist/library_index.py sees of a change.
use harmonist.Prelude.{
  ℕ, ◌+◌, String, not, ◌&&◌, Option, none, some, List, [], ◌∷◌, ◌==◌, string_eq, nat_eq, option_eq,
  keep, contains, count, contains-count, truthy, if◌then◌else◌, dict_get, get-set, get-pop, bit,
  ◌≡◌, refl, inl, inr, beq_iff, arith, Option-cases,
}
use harmonist.Library.Index.{
  dirs_of, with_item, with_url, with_slug, without_item, without_url, discarded, without_slug,
}

-- What a set of one slug holds after its changes.
pub count-keep :
    (d dir : String) (dirs : List String)
    → count d (keep (λ q. not (q == dir)) dirs) ≡ (if dir == d then 0 else count d dirs)
count-keep d dir [] = ground arith
count-keep d dir (q ∷ dirs) =
    ground (arith, beq_iff q dir, beq_iff q d, beq_iff dir d, count-keep d dir dirs)

pub dirs_of-discarded :
    (by_slug : List (String × List String)) (slug q : String) (dirs : List String)
    → dirs_of (discarded by_slug slug dirs) q ≡ (if slug == q then dirs else dirs_of by_slug q)
unfolding discarded
dirs_of-discarded by_slug slug q [] = ground (arith, get-pop by_slug slug q)
dirs_of-discarded by_slug slug q (d ∷ dirs) = ground (arith, get-set by_slug slug q (d ∷ dirs))

pub count-without_slug :
    (dir : String) (s : Option String) (by_slug : List (String × List String)) (slug d : String)
    → count d (dirs_of (without_slug dir s by_slug) slug)
      ≡ (if s == some slug && dir == d then 0 else count d (dirs_of by_slug slug))
unfolding without_slug
count-without_slug dir none by_slug slug d = refl
count-without_slug dir (some s) by_slug slug d = elim (Option-cases (dict_get by_slug s)) [
  | inl absent ↦ ground (arith, beq_iff s slug)
  | inr (dirs, at) ↦ ground (
    arith,
    beq_iff s slug,
    dirs_of-discarded by_slug s slug (keep (λ q. not (q == dir)) dirs),
    count-keep d dir dirs,
  )
]

pub count-with_slug :
    (dir : String) (s : Option String) (by_slug : List (String × List String)) (slug d : String)
    → count dir (dirs_of by_slug slug) ≡ 0
    → count d (dirs_of (with_slug dir s by_slug) slug)
      ≡ count d (dirs_of by_slug slug) + bit (s == some slug && dir == d)
unfolding with_slug
count-with_slug dir none by_slug slug d out = omega arith
count-with_slug dir (some s) by_slug slug d out =
    let dirs = dirs_of by_slug s in
    ground (
      arith,
      beq_iff s slug,
      beq_iff dir d,
      get-set by_slug s slug (if contains dirs dir then dirs else dir ∷ dirs),
      contains-count dirs dir,
    )

pub get-with_url :
    (dir : String) (u : Option String) (by_url : List (String × String)) (q : String)
    → dict_get (with_url dir u by_url) q
      ≡ (if truthy u && u == some q then some dir else dict_get by_url q)
unfolding with_url
get-with_url dir none by_url q = refl
get-with_url dir (some u) by_url q = ground (arith, get-set by_url u q dir)

pub get-without_url :
    (dir : String) (u : Option String) (by_url : List (String × String)) (q : String)
    → dict_get (without_url dir u by_url) q ≡ (
        if truthy u && u == some q && dict_get by_url q == some dir
        then none
        else dict_get by_url q)
unfolding without_url
get-without_url dir none by_url q = refl
get-without_url dir (some u) by_url q = ground (arith, get-pop by_url u q, beq_iff u q)

pub get-with_item :
    (dir : String) (n : Option ℕ) (by_item_id : List (ℕ × String)) (q : ℕ)
    → dict_get (with_item dir n by_item_id) q
      ≡ (if n == some q then some dir else dict_get by_item_id q)
unfolding with_item
get-with_item dir none by_item_id q = refl
get-with_item dir (some n) by_item_id q = get-set by_item_id n q dir

pub get-without_item :
    (dir : String) (n : Option ℕ) (by_item_id : List (ℕ × String)) (q : ℕ)
    → dict_get (without_item dir n by_item_id) q
      ≡ (if n == some q && dict_get by_item_id q == some dir then none else dict_get by_item_id q)
unfolding without_item
get-without_item dir none by_item_id q = refl
get-without_item dir (some n) by_item_id q = ground (arith, get-pop by_item_id n q, beq_iff n q)
