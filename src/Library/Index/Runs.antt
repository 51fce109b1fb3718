-- ===== src/Library/Index/Runs.antt =====
-- The indexes of src/harmonist/library_index.py after any scans, writes and deletions.
use harmonist.Prelude.{
  String, Bool, true, not, ◌&&◌, Option, none, some, List, [], ◌∷◌, ◌==◌, string_eq, nat_eq,
  option_eq, every, is_none, dict_get, dict_set, get-set, ◌≡◌, refl, arith, Option-cases,
}
use harmonist.Models.{Sidecar}
use harmonist.Library.{Album}
use harmonist.Library.Index.{
  Urls, Index, cleared, index, hold, upsert, remove, add_album, add_all, reset_from,
}
use harmonist.Library.Index.Kept.{IsIndexOf, index-IsIndexOf, upsert-IsIndexOf, remove-IsIndexOf}

-- The directories of the albums differ.
abbrev pub paths_apart : List Album → Bool
paths_apart [] = true
paths_apart (a ∷ albums) = every (λ b. not (a.path == b.path)) albums && paths_apart albums

-- The index after any scans, writes and deletions.
pub data Reached (urls : Urls) : Index → Type 0 where
  clears : Reached urls cleared
  resets : (albums : List Album) → paths_apart albums ≡ true → Reached urls (reset_from urls albums)
  upserts :
      (dir : String) (sc : Sidecar) (x : Index)
      → Reached urls x
      → Reached urls (upsert urls dir sc x)
  removes : (dir : String) (x : Index) → Reached urls x → Reached urls (remove urls dir x)

module _ (urls : Urls) where
  -- None of the albums is held.
  abbrev all_new : List (String × Sidecar) → List Album → Bool
  all_new held albums = every (λ a. is_none (dict_get held a.path)) albums

  all_new-set :
      (held : List (String × Sidecar)) (dir : String) (sc : Sidecar) (albums : List Album)
      → all_new held albums ≡ true
      → every (λ b. not (dir == b.path)) albums ≡ true
      → all_new (dict_set held dir sc) albums ≡ true
  all_new-set held dir sc [] new apart = refl
  all_new-set held dir sc (a ∷ albums) new apart =
      ground (arith, get-set held dir a.path sc, all_new-set held dir sc albums)

  add_album-IsIndexOf :
      (dir : String) (o : Option Sidecar) (x : Index)
      → dict_get x.sidecars dir ≡ none
      → IsIndexOf urls x.sidecars x
      → IsIndexOf urls (add_album urls dir o x).sidecars (add_album urls dir o x)
  unfolding add_album index hold
  add_album-IsIndexOf dir none x out i = i
  add_album-IsIndexOf dir (some sc) x out i =
      index-IsIndexOf urls dir sc x.sidecars (hold (dict_set x.sidecars dir sc) x) out
        (record { slugs = i.slugs; links = i.links; items = i.items })

  add_album-new :
      (dir : String) (o : Option Sidecar) (x : Index) (albums : List Album)
      → all_new x.sidecars albums ≡ true
      → every (λ b. not (dir == b.path)) albums ≡ true
      → all_new (add_album urls dir o x).sidecars albums ≡ true
  unfolding add_album index hold
  add_album-new dir none x albums new apart = new
  add_album-new dir (some sc) x albums new apart = all_new-set x.sidecars dir sc albums new apart

  add_all-IsIndexOf :
      (albums : List Album) (x : Index)
      → paths_apart albums ≡ true
      → all_new x.sidecars albums ≡ true
      → IsIndexOf urls x.sidecars x
      → IsIndexOf urls (add_all urls albums x).sidecars (add_all urls albums x)
  unfolding add_all
  add_all-IsIndexOf [] x apart new i = i
  add_all-IsIndexOf (a ∷ albums) x apart new i =
      add_all-IsIndexOf albums (add_album urls a.path a.sidecar x) (ground arith)
        (add_album-new a.path a.sidecar x albums (ground arith) (ground arith))
        (add_album-IsIndexOf a.path a.sidecar x
          (ground (arith, Option-cases (dict_get x.sidecars a.path))) i)

  cleared-IsIndexOf : IsIndexOf urls [] cleared
  unfolding cleared
  cleared-IsIndexOf = record {
    slugs = λ slug d. refl;
    links = λ url d h. absurd (cc);
    items = λ item d h. absurd (cc);
  }

  all_new-none : (albums : List Album) → all_new [] albums ≡ true
  all_new-none [] = refl
  all_new-none (a ∷ albums) = all_new-none albums

  pub Reached-IsIndexOf : (x : Index) → Reached urls x → IsIndexOf urls x.sidecars x
  unfolding reset_from cleared
  Reached-IsIndexOf x clears = cleared-IsIndexOf
  Reached-IsIndexOf x (resets albums apart) =
      add_all-IsIndexOf albums cleared apart (all_new-none albums) cleared-IsIndexOf
  Reached-IsIndexOf x (upserts dir sc y r) = upsert-IsIndexOf urls dir sc y (Reached-IsIndexOf y r)
  Reached-IsIndexOf x (removes dir y r) = remove-IsIndexOf urls dir y (Reached-IsIndexOf y r)
