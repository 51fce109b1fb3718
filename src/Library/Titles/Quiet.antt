-- ===== src/Library/Titles/Quiet.antt =====
-- When src/harmonist/library_titles.py asks for no recheck, against the titles that src/harmonist/transforms.py
-- writes under the choices that a tagging takes.
use harmonist.Prelude.{
  String, Bool, true, false, not, ◌&&◌, ◌||◌, Option, some, List, [], ◌∷◌, ◌==◌, string_eq,
  option_eq, any_of, every, contains, truthy, ◌≡◌, refl, sym, ◌∙◌, if_holds, ap, dict_get, arith,
  Option-cases, inl, inr,
}
use harmonist.Models.{Sidecar}
use harmonist.Transforms.{Release, TagTransforms, TaggingChoices, needs_disambiguation, album_title}
use harmonist.Library.{Album}
use harmonist.Library.Titles.{
  Titles, Membership, pair_eq, changed, group_of, member, membership, reset_from, upsert, observe,
  choices,
}
use harmonist.Library.Titles.Groups.{is_other, has_twin, changed_twin}

-- A change of the module's variables, with whether the callback is called.
pub data Step : Titles → Titles → Bool → Type 0 where
  resets :
      (albums : List Album) (t : Titles) → Step t (reset_from albums t).0 (reset_from albums t).1
  upserts :
      (path : String) (sidecar : Option Sidecar) (t : Titles) → Step t (upsert path sidecar t) false
  observes : (r : Release) (t : Titles) → Step t (observe r t).0 (observe r t).1

-- Changes of which none calls the callback.
pub data QuietRun (start : Titles) : Titles → Type 0 where
  stay : QuietRun start start
  then_ :
      (t t' : Titles) (called : Bool)
      → QuietRun start t
      → Step t t' called
      → called ≡ false
      → QuietRun start t'

-- What the published membership says of a release's twins, and whether a callback is set.
record IsLike (m g : String) (t t' : Titles) : Type 0 where
  same_twin : has_twin m g t.published ≡ has_twin m g t'.published
  same_callback : t.on_change ≡ t'.on_change

changed_like :
    (m g : String) (on : Bool) (before after : Membership)
    → on ≡ true
    → changed on before after ≡ false
    → has_twin m g before ≡ has_twin m g after
changed_like m g false before after set quiet = absurd (cc)
changed_like m g true before after set quiet = changed_twin before after m g quiet

step-IsLike :
    (m g : String) (t t' : Titles) (called : Bool)
    → Step t t' called
    → called ≡ false
    → t.on_change ≡ true
    → IsLike m g t t'
unfolding reset_from upsert observe
step-IsLike m g t t' called (resets albums k) quiet on = record {
  same_twin = changed_like m g t.on_change t.published (reset_from albums t).0.published on quiet;
  same_callback = refl;
}
step-IsLike m g t t' called (upserts path sidecar k) quiet on = record {
  same_twin = refl;
  same_callback = refl;
}
step-IsLike m g t t' called (observes s k) quiet on =
    if_holds (λ (x : Titles × Bool). x.1 ≡ false → IsLike m g t x.0)
      (dict_get t.observed_groups s.id == some s.group) _ _
      (λ seen q. record { same_twin = refl; same_callback = refl })
      (λ new q. record {
        same_twin = changed_like m g t.on_change t.published _ on q;
        same_callback = refl;
      })
      quiet

run-IsLike :
    (m g : String) (start t : Titles)
    → QuietRun start t
    → start.on_change ≡ true
    → IsLike m g start t
run-IsLike m g start t stay on = record { same_twin = refl; same_callback = refl }
run-IsLike m g start t (then_ k t' called run step quiet) on =
    let so_far = run-IsLike m g start k run on in
    let next = step-IsLike m g k t called step quiet (sym so_far.same_callback ∙ on) in
    record {
      same_twin = so_far.same_twin ∙ next.same_twin;
      same_callback = so_far.same_callback ∙ next.same_callback;
    }

membership_same :
    (t u : Titles)
    → ((mbid : String) → group_of t mbid ≡ group_of u mbid)
    → (excluding : List String) (paths : List (String × String))
    → membership t excluding paths ≡ membership u excluding paths
unfolding membership
membership_same t u same excluding [] = refl
membership_same t u same excluding ((path, mbid) ∷ paths) =
    ground (arith, same mbid, membership_same t u same excluding paths)

-- After a scan the membership that a tagging takes is the published one.
scanned_published :
    (albums : List Album) (t : Titles)
    → membership (reset_from albums t).0 [] (reset_from albums t).0.paths
      ≡ (reset_from albums t).0.published
unfolding reset_from group_of
scanned_published albums t =
    let scanned = (reset_from albums t).0 in
    let fresh : Titles = record {
      paths = scanned.paths;
      published_paths = scanned.paths;
      tag_groups = scanned.tag_groups;
      observed_groups = t.observed_groups;
      on_change = t.on_change;
      published = t.published;
    } in
    membership_same scanned fresh (λ mbid. refl) [] scanned.paths

-- The paths that a tagging leaves out are of copies of its own release.
abbrev pub all_own : String → List String → List (String × String) → Bool
all_own m excluding paths =
    every (λ (e : String × String). not (contains excluding e.0) || e.1 == m) paths

excluding_others :
    (m g : String) (t : Titles) (excluding : List String) (paths : List (String × String))
    → all_own m excluding paths ≡ true
    → any_of (is_other m g) (membership t excluding paths)
      ≡ any_of (is_other m g) (membership t [] paths)
unfolding membership member
excluding_others m g t excluding [] own = refl
excluding_others m g t excluding ((path, mbid) ∷ paths) own =
    elim (Option-cases (group_of t mbid)) [
      | inl none_ ↦ ground (arith, excluding_others m g t excluding paths)
      | inr (group, at) ↦ ground (arith, excluding_others m g t excluding paths)
    ]

needs_same :
    (r : Release) (g : String) (enabled : TagTransforms) (before after : Membership)
    → r.group ≡ some g
    → any_of (is_other r.id g) before ≡ any_of (is_other r.id g) after
    → needs_disambiguation r enabled before ≡ needs_disambiguation r enabled after
unfolding needs_disambiguation
needs_same r g enabled before after at same =
    rw at (ap (λ b. enabled.album_disambiguation_if_needed && truthy (some g) && b) same)

title_same :
    (r : Release) (enabled : TagTransforms) (before after : Membership)
    → needs_disambiguation r enabled before ≡ needs_disambiguation r enabled after
    → album_title r enabled before ≡ album_title r enabled after
unfolding album_title
title_same r enabled before after same = rw same refl

-- The state after a scan.
abbrev pub scanned : List Album → Titles → Titles
scanned albums t = (reset_from albums t).0

-- With the release in the library, leaving out its own copies changes no answer about its twins.
scanned_twin :
    (m g : String) (albums : List Album) (t : Titles) (excluding : List String)
    → all_own m excluding (scanned albums t).paths ≡ true
    → contains (membership (scanned albums t) [] (scanned albums t).paths) (m, g) ≡ true
    → any_of (is_other m g) (membership (scanned albums t) excluding (scanned albums t).paths)
      ≡ has_twin m g (scanned albums t).published
scanned_twin m g albums t excluding own there =
    let u = scanned albums t in
    excluding_others m g u excluding u.paths own
    ∙ (let whole : any_of (is_other m g) (membership u [] u.paths)
            ≡ has_twin m g (membership u [] u.paths) =
          ground (arith, there) in
        whole ∙ ap (has_twin m g) (scanned_published albums t))

-- Where a callback is set, a library is scanned, changes without a recheck being asked for, is scanned again,
-- and still none is asked for. Then the title of a release that is in the library with its group after both
-- scans is the same under the choices that a tagging takes after the one and after the other, whatever
-- settings are chosen, and whichever paths the tagging leaves out, as long as the library has none of them under
-- another release.
pub scans_same_title :
    (albums albums' : List Album) (t t' : Titles)
    → t.on_change ≡ true
    → QuietRun (scanned albums t) t'
    → (reset_from albums' t').1 ≡ false
    → (r : Release) (g : String) (settings : TaggingChoices) (excluding excluding' : List String)
    → r.group ≡ some g
    → contains (choices settings [] (scanned albums t)).library_releases (r.id, g) ≡ true
    → contains (choices settings [] (scanned albums' t')).library_releases (r.id, g) ≡ true
    → all_own r.id excluding (scanned albums t).paths ≡ true
    → all_own r.id excluding' (scanned albums' t').paths ≡ true
    → album_title r settings.transforms
        (choices settings excluding (scanned albums t)).library_releases
      ≡ album_title r settings.transforms
          (choices settings excluding' (scanned albums' t')).library_releases
unfolding choices reset_from
scans_same_title albums albums' t t' on run quiet r g settings excluding excluding' at was is own
      own' =
    let u = scanned albums t in
    let u' = scanned albums' t' in
    let whole : QuietRun u u' = QuietRun.then_ t' u' _ run (Step.resets albums' t') quiet in
    let kept : has_twin r.id g u.published ≡ has_twin r.id g u'.published =
      (run-IsLike r.id g u u' whole on).same_twin in
    title_same r settings.transforms (membership u excluding u.paths)
      (membership u' excluding' u'.paths)
      (needs_same r g settings.transforms (membership u excluding u.paths)
        (membership u' excluding' u'.paths) at
        (scanned_twin r.id g albums t excluding own was
          ∙ (kept ∙ sym (scanned_twin r.id g albums' t' excluding' own' is))))
