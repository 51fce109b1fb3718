-- ===== src/Library/Titles.antt =====
-- src/harmonist/library_titles.py: the releases of the library with their groups, and when a change of them
-- asks for a recheck. A set is a list of its members; the callback's calls are returned.
pub mod Groups
pub mod Quiet
use harmonist.Prelude.{
  ℕ, String, Bool, true, false, not, ◌&&◌, ◌||◌, Option, none, some, List, [], ◌∷◌, ◌++◌, ◌==◌,
  string_eq, option_eq, map, keep, any_of, contains, distinct, length, ltb, truthy, is_none,
  if◌then◌else◌, dict_get, dict_set, dict_pop, Compared, product_eq, ◌≡◌, beq_iff, beq_refl, arith,
}
use harmonist.Models.{Sidecar}
use harmonist.Transforms.{Release, TaggingChoices}
use harmonist.Library.{Album, folders}

-- `Membership`: pairs of a release and its group.
abbrev pub Membership : Type 0
Membership = List (String × String)

instance abbrev pub pair_eq : Compared (String × String)
pair_eq = product_eq

-- The module's variables; `on_change` says whether a callback is set.
pub record Titles : Type 0 where
  pub paths : List (String × String)
  pub published_paths : List (String × String)
  pub tag_groups : List (String × String)
  pub observed_groups : List (String × Option String)
  pub on_change : Bool
  pub published : Membership

-- `configure`, with or without a callback.
unfoldable pub configure : Bool → Titles
configure on_change = record {
  paths = [];
  published_paths = [];
  tag_groups = [];
  observed_groups = [];
  on_change = on_change;
  published = [];
}

-- `_observed_groups.get(mbid, _tag_groups.get(mbid))`
unfoldable pub group_of : Titles → String → Option String
group_of t mbid = elim (dict_get t.observed_groups mbid) [
  | none ↦ dict_get t.tag_groups mbid
  | some group ↦ group
]

-- The pair of one path, if its release has a group.
unfoldable pub member : String → Option String → Membership → Membership
member mbid none rest = rest
member mbid (some group) rest = if truthy (some group) then (mbid, group) ∷ rest else rest

unfoldable pub membership : Titles → List String → List (String × String) → Membership
unfolding member group_of
membership t excluding [] = []
membership t excluding ((path, mbid) ∷ paths) =
    let rest = membership t excluding paths in
    if contains excluding path then rest else member mbid (group_of t mbid) rest

-- `groups[group]`: the releases of a group.
unfoldable pub releases_of : String → Membership → List String
releases_of group [] = []
releases_of group ((mbid, g) ∷ members) =
    let rest = releases_of group members in if g == group then mbid ∷ rest else rest

-- `group in _multiple(members)`
unfoldable pub is_multiple : Membership → String → Bool
unfolding releases_of
is_multiple members group = ltb 1 (length (distinct (releases_of group members)))

-- `affected`: the groups of `before ^ after`.
unfoldable pub affected : Membership → Membership → List String
affected before after =
    map (λ (p : String × String). p.1)
      (keep (λ p. not (contains after p)) before ++ keep (λ p. not (contains before p)) after)

-- `_changed`: whether the callback is called.
unfoldable pub changed : Bool → Membership → Membership → Bool
unfolding affected is_multiple
changed on_change before after =
    on_change && any_of (λ g. is_multiple before g || is_multiple after g) (affected before after)

-- `groups.setdefault(mbid, set()).add(group)`
unfoldable pub add_group :
    List (String × List String) → String → String → List (String × List String)
add_group groups mbid group = elim (dict_get groups mbid) [
  | none ↦ dict_set groups mbid (group ∷ [])
  | some ids ↦ if contains ids group then groups else dict_set groups mbid (ids ++ group ∷ [])
]

unfoldable pub groups_from : List Album → List (String × List String) → List (String × List String)
unfolding add_group
groups_from [] groups = groups
groups_from (a ∷ albums) groups = groups_from albums (elim a.tagged_release_group [
  | none ↦ groups
  | some tagged ↦ add_group groups tagged.0 tagged.1
])

-- The groups that are their release's only one.
unfoldable pub settled_groups : List (String × List String) → List (String × String)
settled_groups [] = []
settled_groups ((mbid, []) ∷ groups) = settled_groups groups
settled_groups ((mbid, id ∷ []) ∷ groups) = (mbid, id) ∷ settled_groups groups
settled_groups ((mbid, id ∷ id' ∷ ids) ∷ groups) = settled_groups groups

-- `mbid` in the loop of `reset_from`.
unfoldable pub release_of : Album → Option String
release_of a = elim a.sidecar [
  | none ↦ elim a.tagged_release_group [ none ↦ none | some tagged ↦ some tagged.0 ]
  | some sc ↦ sc.mb_release_id
]

unfoldable pub set_all : List (String × String) → List String → String → List (String × String)
set_all paths [] mbid = paths
set_all paths (path ∷ more) mbid = set_all (dict_set paths path mbid) more mbid

unfoldable pub set_release :
    List (String × String) → List String → Option String → List (String × String)
unfolding set_all
set_release paths dirs none = paths
set_release paths dirs (some mbid) = if truthy (some mbid) then set_all paths dirs mbid else paths

unfoldable pub paths_from : List Album → List (String × String) → List (String × String)
unfolding set_release release_of
paths_from [] paths = paths
paths_from (a ∷ albums) paths = paths_from albums (set_release paths (folders a) (release_of a))

-- `reset_from`, with whether the callback is called.
unfoldable pub reset_from : List Album → Titles → Titles × Bool
unfolding changed membership paths_from groups_from settled_groups
reset_from albums t =
    let paths = paths_from albums [] in
    let fresh : Titles = record {
      paths = paths;
      published_paths = paths;
      tag_groups = settled_groups (groups_from albums []);
      observed_groups = t.observed_groups;
      on_change = t.on_change;
      published = t.published;
    } in
    let after = membership fresh [] paths in
    (
      record {
        paths = paths;
        published_paths = paths;
        tag_groups = fresh.tag_groups;
        observed_groups = t.observed_groups;
        on_change = t.on_change;
        published = after;
      },
      changed t.on_change t.published after,
    )

-- `upsert`
unfoldable pub upsert : String → Option Sidecar → Titles → Titles
upsert path sidecar t =
    let popped = dict_pop t.paths path in
    record {
      paths = elim sidecar [
        | none ↦ popped
        | some sc ↦ elim sc.mb_release_id [
          | none ↦ popped
          | some mbid ↦ if truthy (some mbid) then dict_set t.paths path mbid else popped
        ]
      ];
      published_paths = t.published_paths;
      tag_groups = t.tag_groups;
      observed_groups = t.observed_groups;
      on_change = t.on_change;
      published = t.published;
    }

-- `str(group) if group else None`
abbrev pub stored_group : Option String → Option String
stored_group group = if truthy group then group else none

-- `observe`, with whether the callback is called.
unfoldable pub observe : Release → Titles → Titles × Bool
unfolding changed membership
observe r t =
    let seen : Titles = record {
      paths = t.paths;
      published_paths = t.published_paths;
      tag_groups = t.tag_groups;
      observed_groups = dict_set t.observed_groups r.id (stored_group r.group);
      on_change = t.on_change;
      published = t.published;
    } in
    let after = membership seen [] t.published_paths in
    if dict_get t.observed_groups r.id == some r.group then (t, false) else (
      record {
        paths = t.paths;
        published_paths = t.published_paths;
        tag_groups = t.tag_groups;
        observed_groups = seen.observed_groups;
        on_change = t.on_change;
        published = after;
      },
      changed t.on_change t.published after,
    )

-- `choices`
unfoldable pub choices : TaggingChoices → List String → Titles → TaggingChoices
unfolding membership
choices settings excluding t = record {
  transforms = settings.transforms;
  standardize_artist_names = settings.standardize_artist_names;
  always_standardize_multivalue_artist = settings.always_standardize_multivalue_artist;
  library_releases = membership t excluding t.paths;
}
