-- ===== src/Transforms.antt =====
-- src/harmonist/transforms.py: the spellings that a tagging may write, and models.py's title with a
-- disambiguation. A release, a credit and an alias are records of the entries that are read.
pub mod Spellings
mod Tests
use Prim.Native.Char.{Char, code}
use Prim.Native.String
use Prim.Native.String.{◌++◌}
use harmonist.Prelude.{
  ℕ, String, Bool, true, false, not, ◌&&◌, ◌||◌, Option, none, some, List, [], ◌∷◌, ◌==◌, string_eq,
  option_eq, nat_eq, leb, truthy, any_of, contains, if◌then◌else◌,
}

-- `str.isspace` of a character.
abbrev pub is_space : Char → Bool
is_space c =
    let n = code c in
    (leb 9 n && leb n 13)
    || (leb 28 n && leb n 32)
    || (leb 8192 n && leb n 8202)
    || contains (133 ∷ 160 ∷ 5760 ∷ 8232 ∷ 8233 ∷ 8239 ∷ 8287 ∷ 12_288 ∷ []) n

abbrev pub lstrip : String → String
lstrip String.[] = ""
lstrip (String.◌∷◌ c s) = let rest = lstrip s in if is_space c then rest else String.◌∷◌ c s

abbrev pub rstrip : String → String
rstrip String.[] = ""
rstrip (String.◌∷◌ c s) =
    let rest = rstrip s in if is_space c && rest == "" then "" else String.◌∷◌ c rest

abbrev pub strip : String → String
strip s = rstrip (lstrip s)

-- `x or ""`
abbrev pub or_empty : Option String → String
or_empty none = ""
or_empty (some s) = s

unfoldable pub title_with_disambiguation : Option String → Option String → Option String
title_with_disambiguation title disambiguation =
    let t = strip (or_empty title) in
    let d = strip (or_empty disambiguation) in
    if t == "" || d == "" then none else some (t ++ (" (" ++ (d ++ ")")))

-- The members of `TagTransform` that are enabled.
pub record TagTransforms : Type 0 where
  pub album_disambiguation : Bool
  pub album_disambiguation_if_needed : Bool

pub data ArtistNames : Type 0 where
  none_ variations all_ : ArtistNames

pub record TaggingChoices : Type 0 where
  pub transforms : TagTransforms
  pub standardize_artist_names : ArtistNames
  pub always_standardize_multivalue_artist : Bool
  pub library_releases : List (String × String)

pub record ArtistSpelling : Type 0 where
  pub name : String
  pub sort_name : String
  pub list_name : String

pub record Alias : Type 0 where
  pub alias : Option String
  pub sort_name : Option String
  pub type_ : Option String
  pub end_date : Option String

pub record Artist : Type 0 where
  pub name : Option String
  pub sort_name : Option String
  pub alias_list : List Alias

-- One entry of an artist credit.
pub record CreditEntry : Type 0 where
  pub name : Option String
  pub artist : Artist

pub record Release : Type 0 where
  pub id : String
  pub title : String
  pub group : Option String
  pub disambiguation : Option String

-- `a or b`
abbrev pub or_else : Option String → Option String → Option String
or_else a b = if truthy a then a else b

-- The names that count as one the artist went by: untyped aliases and artist names.
unfoldable pub is_name_type : Option String → Bool
is_name_type type_ = type_ == none || type_ == some "Artist name"

unfoldable pub is_former_alias : String → Alias → Bool
unfolding is_name_type
is_former_alias credited a =
    is_name_type a.type_
    && truthy a.end_date
    && (a.alias == some credited || a.sort_name == some credited)

unfoldable pub is_former_name : String → Artist → Bool
unfolding is_former_alias
is_former_name credited artist = any_of (is_former_alias credited) artist.alias_list

unfoldable pub standardizes : ArtistNames → String → Artist → Bool
unfolding is_former_name
standardizes none_ credited artist = false
standardizes all_ credited artist = true
standardizes variations credited artist = not (is_former_name credited artist)

-- The sort name of the first alias that `credited` is and that has one.
unfoldable pub alias_sort_name : List Alias → String → Option String
alias_sort_name [] credited = none
alias_sort_name (a ∷ rest) credited =
    let later = alias_sort_name rest credited in
    if a.alias == some credited && truthy a.sort_name then a.sort_name else later

unfoldable pub credited_name : CreditEntry → String
credited_name entry = or_empty (or_else entry.name entry.artist.name)

unfoldable pub artist_spelling : CreditEntry → TaggingChoices → ArtistSpelling
unfolding standardizes alias_sort_name credited_name
artist_spelling entry choices =
    let own_name = or_empty entry.artist.name in
    let own_sort = or_empty entry.artist.sort_name in
    let credited = credited_name entry in
    let own = standardizes choices.standardize_artist_names credited entry.artist in
    let name = if own then own_name else credited in
    record {
      name = name;
      sort_name =
          if own
          then own_sort
          else or_empty
              (or_else (alias_sort_name entry.artist.alias_list credited) entry.artist.sort_name);
      list_name = if choices.always_standardize_multivalue_artist then own_name else name;
    }

-- Another release of the release's group is in the library.
unfoldable pub needs_disambiguation : Release → TagTransforms → List (String × String) → Bool
needs_disambiguation release enabled library =
    enabled.album_disambiguation_if_needed
    && truthy release.group
    && any_of (λ (p : String × String). some p.1 == release.group && not (p.0 == release.id))
        library

unfoldable pub album_title : Release → TagTransforms → List (String × String) → String
unfolding title_with_disambiguation needs_disambiguation
album_title release enabled library =
    if enabled.album_disambiguation || needs_disambiguation release enabled library
    then elim (title_with_disambiguation (some release.title) release.disambiguation) [
      | none ↦ release.title
      | some title ↦ title
    ]
    else release.title

-- The choices without the conditional transform and without a library.
abbrev pub choice : Bool → ArtistNames → Bool → TaggingChoices
choice disambiguated names lists = record {
  transforms = record {
    album_disambiguation = disambiguated;
    album_disambiguation_if_needed = false;
  };
  standardize_artist_names = names;
  always_standardize_multivalue_artist = lists;
  library_releases = [];
}

unfoldable pub every_choice : List TaggingChoices
every_choice =
    choice false none_ false
    ∷ choice false none_ true
    ∷ choice false variations false
    ∷ choice false variations true
    ∷ choice false all_ false
    ∷ choice false all_ true
    ∷ choice true none_ false
    ∷ choice true none_ true
    ∷ choice true variations false
    ∷ choice true variations true
    ∷ choice true all_ false
    ∷ choice true all_ true
    ∷ []
