-- ===== src/Credits.antt =====
-- src/harmonist/credits.py: the people and the works that a release credits on a track. A relationship, a work
-- and an artist are records of the entries that are read.
pub mod Firsts
pub mod Listed
mod Tests
use harmonist.Prelude.{
  ℕ, ◌+◌, String, Bool, true, false, not, ◌&&◌, ◌||◌, Option, none, some, List, [], ◌∷◌, ◌++◌, ◌==◌,
  string_eq, length, leb, contains, truthy, if◌then◌else◌, Compared, ◌≡◌, beq_iff, beq_refl, arith,
}
use harmonist.Transforms.{Artist, CreditEntry, TaggingChoices, artist_spelling, or_empty}

pub data Kind : Type 0 where
  composer lyricist writer : Kind

abbrev pub kind_beq : Kind → Kind → Bool
kind_beq composer composer = true
kind_beq lyricist lyricist = true
kind_beq writer writer = true
kind_beq _ _ = false

pub record Person : Type 0 where
  pub name : String
  pub sort_name : String
  pub mbid : String

pub record Work : Type 0 where
  pub title : String
  pub mbid : String

-- `==` of the two dataclasses.
abbrev pub person_beq : Person → Person → Bool
person_beq p q = p.name == q.name && p.sort_name == q.sort_name && p.mbid == q.mbid

pub person_beq_refl : (p : Person) → person_beq p p ≡ true
person_beq_refl p = ground (arith, beq_refl p.name, beq_refl p.sort_name, beq_refl p.mbid)

pub person_beq→eq : (p q : Person) → person_beq p q ≡ true → p ≡ q
person_beq→eq p q h =
    ground (arith, beq_iff p.name q.name, beq_iff p.sort_name q.sort_name, beq_iff p.mbid q.mbid)

instance abbrev pub person_eq : Compared Person
person_eq = record { same = person_beq; same_self = person_beq_refl; same→eq = person_beq→eq }

abbrev pub work_beq : Work → Work → Bool
work_beq v w = v.title == w.title && v.mbid == w.mbid

pub work_beq_refl : (w : Work) → work_beq w w ≡ true
work_beq_refl w = ground (arith, beq_refl w.title, beq_refl w.mbid)

pub work_beq→eq : (v w : Work) → work_beq v w ≡ true → v ≡ w
work_beq→eq v w h = ground (arith, beq_iff v.title w.title, beq_iff v.mbid w.mbid)

instance abbrev pub work_eq : Compared Work
work_eq = record { same = work_beq; same_self = work_beq_refl; same→eq = work_beq→eq }

-- An entry of an `artist-relation-list`.
pub record Relation : Type 0 where
  pub type_ : String
  pub artist : Option Artist
  pub artist_id : Option String
  pub target_credit : Option String

-- `relation["work"]`
pub record WorkEntry : Type 0 where
  pub title : Option String
  pub id : String
  pub artist_relation_list : List Relation

-- An entry of a `work-relation-list`.
pub record WorkRelation : Type 0 where
  pub type_ : String
  pub work : Option WorkEntry
  pub attribute_list : List String

-- The tracks of a medium, its pregap included, and its data tracks.
pub record MediumTracks : Type 0 where
  pub tracks : ℕ
  pub data_tracks : ℕ

pub record TrackCredits : Type 0 where
  pub composers : List Person
  pub lyricists : List Person
  pub writers : List Person
  pub works : List Work

abbrev pub recording_limit : ℕ
recording_limit = 500

unfoldable pub recording_count : List MediumTracks → ℕ
recording_count [] = 0
recording_count (m ∷ media) = m.tracks + m.data_tracks + recording_count media

unfoldable pub relationships_answered : List MediumTracks → Bool
unfolding recording_count
relationships_answered media = leb (recording_count media) recording_limit

-- `_CREDIT_FOR_TYPE`
unfoldable pub kind_of : String → Option Kind
kind_of type_ =
    if type_ == "composer"
    then some composer
    else if type_ == "lyricist" || type_ == "librettist"
    then some lyricist
    else if type_ == "writer"
    then some writer
    else none

-- The person of a relationship.
unfoldable pub person : TaggingChoices → Relation → Artist → String → Person
person choices r artist id =
    let entry : CreditEntry = record {
      name = if truthy r.target_credit then r.target_credit else artist.name;
      artist = artist;
    } in
    let spelling = artist_spelling entry choices in
    record {
      name = spelling.name;
      sort_name = if spelling.sort_name == "" then spelling.name else spelling.sort_name;
      mbid = id;
    }

-- One round of `_people`: the relationship's credit and person, if it is in scope.
unfoldable pub named :
    TaggingChoices → Relation → Option Kind → Option Artist → Option String → List (Kind × Person)
unfolding person
named choices r (some kind) (some artist) (some id) =
    if truthy (some id) then (kind, person choices r artist id) ∷ [] else []
named choices r _ _ _ = []

-- `_people`
unfoldable pub people : TaggingChoices → List Relation → List (Kind × Person)
unfolding named kind_of
people choices [] = []
people choices (r ∷ relations) =
    named choices r (kind_of r.type_) r.artist r.artist_id ++ people choices relations

-- `if x not in xs: xs.append(x)`
abbrev pub add_new : {A : Type 0} ⦃e : Compared A⦄ → List A → A → List A
add_new xs x = if contains xs x then xs else xs ++ x ∷ []

unfoldable pub add_person : Kind × Person → TrackCredits → TrackCredits
add_person (composer, p) c = record {
  composers = add_new c.composers p;
  lyricists = c.lyricists;
  writers = c.writers;
  works = c.works;
}
add_person (lyricist, p) c = record {
  composers = c.composers;
  lyricists = add_new c.lyricists p;
  writers = c.writers;
  works = c.works;
}
add_person (writer, p) c = record {
  composers = c.composers;
  lyricists = c.lyricists;
  writers = add_new c.writers p;
  works = c.works;
}

-- `credit`, over what `_people` yields.
unfoldable pub credit_people : Bool → List (Kind × Person) → TrackCredits → TrackCredits
unfolding add_person
credit_people instrumental [] c = c
credit_people instrumental ((kind, p) ∷ yielded) c =
    credit_people instrumental yielded
      (if instrumental && kind_beq kind lyricist then c else add_person (kind, p) c)

unfoldable pub add_work : Work → TrackCredits → TrackCredits
add_work w c = record {
  composers = c.composers;
  lyricists = c.lyricists;
  writers = c.writers;
  works = add_new c.works w;
}

abbrev pub work_of : WorkEntry → Work
work_of w = record { title = or_empty w.title; mbid = w.id }

-- One round of the loop over the works.
unfoldable pub perform :
    TaggingChoices → WorkRelation → Option WorkEntry → TrackCredits → TrackCredits
unfolding credit_people people add_work
perform choices r none c = c
perform choices r (some w) c =
    if not (r.type_ == "performance")
    then c
    else credit_people (contains r.attribute_list "instrumental")
        (people choices w.artist_relation_list) (add_work (work_of w) c)

unfoldable pub perform_all : TaggingChoices → List WorkRelation → TrackCredits → TrackCredits
unfolding perform
perform_all choices [] c = c
perform_all choices (r ∷ relations) c = perform_all choices relations (perform choices r r.work c)

-- `track_credits`, of the release's relationships and the recording's works.
unfoldable pub track_credits : TaggingChoices → List Relation → List WorkRelation → TrackCredits
unfolding credit_people people perform_all
track_credits choices relations works = perform_all choices works (
    credit_people false (people choices relations)
      (record { composers = []; lyricists = []; writers = []; works = [] }))
