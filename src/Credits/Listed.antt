-- ===== src/Credits/Listed.antt =====
-- That the lists of src/harmonist/credits.py hold what the relationships credit, once and in their order.
use harmonist.Prelude.{
  Bool, true, false, ◌&&◌, Option, none, some, List, [], ◌∷◌, ◌++◌, ◌==◌, string_eq, contains,
  if◌then◌else◌, ◌≡◌, refl, sym, ◌∙◌, ap, inl, inr, arith, Bool-cases,
}
use harmonist.Transforms.{TaggingChoices}
use harmonist.Credits.{
  Kind, composer, lyricist, writer, kind_beq, Person, Work, person_eq, work_eq, Relation, WorkEntry,
  WorkRelation, TrackCredits, people, add_person, credit_people, add_work, work_of, perform,
  perform_all, track_credits,
}
use harmonist.Credits.Firsts.{first_of, add_each, add_each-append, add_all_none}

abbrev pub list_of : Kind → TrackCredits → List Person
list_of composer c = c.composers
list_of lyricist c = c.lyricists
list_of writer c = c.writers

-- The people of one credit.
abbrev pub persons_of : Kind → List (Kind × Person) → List Person
persons_of k [] = []
persons_of k ((j, p) ∷ yielded) =
    let rest = persons_of k yielded in if kind_beq j k then p ∷ rest else rest

-- The people that the relationships of a performed work credit on the track: an instrumental performance
-- credits no lyricist.
abbrev pub offered : Bool → Kind → List (Kind × Person) → List Person
offered instrumental k yielded =
    if instrumental && kind_beq k lyricist then [] else persons_of k yielded

abbrev pub offers_of : Kind → TaggingChoices → WorkRelation → Option WorkEntry → List Person
offers_of k choices r none = []
offers_of k choices r (some w) =
    if r.type_ == "performance"
    then offered (contains r.attribute_list "instrumental") k
        (people choices w.artist_relation_list)
    else []

abbrev pub performances : Kind → TaggingChoices → List WorkRelation → List Person
performances k choices [] = []
performances k choices (r ∷ works) = offers_of k choices r r.work ++ performances k choices works

abbrev pub performed_of : WorkRelation → Option WorkEntry → List Work
performed_of r none = []
performed_of r (some w) = if r.type_ == "performance" then work_of w ∷ [] else []

abbrev pub performed : List WorkRelation → List Work
performed [] = []
performed (r ∷ works) = performed_of r r.work ++ performed works

credit_step :
    (k j : Kind) (instrumental : Bool) (p : Person) (yielded : List (Kind × Person))
    (c : TrackCredits)
    → add_each
        (list_of k (if instrumental && kind_beq j lyricist then c else add_person (j, p) c))
        (offered instrumental k yielded)
      ≡ add_each (list_of k c) (offered instrumental k ((j, p) ∷ yielded))
unfolding add_person
credit_step composer composer false p yielded c = refl
credit_step composer composer true p yielded c = refl
credit_step composer lyricist false p yielded c = refl
credit_step composer lyricist true p yielded c = refl
credit_step composer writer false p yielded c = refl
credit_step composer writer true p yielded c = refl
credit_step lyricist composer false p yielded c = refl
credit_step lyricist composer true p yielded c = refl
credit_step lyricist lyricist false p yielded c = refl
credit_step lyricist lyricist true p yielded c = refl
credit_step lyricist writer false p yielded c = refl
credit_step lyricist writer true p yielded c = refl
credit_step writer composer false p yielded c = refl
credit_step writer composer true p yielded c = refl
credit_step writer lyricist false p yielded c = refl
credit_step writer lyricist true p yielded c = refl
credit_step writer writer false p yielded c = refl
credit_step writer writer true p yielded c = refl

credit_people-list :
    (k : Kind) (instrumental : Bool) (yielded : List (Kind × Person)) (c : TrackCredits)
    → list_of k (credit_people instrumental yielded c)
      ≡ add_each (list_of k c) (offered instrumental k yielded)
unfolding credit_people
credit_people-list composer false [] c = refl
credit_people-list lyricist false [] c = refl
credit_people-list writer false [] c = refl
credit_people-list composer true [] c = refl
credit_people-list lyricist true [] c = refl
credit_people-list writer true [] c = refl
credit_people-list k instrumental ((j, p) ∷ yielded) c =
    credit_people-list k instrumental yielded
      (if instrumental && kind_beq j lyricist then c else add_person (j, p) c)
    ∙ credit_step k j instrumental p yielded c

credit_people-works :
    (instrumental : Bool) (yielded : List (Kind × Person)) (c : TrackCredits)
    → (credit_people instrumental yielded c).works ≡ c.works
unfolding credit_people add_person
credit_people-works instrumental [] c = refl
credit_people-works instrumental ((composer, p) ∷ yielded) c =
    credit_people-works instrumental yielded _ ∙ ground (arith, Bool-cases instrumental)
credit_people-works instrumental ((lyricist, p) ∷ yielded) c =
    credit_people-works instrumental yielded _ ∙ ground (arith, Bool-cases instrumental)
credit_people-works instrumental ((writer, p) ∷ yielded) c =
    credit_people-works instrumental yielded _ ∙ ground (arith, Bool-cases instrumental)

add_work-list : (k : Kind) (w : Work) (c : TrackCredits) → list_of k (add_work w c) ≡ list_of k c
unfolding add_work
add_work-list composer w c = refl
add_work-list lyricist w c = refl
add_work-list writer w c = refl

perform-list :
    (k : Kind) (choices : TaggingChoices) (r : WorkRelation) (o : Option WorkEntry)
    (c : TrackCredits)
    → list_of k (perform choices r o c) ≡ add_each (list_of k c) (offers_of k choices r o)
unfolding perform
perform-list k choices r none c = refl
perform-list k choices r (some w) c =
    let yielded = people choices w.artist_relation_list in
    let quiet = contains r.attribute_list "instrumental" in
    elim (Bool-cases (r.type_ == "performance")) [
      | inl at ↦ ground (
        arith,
        credit_people-list k quiet yielded (add_work (work_of w) c),
        add_work-list k (work_of w) c,
      )
      | inr past ↦ ground arith
    ]

perform-works :
    (choices : TaggingChoices) (r : WorkRelation) (o : Option WorkEntry) (c : TrackCredits)
    → (perform choices r o c).works ≡ add_each c.works (performed_of r o)
unfolding perform add_work
perform-works choices r none c = refl
perform-works choices r (some w) c =
    let yielded = people choices w.artist_relation_list in
    let quiet = contains r.attribute_list "instrumental" in
    elim (Bool-cases (r.type_ == "performance")) [
      | inl at ↦ ground (arith, credit_people-works quiet yielded (add_work (work_of w) c))
      | inr past ↦ ground arith
    ]

perform_all-list :
    (k : Kind) (choices : TaggingChoices) (works : List WorkRelation) (c : TrackCredits)
    → list_of k (perform_all choices works c)
      ≡ add_each (list_of k c) (performances k choices works)
unfolding perform_all
perform_all-list k choices [] c = refl
perform_all-list k choices (r ∷ works) c =
    perform_all-list k choices works (perform choices r r.work c)
    ∙ (ap (λ acc. add_each acc (performances k choices works)) (perform-list k choices r r.work c)
        ∙ sym (
            add_each-append (list_of k c) (offers_of k choices r r.work)
              (performances k choices works)))

perform_all-works :
    (choices : TaggingChoices) (works : List WorkRelation) (c : TrackCredits)
    → (perform_all choices works c).works ≡ add_each c.works (performed works)
unfolding perform_all
perform_all-works choices [] c = refl
perform_all-works choices (r ∷ works) c =
    perform_all-works choices works (perform choices r r.work c)
    ∙ (ap (λ acc. add_each acc (performed works)) (perform-works choices r r.work c)
        ∙ sym (add_each-append c.works (performed_of r r.work) (performed works)))

list_of-none :
    (k : Kind)
    → list_of k (record { composers = []; lyricists = []; writers = []; works = [] }) ≡ []
list_of-none composer = refl
list_of-none lyricist = refl
list_of-none writer = refl

-- Each list of people holds those that the release, then each performed work in turn, credits so, each where
-- it is credited first and once, and no lyricist of an instrumental performance; the works are those that
-- the track performs, each where it is performed first and once.
pub track_credits-first_of :
    (choices : TaggingChoices) (relations : List Relation) (works : List WorkRelation)
    → ((k : Kind)
        → list_of k (track_credits choices relations works)
          ≡ first_of (persons_of k (people choices relations) ++ performances k choices works))
      × ((track_credits choices relations works).works ≡ first_of (performed works))
unfolding track_credits
track_credits-first_of choices relations works =
    let nothing : TrackCredits = record {
      composers = [];
      lyricists = [];
      writers = [];
      works = [];
    } in
    let yielded = people choices relations in
    let start = credit_people false yielded nothing in
    (
      λ k.
          perform_all-list k choices works start
          ∙ (ap (λ acc. add_each acc (performances k choices works))
                (credit_people-list k false yielded nothing)
              ∙ (sym (
                    add_each-append (list_of k nothing) (persons_of k yielded)
                      (performances k choices works))
                  ∙ (ap (λ acc. add_each acc (persons_of k yielded ++ performances k choices works))
                        (list_of-none k)
                      ∙ add_all_none (persons_of k yielded ++ performances k choices works)))),
      perform_all-works choices works start
          ∙ (ap (λ acc. add_each acc (performed works)) (credit_people-works false yielded nothing)
              ∙ add_all_none (performed works)),
    )
