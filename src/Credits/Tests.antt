-- ===== src/Credits/Tests.antt =====
-- A song with its instrumental, and the theorem of Credits at it.
use harmonist.Prelude.{
  String, true, false, none, some, List, [], ◌∷◌, ◌++◌, string_eq, map, ◌≡◌, refl,
}
use harmonist.Transforms.{TaggingChoices, choice, none_, artist_spelling}
use harmonist.Credits.{
  Kind, Person, person_eq, work_eq, Relation, WorkEntry, WorkRelation, people, track_credits,
  relationships_answered,
}
use harmonist.Credits.Firsts.{first_of}
use harmonist.Credits.Listed.{list_of, persons_of, performances, performed, track_credits-first_of}

abbrev credits_of : String → String → Relation
credits_of type_ name = record {
  type_ = type_;
  artist = some (record { name = some name; sort_name = none; alias_list = [] });
  artist_id = some name;
  target_credit = none;
}

abbrev song : WorkEntry
song = record {
  title = some "Song";
  id = "w1";
  artist_relation_list =
      credits_of "composer" "Ann" ∷ credits_of "librettist" "Bob" ∷ credits_of "producer" "Cy" ∷ [];
}

abbrev performs : List String → WorkRelation
performs attributes = record {
  type_ = "performance";
  work = some song;
  attribute_list = attributes;
}

abbrev plain : TaggingChoices
plain = choice false none_ false

abbrev names_of : List Person → List String
names_of ps = map (λ p. p.name) ps

-- The composer is listed once, and the words were not performed.
instrumental_has_no_lyricist :
    (names_of
        (track_credits plain
          (credits_of "composer" "Ann" ∷ [])
          (performs ("instrumental" ∷ []) ∷ [])).composers
      ≡ ("Ann" ∷ []))
    × ((track_credits plain
          (credits_of "composer" "Ann" ∷ [])
          (performs ("instrumental" ∷ []) ∷ [])).lyricists
        ≡ [])
unfolding track_credits artist_spelling
instrumental_has_no_lyricist = (refl, refl)

-- 500 recording_count are answered, and 501 are not.
limit_is_answered :
    (relationships_answered (record { tracks = 499; data_tracks = 1 } ∷ []) ≡ true)
    × (relationships_answered (record { tracks = 499; data_tracks = 2 } ∷ []) ≡ false)
unfolding relationships_answered
limit_is_answered = (refl, refl)

track_credits-first_of_example :
    ((k : Kind)
      → list_of k (
          track_credits plain
            (credits_of "composer" "Ann" ∷ [])
            (performs [] ∷ performs ("instrumental" ∷ []) ∷ []))
        ≡ first_of (
            persons_of k (people plain (credits_of "composer" "Ann" ∷ []))
            ++ performances k plain (performs [] ∷ performs ("instrumental" ∷ []) ∷ [])))
    × ((track_credits plain
          (credits_of "composer" "Ann" ∷ [])
          (performs [] ∷ performs ("instrumental" ∷ []) ∷ [])).works
        ≡ first_of (performed (performs [] ∷ performs ("instrumental" ∷ []) ∷ [])))
track_credits-first_of_example =
    track_credits-first_of plain (credits_of "composer" "Ann" ∷ [])
      (performs [] ∷ performs ("instrumental" ∷ []) ∷ [])
