-- ===== src/Models/Tests.antt =====
-- Titles and hosts, and the theorems of Models at them.
use harmonist.Prelude.{◌≡◌, refl, true, false, String, none, some, List, [], ◌∷◌}
use harmonist.Models.{codes, host_is, titles_match}

-- A lookalike host is not the store.
host_is_bandcamp :
    (host_is codes (some "band.bandcamp.com") (codes "bandcamp.com") ≡ true)
    × (host_is codes (some "notbandcamp.com") (codes "bandcamp.com") ≡ false)
    × (host_is codes none (codes "bandcamp.com") ≡ false)
unfolding host_is
host_is_bandcamp = (refl, refl, refl)

titles_match_editions :
    (titles_match ("selected" ∷ "works" ∷ "deluxe" ∷ []) ("selected" ∷ "works" ∷ []) ≡ true)
    × (titles_match ("works" ∷ "selected" ∷ []) ("selected" ∷ "works" ∷ []) ≡ false)
    × (titles_match [] [] ≡ false)
unfolding titles_match
titles_match_editions = (refl, refl, refl)

abbrev long_title : List String
long_title = "the" ∷ "album" ∷ []

abbrev short_title : List String
short_title = "album" ∷ []
