-- ===== src/Library.antt =====
-- What the library keeps of its albums between scans: src/harmonist/library_titles.py and
-- src/harmonist/library_index.py. A path is a text.
pub mod Titles
pub mod Index
mod Tests
use harmonist.Prelude.{String, Option, List, [], ◌∷◌}
use harmonist.Models.{Sidecar}

-- What both read of an album. `paths` is empty where the album was built without them.
pub record Album : Type 0 where
  pub path : String
  pub paths : List String
  pub sidecar : Option Sidecar
  pub tagged_release_group : Option (String × String)

unfoldable pub folders : Album → List String
folders a = elim a.paths as (λ c. List String) [ [] ↦ a.path ∷ [] | p ∷ ps ↦ p ∷ ps ]
