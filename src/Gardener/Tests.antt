-- ===== src/Gardener/Tests.antt =====
-- Routings of the levels, and the theorem of Gardener at one.
use harmonist.Prelude.{◌≡◌, refl, some, [], ◌∷◌}
use harmonist.Gardener.{
  cosmetic, enrichment, identity, structure, ranked, GardenerConfig, verdict_for, reviews, applies,
  library, outcome,
}

abbrev cautious : GardenerConfig
cautious = record { review_from = some structure; apply_up_to = some cosmetic }

cautious-outcome : outcome enrichment cautious ≡ library
unfolding outcome applies reviews ranked
cautious-outcome = refl

furthest : verdict_for (cosmetic ∷ identity ∷ enrichment ∷ []) ≡ some identity
unfolding verdict_for ranked
furthest = refl
