-- ===== src/Gardener/Routing.antt =====
-- Where the routing of src/harmonist/gardener.py sends an update.
use harmonist.Prelude.{ℕ, ◌≤◌, ◌≢◌, nat_eq, arith, Option-cases}
use harmonist.Gardener.{
  Significance, settings, structure, ranked, GardenerConfig, reviews, applies, Outcome, apply,
  review, library, outcome,
}

ranked_le : (level : Significance) → ranked level ≤ ranked structure
unfolding ranked
ranked_le settings = omega arith
ranked_le Significance.cosmetic = omega arith
ranked_le Significance.enrichment = omega arith
ranked_le Significance.identity = omega arith
ranked_le structure = omega arith

-- How much of a person an outcome asks for.
abbrev pub caution : Outcome → ℕ
caution apply = 0
caution library = 1
caution review = 2

-- No level is handled less cautiously than one that reaches less far: applied, then left in the library,
-- then reviewed, whatever the thresholds; and an update of the structure is never applied.
outcome_rises :
    (low high : Significance) (routing : GardenerConfig)
    → ranked low ≤ ranked high
    → (caution (outcome low routing) ≤ caution (outcome high routing))
      × (outcome structure routing ≢ apply)
unfolding outcome applies reviews
outcome_rises low high routing le = (
  ground
      (arith, ranked_le high, Option-cases routing.apply_up_to, Option-cases routing.review_from),
  ground (arith, Option-cases routing.apply_up_to, Option-cases routing.review_from),
)
