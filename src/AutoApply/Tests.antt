-- ===== src/AutoApply/Tests.antt =====
-- A library of one release whose files have an update until they are written, and the theorems of
-- AutoApply at it.
use harmonist.Prelude.{
  ℕ, suc, String, ◌≡◌, ◌⊎◌, refl, true, false, Option, none, some, [], ◌∷◌, ◌==◌, nat_eq, string_eq,
  option_eq, if◌then◌else◌,
}
use harmonist.Models.{complete}
use harmonist.Gardener.{
  Significance, cosmetic, enrichment, structure, ranked, GardenerConfig, Album, planned, assess,
  verdict_for, applies, reviews, waiting_at, waits_in_inbox, in_library, is_ignored, ignored_for,
}
use harmonist.AutoApply.{
  reaches, held_reason, is_held, is_due, Library, refresh_flag, stored_release, judged, apply_one,
  write_one, after_write,
}
use harmonist.AutoApply.Settled.{IsSettled, Allowed, apply_one-settles, apply_one-Allowed}
use harmonist.AutoApply.Places.{apply_one_unlisted}
use harmonist.AutoApply.Chosen.{
  AsShown, applied, apply_chosen_one, apply_chosen_one-AsShown, chosen_at, chosen_from, rejudged,
  write_chosen,
}

-- The world counts the writes. An update of one level waits until there is one.
abbrev toy : Significance → Option String → Library ℕ String
toy level failure = record {
  stored = λ mbid. some mbid;
  plan = λ w a release. planned (if w == 0 then level ∷ [] else []);
  version = λ release. some release;
  write =
      λ w a release incomplete. elim failure [ none ↦ (suc w, none) | some why ↦ (w, some why) ];
}

abbrev lp : Album
lp = record {
  id = "a";
  state = complete;
  update_available = true;
  update_significance = some cosmetic;
  mb_version = some "r1";
  mb_release_id = some "r1";
  included_pregap_count = 0;
}

abbrev cautious : GardenerConfig
cautious = record { review_from = some structure; apply_up_to = some cosmetic }

lp_written : (apply_one (toy cosmetic none) (some cosmetic) 0 [] lp).world ≡ 1
unfolding apply_one stored_release refresh_flag assess verdict_for judged applies ranked write_one
    after_write
lp_written = refl

-- The write fails, and the album is held for that.
abbrev full : Library ℕ String
full = toy cosmetic (some "full")

apply_one-settles_example :
    IsSettled full
      (some cosmetic)
      0
      lp
      (apply_one full (some cosmetic) 0 [] lp).held
      (apply_one full (some cosmetic) 0 [] lp).album
    × (is_due []
          (some cosmetic)
          (apply_one full (some cosmetic) 0 [] lp).held
          (apply_one full (some cosmetic) 0 [] lp).album
        ≡ false)
unfolding apply_one stored_release refresh_flag assess verdict_for judged applies ranked write_one
    after_write
apply_one-settles_example = apply_one-settles full (some cosmetic) 0 lp [] [] refl

apply_one-Allowed_example :
    ((apply_one (toy cosmetic none) (some cosmetic) 0 [] lp).world ≡ 0)
    ⊎ Allowed (toy cosmetic none) (some cosmetic) 0 lp
apply_one-Allowed_example = apply_one-Allowed (toy cosmetic none) (some cosmetic) 0 [] lp

apply_one_unlisted_example :
    (held_reason
        (apply_one (toy enrichment none) (some cosmetic) 0 [] lp).held
        (refresh_flag (toy enrichment none) 0 lp "r1")
      ≡ some (reaches enrichment))
    × (waits_in_inbox [] cautious
          (is_held (apply_one (toy enrichment none) (some cosmetic) 0 [] lp).held)
          (refresh_flag (toy enrichment none) 0 lp "r1")
        ≡ false)
unfolding stored_release refresh_flag assess verdict_for applies reviews ranked
apply_one_unlisted_example =
    apply_one_unlisted (toy enrichment none) [] cautious 0 [] lp "r1" enrichment refl refl refl refl
      refl

lp_chosen : (apply_chosen_one (toy cosmetic none) [] 0 (some "r1") lp).answer ≡ applied
unfolding apply_chosen_one chosen_at chosen_from rejudged write_chosen waiting_at in_library
    is_ignored ignored_for stored_release refresh_flag assess verdict_for ranked
lp_chosen = refl

apply_chosen_one-AsShown_example :
    ((apply_chosen_one (toy cosmetic none) [] 0 (some "r1") lp).world ≡ 0)
    ⊎ AsShown (toy cosmetic none) [] 0 (some "r1") lp
apply_chosen_one-AsShown_example = apply_chosen_one-AsShown (toy cosmetic none) [] 0 (some "r1") lp
