-- ===== src/AutoApply/Places.antt =====
-- Where a waiting update is to be found: src/harmonist/auto_apply.py and the Inbox of gardener.py.
use harmonist.Prelude.{
  ◌+◌, ◌≡◌, ap, ◌∙◌, Bool, true, false, not, ◌&&◌, some, List, option_eq, string_eq, bit, arith,
}
use harmonist.Gardener.{
  Significance, ReviewFrom, GardenerConfig, Album, IgnoredUpdate, applies, reviews, waiting_at,
  waits_in_inbox, Outcome, library, outcome,
}
use harmonist.AutoApply.{
  reaches, Held, held_reason, is_held, hold, is_due, turn, Library, refresh_flag, stored_release,
  judged, apply_one,
}
use harmonist.AutoApply.Settled.{held_reason-hold, apply_one_found}

abbrev pub stays : Outcome → Bool
stays library = true
stays _ = false

-- A waiting update is in exactly one place: among those about to be written, in the Inbox, or, where the
-- routing sends its level to neither, in the library alone; those about to be written are of a level that the
-- routing applies.
place_once :
    (a : Album) (ignored : List IgnoredUpdate) (routing : GardenerConfig) (held : List Held)
    (level : Significance)
    → waiting_at a ignored ≡ some level
    → (bit (is_due ignored routing.apply_up_to held a)
          + (bit (waits_in_inbox ignored routing (is_held held) a)
              + bit (stays (outcome level routing)))
        ≡ 1)
      × (is_due ignored routing.apply_up_to held a
          ≡ (applies level routing.apply_up_to && not (is_held held a)))
unfolding is_due waits_in_inbox outcome
place_once a ignored routing held level e = (ground arith, ground arith)

quiet_waits :
    (ignored : List IgnoredUpdate) (routing : GardenerConfig) (held : Album → Bool) (a : Album)
    (level : Significance)
    → a.update_significance ≡ some level
    → applies level routing.apply_up_to ≡ false
    → reviews level routing.review_from ≡ false
    → waits_in_inbox ignored routing held a ≡ false
unfolding waits_in_inbox waiting_at
quiet_waits ignored routing held a level at out quiet = ground arith

module _ {W R : Type 0} (lib : Library W R) where
  outgrown :
      (up_to : ReviewFrom) (w : W) (held : List Held) (a : Album) (release : R)
      (level : Significance)
      → a.update_available ≡ true
      → applies level up_to ≡ false
      → judged lib up_to w held a release (some level)
        ≡ turn w (hold a (reaches level) held) a false
  unfolding judged
  outgrown up_to w held a release level there out = ground arith

  -- An update whose level has grown out of the range that is applied, and that no review is asked of, is
  -- held with that as its reason, and yet not in the Inbox.
  pub apply_one_unlisted :
      (ignored : List IgnoredUpdate) (routing : GardenerConfig) (w : W) (held : List Held)
      (a : Album) (release : R) (level : Significance)
      → stored_release lib a ≡ some release
      → (refresh_flag lib w a release).update_available ≡ true
      → (refresh_flag lib w a release).update_significance ≡ some level
      → applies level routing.apply_up_to ≡ false
      → reviews level routing.review_from ≡ false
      → (held_reason
            (apply_one lib routing.apply_up_to w held a).held
            (refresh_flag lib w a release)
          ≡ some (reaches level))
        × (waits_in_inbox ignored routing
              (is_held (apply_one lib routing.apply_up_to w held a).held)
              (refresh_flag lib w a release)
            ≡ false)
  apply_one_unlisted ignored routing w held a release level found there at out quiet =
      let a' = refresh_flag lib w a release in
      let left : apply_one lib routing.apply_up_to w held a
          ≡ turn w (hold a' (reaches level) held) a' false =
        apply_one_found lib routing.apply_up_to w held a release found
        ∙ (ap (judged lib routing.apply_up_to w held a' release) at
            ∙ outgrown routing.apply_up_to w held a' release level there out) in
      (
        ap (λ t. held_reason t.held a') left ∙ held_reason-hold a' (reaches level) held,
        quiet_waits ignored routing (is_held (apply_one lib routing.apply_up_to w held a).held) a'
            level at out quiet,
      )
