-- ===== src/AutoApply/Chosen.antt =====
-- src/harmonist/auto_apply.py, `_apply_chosen_one`: the update that the user selected in the Inbox.
use harmonist.Prelude.{
  ◌≤◌, String, ◌≡◌, ◌⊎◌, inl, inr, refl, false, not, ◌||◌, Option, none, some, List, ◌==◌,
  option_eq, string_eq, nat_eq, ltb, if_holds, if◌then◌else◌, arith, beq_iff,
}
use harmonist.Gardener.{
  Significance, structure, ranked, same_level, Album, IgnoredUpdate, waiting_at,
}
use harmonist.AutoApply.{
  Reason, not_stored, reaches, failed, is_incomplete, Library, refresh_flag, stored_release,
}

-- What came of it: a refusal has been reported in Activity.
pub data Chosen : Type 0 where
  applied : Chosen
  nothing_left : Chosen
  moved : Chosen
  tracklist : Chosen
  refused : Reason → Chosen

-- The files, the album and the answer.
pub record ChosenTurn (W : Type 0) : Type 0 where
  pub world : W
  pub album : Album
  pub answer : Chosen

abbrev pub answered : {W : Type 0} → W → Album → Chosen → ChosenTurn W
answered w a answer = record { world = w; album = a; answer = answer }

abbrev pub answer_of : Option String → Chosen
answer_of none = applied
answer_of (some why) = refused (failed why)

module _ {W R : Type 0} (lib : Library W R) where
  unfoldable pub write_chosen : W → Album → R → ChosenTurn W
  unfolding refresh_flag
  write_chosen w a release =
      let (w', failure) =
        lib.write w a release (is_incomplete a.state || ltb 0 a.included_pregap_count) in
      answered w' (refresh_flag lib w' a release) (answer_of failure)

  -- From the flags that were judged afresh on.
  unfoldable pub rejudged :
      W → Option String → Significance → Album → R → Option Significance → ChosenTurn W
  unfolding write_chosen
  rejudged w version shown a release none = answered w a nothing_left
  rejudged w version shown a release (some level) =
      if not a.update_available
      then answered w a nothing_left
      else if not (a.mb_version == version)
      then answered w a moved
      else if ltb (ranked shown) (ranked level)
      then answered w a (refused (reaches level))
      else write_chosen w a release

  -- From the stored release of the album on.
  unfoldable pub chosen_from : W → Option String → Album → Significance → Option R → ChosenTurn W
  unfolding rejudged
  chosen_from w version a shown none = answered w a (refused not_stored)
  chosen_from w version a shown (some release) =
      let a' = refresh_flag lib w a release in
      rejudged w version shown a' release a'.update_significance

  -- From the level that the card showed on.
  unfoldable pub chosen_at :
      List IgnoredUpdate → W → Option String → Album → Option Significance → ChosenTurn W
  unfolding chosen_from
  chosen_at ignored w version a none = answered w a nothing_left
  chosen_at ignored w version a (some shown) =
      if not (a.mb_version == version)
      then answered w a moved
      else if same_level shown structure
      then answered w a tracklist
      else chosen_from w version a shown (stored_release lib a)

  -- `_apply_chosen_one`, with `version` the one that the card showed.
  unfoldable pub apply_chosen_one : List IgnoredUpdate → W → Option String → Album → ChosenTurn W
  unfolding chosen_at
  apply_chosen_one ignored w version a = chosen_at ignored w version a (waiting_at a ignored)

  -- What the card showed and what is written.
  abbrev pub AsShown : List IgnoredUpdate → W → Option String → Album → Type 0
  AsShown ignored w version a =
      (release : R) × (shown level : Significance) × (waiting_at a ignored ≡ some shown)
      × (same_level shown structure ≡ false)
      × (stored_release lib a ≡ some release)
      × ((refresh_flag lib w a release).update_significance ≡ some level)
      × ((refresh_flag lib w a release).mb_version ≡ version)
      × (ranked level ≤ ranked shown)

  rejudged-world :
      (w : W) (version : Option String) (shown : Significance) (a : Album) (release : R)
      (found : Option Significance)
      → ((rejudged w version shown a release found).world ≡ w)
        ⊎ ((level : Significance) × (found ≡ some level)
            × (a.mb_version ≡ version)
            × (ranked level ≤ ranked shown))
  unfolding rejudged
  rejudged-world w version shown a release none = inl refl
  rejudged-world w version shown a release (some level) =
      let P : ChosenTurn W → Type 0 = λ t.
        (t.world ≡ w)
        ⊎ ((l : Significance) × (some level ≡ some l)
            × (a.mb_version ≡ version)
            × (ranked l ≤ ranked shown)) in
      if_holds P (not a.update_available) _ _ (λ gone. inl refl)
        λ there.
          if_holds P (not (a.mb_version == version)) _ _ (λ other. inl refl)
            λ same.
              if_holds P (ltb (ranked shown) (ranked level)) _ _ (λ further. inl refl)
                λ within.
                  inr (level, refl, (beq_iff a.mb_version version).0 (ground arith), ground arith)

  chosen_from-world :
      (w : W) (version : Option String) (a : Album) (shown : Significance) (o : Option R)
      → ((chosen_from w version a shown o).world ≡ w)
        ⊎ ((release : R) × (level : Significance) × (o ≡ some release)
            × ((refresh_flag lib w a release).update_significance ≡ some level)
            × ((refresh_flag lib w a release).mb_version ≡ version)
            × (ranked level ≤ ranked shown))
  unfolding chosen_from
  chosen_from-world w version a shown none = inl refl
  chosen_from-world w version a shown (some release) =
      let a' = refresh_flag lib w a release in
      elim (rejudged-world w version shown a' release a'.update_significance) [
        | inl same ↦ inl same
        | inr (level, e, v, le) ↦ inr (release, level, refl, e, v, le)
      ]

  chosen_at-world :
      (ignored : List IgnoredUpdate) (w : W) (version : Option String) (a : Album)
      (o : Option Significance)
      → waiting_at a ignored ≡ o
      → ((chosen_at ignored w version a o).world ≡ w) ⊎ AsShown ignored w version a
  unfolding chosen_at
  chosen_at-world ignored w version a none e = inl refl
  chosen_at-world ignored w version a (some shown) e =
      let P : ChosenTurn W → Type 0 = λ t. (t.world ≡ w) ⊎ AsShown ignored w version a in
      if_holds P (not (a.mb_version == version)) _ _ (λ other. inl refl)
        λ same.
          if_holds P (same_level shown structure) _ _ (λ laid_out. inl refl)
            λ fields. elim (chosen_from-world w version a shown (stored_release lib a)) [
              | inl kept ↦ inl kept
              | inr (release, level, found, at, v, le) ↦
                  inr (release, shown, level, e, fields, found, at, v, le)
            ]

  -- A selected update touches the files only as its card showed it: the album still waits, not for a change
  -- of its tracklist, its release is stored, and the files judged against it are at the version that the card
  -- showed and at a level that reaches no further.
  pub apply_chosen_one-AsShown :
      (ignored : List IgnoredUpdate) (w : W) (version : Option String) (a : Album)
      → ((apply_chosen_one ignored w version a).world ≡ w) ⊎ AsShown ignored w version a
  unfolding apply_chosen_one
  apply_chosen_one-AsShown ignored w version a =
      chosen_at-world ignored w version a (waiting_at a ignored) refl
