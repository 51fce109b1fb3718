-- ===== src/AutoApply/Settled.antt =====
-- What one album's turn leaves in src/harmonist/auto_apply.py.
use harmonist.Prelude.{
  String, ◌≡◌, ◌⊎◌, inl, inr, refl, true, false, not, Option, none, some, List, [], ◌∷◌, option_eq,
  string_eq, nat_eq, ltb, arith, beq_refl, if_holds, Bool-cases, Option-cases,
}
use harmonist.Gardener.{Significance, ReviewFrom, Album, IgnoredUpdate, applies, waiting_at}
use harmonist.AutoApply.{
  Reason, not_stored, reaches, tracks_missing, failed, Held, held_for, held_reason, is_held, hold,
  release_hold, drop_hold, is_due, is_incomplete, Turn, turn, Library, refresh_flag, stored_release,
  after_write, write_one, judged, apply_one,
}

-- An album that is held is held at the version it has.
pub held_reason-hold :
    (a : Album) (reason : Reason) (held : List Held)
    → held_reason (hold a reason held) a ≡ some reason
unfolding held_reason held_for hold
held_reason-hold a reason held = ground (arith, beq_refl a.id, beq_refl a.mb_version)

held_for-release_hold : (a : Album) (held : List Held) → held_for a.id (release_hold a held) ≡ none
unfolding held_for release_hold drop_hold
held_for-release_hold a [] = refl
held_for-release_hold a (entry ∷ held) = ground (arith, held_for-release_hold a held)

held_not_due :
    (ignored : List IgnoredUpdate) (up_to : ReviewFrom) (held : List Held) (a : Album)
    → is_held held a ≡ true
    → is_due ignored up_to held a ≡ false
unfolding is_due
held_not_due ignored up_to held a h = ground (arith, Option-cases (waiting_at a ignored))

no_level :
    (ignored : List IgnoredUpdate) (up_to : ReviewFrom) (held : List Held) (a : Album)
    → a.update_significance ≡ none
    → is_due ignored up_to held a ≡ false
unfolding is_due waiting_at
no_level ignored up_to held a h = ground arith

not_available :
    (ignored : List IgnoredUpdate) (up_to : ReviewFrom) (held : List Held) (a : Album)
    → a.update_available ≡ false
    → is_due ignored up_to held a ≡ false
unfolding is_due waiting_at
not_available ignored up_to held a h = ground arith

module _ {W R : Type 0} (lib : Library W R) (up_to : ReviewFrom) where
  apply_one_missing :
      (w : W) (held : List Held) (a : Album)
      → stored_release lib a ≡ none
      → apply_one lib up_to w held a ≡ turn w (hold a not_stored held) a false
  unfolding apply_one
  apply_one_missing w held a e = ground arith

  pub apply_one_found :
      (w : W) (held : List Held) (a : Album) (release : R)
      → stored_release lib a ≡ some release
      → apply_one lib up_to w held a
        ≡ judged lib up_to w held
            (refresh_flag lib w a release)
            release
            (refresh_flag lib w a release).update_significance
  unfolding apply_one
  apply_one_found w held a release e = ground arith

  -- What was judged when the files were written.
  abbrev pub Allowed : W → Album → Type 0
  Allowed w a =
      (release : R) × (level : Significance) × (stored_release lib a ≡ some release)
      × ((refresh_flag lib w a release).update_available ≡ true)
      × ((refresh_flag lib w a release).update_significance ≡ some level)
      × (applies level up_to ≡ true)
      × (is_incomplete (refresh_flag lib w a release).state ≡ false)

  judged-world :
      (w : W) (held : List Held) (a : Album) (release : R) (level : Option Significance)
      → ((judged lib up_to w held a release level).world ≡ w)
        ⊎ ((l : Significance) × (level ≡ some l)
            × (a.update_available ≡ true)
            × (applies l up_to ≡ true)
            × (is_incomplete a.state ≡ false))
  unfolding judged
  judged-world w held a release none = inl refl
  judged-world w held a release (some level) = elim (Bool-cases a.update_available) [
    | inr none_ ↦ inl (rw none_ refl)
    | inl there ↦ elim (Bool-cases (applies level up_to)) [
      | inr out ↦ inl (rw (there, out) refl)
      | inl in_range ↦ elim (Bool-cases (is_incomplete a.state)) [
        | inl short ↦ inl (rw (there, in_range, short) refl)
        | inr whole ↦ inr (level, refl, there, in_range, whole)
      ]
    ]
  ]

  -- A turn leaves the files alone, unless the release of the album is stored, the files judged against
  -- it have an update in the range that is applied, and no track of the album is missing.
  pub apply_one-Allowed :
      (w : W) (held : List Held) (a : Album)
      → ((apply_one lib up_to w held a).world ≡ w) ⊎ Allowed w a
  apply_one-Allowed w held a = elim (Option-cases (stored_release lib a)) [
    | inl missing ↦ inl (rw (apply_one_missing w held a missing) refl)
    | inr (release, found) ↦
        let a' = refresh_flag lib w a release in
        elim (judged-world w held a' release a'.update_significance) [
          | inl same ↦ inl (rw (apply_one_found w held a release found) same)
          | inr (level, e, there, in_range, whole) ↦
              inr (release, level, found, there, e, in_range, whole)
        ]
  ]

-- The update is gone: nothing waits, whatever is ignored.
abbrev pub IsGone : Album → Type 0
IsGone a = (a.update_available ≡ false) ⊎ (a.update_significance ≡ none)

gone_not_due :
    (ignored : List IgnoredUpdate) (up_to : ReviewFrom) (held : List Held) (a : Album)
    → IsGone a
    → is_due ignored up_to held a ≡ false
gone_not_due ignored up_to held a (inl none_) = not_available ignored up_to held a none_
gone_not_due ignored up_to held a (inr level) = no_level ignored up_to held a level

module _ {W R : Type 0} (lib : Library W R) (up_to : ReviewFrom) (w : W) (start : Album) where
  -- The album as it is judged at its turn.
  abbrev pub fresh : R → Album
  fresh release = refresh_flag lib w start release

  -- What a reason says of the album that its turn holds for it, the turn starting from `start` and files `w`.
  abbrev pub Explains : Album → Reason → Type 0
  Explains a not_stored = stored_release lib start ≡ none
  Explains a (reaches level) =
      (a.update_available ≡ true)
      × (a.update_significance ≡ some level)
      × (applies level up_to ≡ false)
  Explains a tracks_missing = is_incomplete a.state ≡ true
  Explains a (failed why) =
      (release : R) × (stored_release lib start ≡ some release)
      × ((lib.write w (fresh release) release (ltb 0 (fresh release).included_pregap_count)).1
          ≡ some why)

  -- The update is gone and the album is not held, or it is held, at the version that it has now, for a
  -- reason that is so.
  abbrev pub IsSettled : List Held → Album → Type 0
  IsSettled held a =
      (IsGone a × (held_for a.id held ≡ none))
      ⊎ ((reason : Reason) × (held_reason held a ≡ some reason) × Explains a reason)

  abbrev Settles : Turn W → Type 0
  Settles t = t.written ≡ false → IsSettled t.held t.album

  held_settles :
      (held : List Held) (a : Album) (reason : Reason)
      → Explains a reason
      → IsSettled (hold a reason held) a
  held_settles held a reason why = inr (reason, held_reason-hold a reason held, why)

  gone_settles : (held : List Held) (a : Album) → IsGone a → IsSettled (release_hold a held) a
  gone_settles held a gone = inl (gone, held_for-release_hold a held)

  after_write-Settles :
      (release : R) (w' : W) (held : List Held) (a : Album) (failure : Option String)
      → stored_release lib start ≡ some release
      → (lib.write w (fresh release) release (ltb 0 (fresh release).included_pregap_count)).1
        ≡ failure
      → Settles (after_write lib w' held a failure)
  unfolding after_write
  after_write-Settles release w' held a none found e s = absurd (cc)
  after_write-Settles release w' held a (some why) found e s =
      held_settles held a (failed why) (release, found, e)

  write_one-Settles :
      (held : List Held) (release : R)
      → stored_release lib start ≡ some release
      → Settles (write_one lib w held (fresh release) release)
  unfolding write_one
  write_one-Settles held release found =
      let (w', failure) =
        lib.write w (fresh release) release (ltb 0 (fresh release).included_pregap_count) in
      after_write-Settles release w' held (refresh_flag lib w' (fresh release) release) failure
        found refl

  judged-Settles :
      (held : List Held) (release : R) (level : Option Significance)
      → stored_release lib start ≡ some release
      → (fresh release).update_significance ≡ level
      → Settles (judged lib up_to w held (fresh release) release level)
  unfolding judged
  judged-Settles held release none found e = λ s. gone_settles held (fresh release) (inr e)
  judged-Settles held release (some level) found e =
      if_holds Settles (not (fresh release).update_available) _ _
        (λ gone s. gone_settles held (fresh release) (inl (ground arith)))
        λ there.
          if_holds Settles (not (applies level up_to)) _ _
            (λ out s.
              held_settles held (fresh release) (reaches level) (ground arith, e, ground arith))
            λ in_range.
              if_holds Settles (is_incomplete (fresh release).state) _ _
                (λ short s. held_settles held (fresh release) tracks_missing short)
                λ whole. write_one-Settles held release found

  apply_one-IsSettled : (held : List Held) → Settles (apply_one lib up_to w held start)
  apply_one-IsSettled held = elim (Option-cases (stored_release lib start)) [
    | inl missing ↦
        rw (apply_one_missing lib up_to w held start missing)
          (λ s. held_settles held start not_stored missing)
    | inr (release, found) ↦
        rw (apply_one_found lib up_to w held start release found)
          (judged-Settles held release (fresh release).update_significance found refl)
  ]

  settled_not_due :
      (ignored : List IgnoredUpdate) (held : List Held) (a : Album)
      → IsSettled held a
      → is_due ignored up_to held a ≡ false
  unfolding is_held
  settled_not_due ignored held a (inl (gone, _)) = gone_not_due ignored up_to held a gone
  settled_not_due ignored held a (inr (reason, at, _)) =
      held_not_due ignored up_to held a (ground arith)

  -- An album whose turn wrote nothing is settled by it. Either its update is gone and no hold on it is
  -- left, or it is held at the version of MusicBrainz that it has now, for a reason that is so: its release
  -- is not stored, its level is out of the range that is applied, a track is missing, or the write
  -- failed so. Whatever is ignored, it is then not due, so the next pass leaves it alone.
  pub apply_one-settles :
      (ignored : List IgnoredUpdate) (held : List Held)
      → (apply_one lib up_to w held start).written ≡ false
      → IsSettled (apply_one lib up_to w held start).held (apply_one lib up_to w held start).album
        × (is_due ignored up_to
              (apply_one lib up_to w held start).held
              (apply_one lib up_to w held start).album
            ≡ false)
  apply_one-settles ignored held idle =
      let settled = apply_one-IsSettled held idle in (settled, settled_not_due ignored _ _ settled)
