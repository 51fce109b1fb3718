-- ===== src/Background/Scans/Covered.antt =====
-- The passes of src/harmonist/web/scan_runner.py along the triggers and the rounds of its loop.
use harmonist.Prelude.{
  String, ◌≡◌, inl, inr, refl, Bool, true, false, ◌&&◌, ◌||◌, none, some, List, [], ◌∷◌, ◌++◌,
  string_eq, any_of, contains, arith, if_holds, Bool-cases,
}
use harmonist.Background.Watcher.Delivered.{update_keeps, update_adds}
use harmonist.Background.Scans.{
  Pass, Runner, no_paths, kick, kick_quiet, refresh, is_wanted, begin_pass, end_pass,
}

-- The pass that a runner is in, once it has begun one, at the end of those begun before.
abbrev pub begun_by : Runner → List Pass → List Pass
begun_by r passes = elim r.pass [ none ↦ passes | some p ↦ passes ++ p ∷ [] ]

-- What the runner does from a state on, with the passes that it has begun since, as they were when they began.
-- A round of the loop starts where the task runs and no pass is in flight.
pub data Steps (start : Runner) : Runner → List Pass → Type 0 where
  stay : Steps start start []
  kicks : (r : Runner) (begun : List Pass) → Steps start r begun → Steps start (kick r) begun
  kicks_quiet :
      (r : Runner) (begun : List Pass) → Steps start r begun → Steps start (kick_quiet r) begun
  refreshes :
      (paths : List String) (r : Runner) (begun : List Pass)
      → Steps start r begun
      → Steps start (refresh paths r) begun
  begins :
      (r : Runner) (begun : List Pass)
      → Steps start r begun
      → r.running ≡ true
      → r.pass ≡ none
      → Steps start (begin_pass r) (begun_by (begin_pass r) begun)
  ends :
      (refreshed : Bool) (p : Pass) (r : Runner) (begun : List Pass)
      → Steps start r begun
      → r.pass ≡ some p
      → Steps start (end_pass refreshed p r) begun

-- A pass that is asked for the path.
abbrev pub reads_path : String → Pass → Bool
reads_path p q = contains q.paths p

-- A full scan that shows itself from its beginning.
abbrev pub is_shown_scan : Pass → Bool
is_shown_scan q = q.full && q.visible

-- The path is collected, or a pass has begun with it.
abbrev has_path : String → Runner → List Pass → Bool
has_path p r begun = contains r.changed_paths p || any_of (reads_path p) begun

-- A scan that shows itself is wanted, or has begun.
abbrev has_scan : Runner → List Pass → Bool
has_scan r begun = r.dirty && r.visible || any_of is_shown_scan begun

any_of-snoc :
    (f : Pass → Bool) (xs : List Pass) (q : Pass) → any_of f (xs ++ q ∷ []) ≡ (any_of f xs || f q)
any_of-snoc f [] q = ground arith
any_of-snoc f (x ∷ xs) q = ground (arith, any_of-snoc f xs q)

not_empty : (paths : List String) (p : String) → contains paths p ≡ true → no_paths paths ≡ false
not_empty [] p h = absurd (cc)
not_empty (q ∷ paths) p h = refl

begin-has_path :
    (p : String) (r : Runner) (begun : List Pass)
    → has_path p r begun ≡ true
    → has_path p (begin_pass r) (begun_by (begin_pass r) begun) ≡ true
unfolding begin_pass is_wanted
begin-has_path p r begun h = elim (Bool-cases (is_wanted r)) [
  | inl w ↦ ground (
    arith,
    any_of-snoc (reads_path p) begun
        (record { full = r.dirty; paths = r.changed_paths; visible = r.dirty && r.visible }),
  )
  | inr idle ↦ ground arith
]

begin-has_scan :
    (r : Runner) (begun : List Pass)
    → has_scan r begun ≡ true
    → has_scan (begin_pass r) (begun_by (begin_pass r) begun) ≡ true
unfolding begin_pass is_wanted
begin-has_scan r begun h = elim (Bool-cases (is_wanted r)) [
  | inl w ↦ ground (
    arith,
    any_of-snoc is_shown_scan begun
        (record { full = r.dirty; paths = r.changed_paths; visible = r.dirty && r.visible }),
  )
  | inr idle ↦ ground arith
]

module _ (start : Runner) where
  Steps-path :
      (p : String)
      → contains start.changed_paths p ≡ true
      → (r : Runner) (begun : List Pass) → Steps start r begun
      → has_path p r begun ≡ true
  unfolding kick kick_quiet refresh end_pass
  Steps-path p has_ r begun stay = ground arith
  Steps-path p has_ r begun (kicks k b s) = Steps-path p has_ k b s
  Steps-path p has_ r begun (kicks_quiet k b s) = Steps-path p has_ k b s
  Steps-path p has_ r begun (refreshes paths k b s) =
      ground (arith, Steps-path p has_ k b s, update_keeps paths k.changed_paths p)
  Steps-path p has_ r begun (begins k b s on free) = begin-has_path p k b (Steps-path p has_ k b s)
  Steps-path p has_ r begun (ends refreshed q k b s at) =
      if_holds (λ v. has_path p v b ≡ true) (q.full || refreshed) _ _ (λ _. Steps-path p has_ k b s)
        λ _. Steps-path p has_ k b s

  Steps-scan :
      start.dirty && start.visible ≡ true
      → (r : Runner) (begun : List Pass) → Steps start r begun
      → has_scan r begun ≡ true
  unfolding kick kick_quiet refresh end_pass
  Steps-scan has_ r begun stay = ground arith
  Steps-scan has_ r begun (kicks k b s) = refl
  Steps-scan has_ r begun (kicks_quiet k b s) = ground (arith, Steps-scan has_ k b s)
  Steps-scan has_ r begun (refreshes paths k b s) = Steps-scan has_ k b s
  Steps-scan has_ r begun (begins k b s on free) = begin-has_scan k b (Steps-scan has_ k b s)
  Steps-scan has_ r begun (ends refreshed q k b s at) =
      if_holds (λ v. has_scan v b ≡ true) (q.full || refreshed) _ _ (λ _. Steps-scan has_ k b s)
        λ _. refl

  Steps-live :
      start.running ≡ true
      → (r : Runner) (begun : List Pass) → Steps start r begun
      → is_wanted r ≡ true
      → r.running ≡ true
  unfolding kick kick_quiet refresh begin_pass is_wanted end_pass
  Steps-live on r begun stay w = on
  Steps-live on r begun (kicks k b s) w = refl
  Steps-live on r begun (kicks_quiet k b s) w = refl
  Steps-live on r begun (refreshes paths k b s) w = refl
  Steps-live on r begun (begins k b s still free) w = elim (Bool-cases (is_wanted k)) [
    | inl more ↦ ground arith
    | inr idle ↦ absurd (ground arith)
  ]
  Steps-live on r begun (ends refreshed q k b s at) w = elim (Bool-cases (q.full || refreshed)) [
    | inl fine ↦ ground (arith, Steps-live on k b s)
    | inr failed ↦ ground arith
  ]

-- Once the task has ended, a pass has begun with each path of a refresh, whatever triggers and rounds of
-- the loop came between.
pub refresh_covered :
    (paths : List String) (p : String) (r : Runner)
    → contains paths p ≡ true
    → (r' : Runner) (begun : List Pass) → Steps (refresh paths r) r' begun
    → r'.running ≡ false
    → any_of (reads_path p) begun ≡ true
unfolding refresh is_wanted
refresh_covered paths p r in_ r' begun s ended =
    let there =
      Steps-path (refresh paths r) p (update_adds paths r.changed_paths p in_) r' begun s in
    let live = Steps-live (refresh paths r) refl r' begun s in
    ground (arith, not_empty r'.changed_paths p)

-- Once the task has ended, a full scan that shows itself has begun since a kick, whatever triggers and rounds
-- of the loop came between, quiet ones and failures among them.
pub kick_covered :
    (r r' : Runner) (begun : List Pass)
    → Steps (kick r) r' begun
    → r'.running ≡ false
    → any_of is_shown_scan begun ≡ true
unfolding kick is_wanted
kick_covered r r' begun s ended =
    let wanted = Steps-scan (kick r) refl r' begun s in
    let live = Steps-live (kick r) refl r' begun s in ground arith
