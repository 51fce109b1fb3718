-- ===== src/Background/Watcher.antt =====
-- src/harmonist/web/dir_watcher.py: the changed paths, the settle timer and what is delivered. Time is
-- counted in the clock's ticks from the watcher's start, and a timer that is due when a change arrives has fired.
pub mod Delivered
use text.Mathlib.Text.{starts_with}
use harmonist.Prelude.{
  ℕ, ◌+◌, String, Bool, true, false, not, Option, none, some, List, [], ◌∷◌, ◌++◌, ◌==◌, string_eq,
  map, keep, every, any_of, contains, leb, if◌then◌else◌,
}

-- One entry of a batch: its path and its `Path.name`.
pub record Change : Type 0 where
  pub path : String
  pub name : String

-- A batch that `awatch` yields, and when.
pub record Batch : Type 0 where
  pub time : ℕ
  pub changes : List Change

-- `changed_paths`, when `pending` fires, and the arguments of `on_change` so far.
pub record Watch : Type 0 where
  pub changed_paths : List String
  pub pending : Option ℕ
  pub sent : List (List String)

abbrev pub watching : Watch
watching = record { changed_paths = []; pending = none; sent = [] }

-- The demo's own history.
unfoldable pub is_demo : Change → Bool
is_demo c = starts_with c.name ".demo-activity.db"

-- `changed_paths.update(paths)`
unfoldable pub update : List String → List String → List String
update [] known = known
update (p ∷ paths) known = update paths (if contains known p then known else known ++ p ∷ [])

unfoldable pub fire : Watch → Watch
fire w = record { changed_paths = []; pending = none; sent = w.sent ++ w.changed_paths ∷ [] }

-- The timers that are due at a time.
unfoldable pub expire : ℕ → Watch → Watch
unfolding fire
expire now w = elim w.pending [ none ↦ w | some due ↦ if leb due now then fire w else w ]

-- The body of the loop, with `settle` the delay.
unfoldable pub receive : ℕ → Batch → Watch → Watch
unfolding is_demo update
receive settle batch w = if every is_demo batch.changes then w else record {
  changed_paths =
      update (map (λ c. c.path) (keep (λ c. not (is_demo c)) batch.changes)) w.changed_paths;
  pending = some (batch.time + settle);
  sent = w.sent;
}

unfoldable pub watch : ℕ → List Batch → Watch → Watch
unfolding receive expire
watch settle [] w = w
watch settle (batch ∷ batches) w = watch settle batches (receive settle batch (expire batch.time w))
