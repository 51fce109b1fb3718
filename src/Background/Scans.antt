-- ===== src/Background/Scans.antt =====
-- src/harmonist/web/scan_runner.py: the triggers of the scan task and its loop. Each runs on the event loop's
-- thread, between two awaits of it, so each is one step. What a pass reads and publishes is left out.
pub mod Covered
use harmonist.Prelude.{
  ℕ, zero, suc, ◌+◌, String, Bool, true, false, not, ◌&&◌, ◌||◌, Option, none, some, List, [], ◌∷◌,
  ◌++◌, is_none, if◌then◌else◌,
}
use harmonist.Background.Watcher.{update}

abbrev pub no_paths : List String → Bool
no_paths [] = true
no_paths (p ∷ ps) = false

-- A pass in flight: what it claimed, and whether it advertises itself.
pub record Pass : Type 0 where
  pub full : Bool
  pub paths : List String
  pub visible : Bool

-- `_dirty`, `_visible` and `_changed_paths`, whether `_task` is running, and the pass that it has begun.
pub record Runner : Type 0 where
  pub dirty : Bool
  pub visible : Bool
  pub changed_paths : List String
  pub running : Bool
  pub pass : Option Pass

-- `_current.state = "scanning"; _status = _current`, where a full scan is in flight.
unfoldable pub promote : Option Pass → Option Pass
promote none = none
promote (some p) = some (record { full = p.full; paths = p.paths; visible = p.full || p.visible })

-- `_kick`, with `_start`.
unfoldable pub kick : Runner → Runner
unfolding promote
kick r = record {
  dirty = true;
  visible = true;
  changed_paths = r.changed_paths;
  running = true;
  pass = promote r.pass;
}

-- `_kick_quiet`
unfoldable pub kick_quiet : Runner → Runner
kick_quiet r = record {
  dirty = true;
  visible = r.visible;
  changed_paths = r.changed_paths;
  running = true;
  pass = r.pass;
}

-- The `kick` of `request_refresh`.
unfoldable pub refresh : List String → Runner → Runner
unfolding update
refresh paths r = record {
  dirty = r.dirty;
  visible = r.visible;
  changed_paths = update paths r.changed_paths;
  running = true;
  pass = r.pass;
}

-- The test of `_run`'s loop.
unfoldable pub is_wanted : Runner → Bool
is_wanted r = r.dirty || not (no_paths r.changed_paths)

-- A round of the loop up to its await, or the end of the task.
unfoldable pub begin_pass : Runner → Runner
unfolding is_wanted
begin_pass r =
    if is_wanted r
    then record {
      dirty = false;
      visible = false;
      changed_paths = [];
      running = true;
      pass =
          some (record { full = r.dirty; paths = r.changed_paths; visible = r.dirty && r.visible });
    }
    else record {
      dirty = r.dirty;
      visible = r.visible;
      changed_paths = r.changed_paths;
      running = false;
      pass = none;
    }

-- What follows the await: a refresh that could not be made, or that raised, asks for a full scan.
unfoldable pub end_pass : Bool → Pass → Runner → Runner
unfolding kick
end_pass refreshed p r =
    let r' : Runner = record {
      dirty = r.dirty;
      visible = r.visible;
      changed_paths = r.changed_paths;
      running = r.running;
      pass = none;
    } in
    if p.full || refreshed then r' else kick r'
