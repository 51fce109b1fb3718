-- ===== src/Progress.antt =====
-- src/harmonist/progress.py: the register of the work that runs. A job is an object, so the register holds
-- numbers of jobs and a heap of their fields; the lock makes each operation one step. `some` is a step
-- that returns, `none` the `ValueError` of `list.remove`.
pub mod Ended
pub mod Removal
pub mod Reported
mod Tests
use harmonist.Prelude.{
  ℕ, zero, suc, ◌+◌, String, Bool, true, false, not, ◌&&◌, ◌||◌, Option, none, some, List, [], ◌∷◌,
  ◌++◌, ◌==◌, nat_eq, string_eq, option_eq, map, keep, is_none, if◌then◌else◌,
}

pub record Job : Type 0 where
  pub label : String
  pub total : ℕ
  pub done : ℕ
  pub foreground : Bool
  pub item : Option String
  pub closing : Option String
  pub parent : Option ℕ

pub record Finished : Type 0 where
  pub seq : ℕ
  pub label : String
  pub message : String

-- `_running`, `_finished` and `_seq`, with the jobs made so far, numbered below `made`.
pub record Register : Type 0 where
  pub jobs : ℕ → Job
  pub made : ℕ
  pub running : List ℕ
  pub finished : Option Finished
  pub seq : ℕ

abbrev pub same_flag : Bool → Bool → Bool
same_flag true b = b
same_flag false b = not b

-- The fields but the parent.
unfoldable pub same_fields : Job → Job → Bool
same_fields a b =
    a.label == b.label
    && a.total == b.total
    && a.done == b.done
    && same_flag a.foreground b.foreground
    && a.item == b.item
    && a.closing == b.closing

-- `a == b` as a dataclass has it, after the test of identity that `list.remove` makes first. Parents are
-- compared in the same way, along a chain that is no longer than the jobs made.
unfoldable pub equal : ℕ → (ℕ → Job) → ℕ → ℕ → Bool
unfolding same_fields
equal zero jobs a b = a == b
equal (suc depth) jobs a b =
    a == b
    || (same_fields (jobs a) (jobs b) && elim (jobs a).parent [
      | none ↦ is_none (jobs b).parent
      | some p ↦ elim (jobs b).parent [ none ↦ false | some q ↦ equal depth jobs p q ]
    ])

-- `xs.remove(a)`: without the first entry that the test accepts.
unfoldable pub remove_first : (ℕ → Bool) → List ℕ → Option (List ℕ)
remove_first test [] = none
remove_first test (x ∷ xs) =
    let rest = remove_first test xs in
    if test x then some xs else elim rest [ none ↦ none | some ys ↦ some (x ∷ ys) ]

abbrev pub write : (ℕ → Job) → ℕ → Job → ℕ → Job
write jobs k j i = if i == k then j else jobs i

-- `_running.remove(current)`
unfoldable pub remove_job : ℕ → Register → Option (List ℕ)
unfolding remove_first
remove_job current r = remove_first (λ x. equal r.made r.jobs x current) r.running

-- The entry of `job`, inside the job that `enclosing` names.
unfoldable pub start_job : String → ℕ → Bool → Option ℕ → Register → ℕ × Register
start_job label total foreground enclosing r = (
  r.made,
  record {
    jobs = write r.jobs r.made (record {
      label = label;
      total = total;
      done = 0;
      foreground = foreground;
      item = none;
      closing = none;
      parent = enclosing;
    });
    made = suc r.made;
    running = r.running ++ r.made ∷ [];
    finished = r.finished;
    seq = r.seq;
  },
)

abbrev pub with_running : List ℕ → Register → Register
with_running running r = record {
  jobs = r.jobs;
  made = r.made;
  running = running;
  finished = r.finished;
  seq = r.seq;
}

-- The exit of `job` where its block raised.
unfoldable pub fail_job : ℕ → Register → Option Register
unfolding remove_job
fail_job current r = elim (remove_job current r) [
  | none ↦ none
  | some running ↦ some (with_running running r)
]

-- `closing`, where the job has one.
unfoldable pub close : ℕ → Register → Register
close current r = elim (r.jobs current).closing [
  | none ↦ r
  | some message ↦ record {
    jobs = r.jobs;
    made = r.made;
    running = r.running;
    finished = some (record { seq = r.seq; label = (r.jobs current).label; message = message });
    seq = suc r.seq;
  }
]

-- The exit of `job` where its block ended. Its `label` is the one that the job was made with: no code
-- writes the field.
unfoldable pub end_job : ℕ → Register → Option Register
unfolding close fail_job
end_job current r = elim (fail_job current r) [ none ↦ none | some r' ↦ some (close current r') ]

abbrev pub with_job : ℕ → Job → Register → Register
with_job current j r = record {
  jobs = write r.jobs current j;
  made = r.made;
  running = r.running;
  finished = r.finished;
  seq = r.seq;
}

-- The fields that a job's own code changes.
abbrev pub with_state : ℕ → Option String → Option String → Job → Job
with_state done item closing j = record {
  label = j.label;
  total = j.total;
  done = done;
  foreground = j.foreground;
  item = item;
  closing = closing;
  parent = j.parent;
}

unfoldable pub advance : ℕ → ℕ → Register → Register
advance current n r =
    let j = r.jobs current in with_job current (with_state (j.done + n) j.item j.closing j) r

-- `items`: before an iteration, and after it.
unfoldable pub begin_item : ℕ → String → Register → Register
begin_item current name r =
    let j = r.jobs current in with_job current (with_state j.done (some name) j.closing j) r

unfoldable pub finish_item : ℕ → Register → Register
finish_item current r =
    let j = r.jobs current in with_job current (with_state (j.done + 1) none j.closing j) r

pub record Step : Type 0 where
  pub label : String
  pub done : ℕ
  pub total : ℕ

-- One job of the status bar.
pub record Shown : Type 0 where
  pub label : String
  pub done : ℕ
  pub total : ℕ
  pub item : Option String
  pub foreground : Bool
  pub step : Option Step

-- `next((c for c in reversed(_running) if c.parent is j), None)`
unfoldable pub last_child : (ℕ → Job) → ℕ → List ℕ → Option ℕ
last_child jobs j [] = none
last_child jobs j (c ∷ cs) =
    let later = last_child jobs j cs in
    if is_none later && (jobs c).parent == some j then some c else later

unfoldable pub show_job : Register → ℕ → Shown
unfolding last_child
show_job r j =
    let job = r.jobs j in
    let step = last_child r.jobs j r.running in
    record {
      label = job.label;
      done = job.done;
      total = job.total;
      item = job.item;
      foreground = job.foreground || elim step [ none ↦ false | some c ↦ (r.jobs c).foreground ];
      step = elim step [
        | none ↦ none
        | some c ↦
            some (record {
              label = (r.jobs c).label;
              done = (r.jobs c).done;
              total = (r.jobs c).total;
            })
      ];
    }

unfoldable pub shown_jobs : Register → List Shown
unfolding show_job
shown_jobs r = map (show_job r) (keep (λ j. is_none (r.jobs j).parent) r.running)

unfoldable pub status : Register → List Shown × Option Finished
unfolding shown_jobs
status r = (shown_jobs r, r.finished)

abbrev pub nothing_running : Register
nothing_running = record {
  jobs = λ _. record {
    label = "";
    total = 0;
    done = 0;
    foreground = false;
    item = none;
    closing = none;
    parent = none;
  };
  made = 0;
  running = [];
  finished = none;
  seq = 1;
}
