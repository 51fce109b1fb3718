-- ===== src/LiveCounts.antt =====
-- src/harmonist/live_counts.py: the counts of albums by state that the status bar shows. The lock
-- makes each operation one step; the module's `_counts` is passed along.
pub mod Refinement
mod Tests
use harmonist.Prelude.{
  ℕ, zero, suc, ◌+◌, ◌-◌, Bool, true, false, Option, none, some, List, [], ◌∷◌, ◌==◌, nat_eq,
  if◌then◌else◌,
}
use harmonist.Models.{
  AlbumState, new, needs_mbid, needs_sync, tagging, inconsistent, complete, incomplete,
}

-- The place of a member in the enum.
abbrev pub member_index : AlbumState → ℕ
member_index new = 0
member_index needs_mbid = 1
member_index tagging = 2
member_index needs_sync = 3
member_index complete = 4
member_index incomplete = 5
member_index inconsistent = 6

-- `a is b`: two members are one where they stand in one place.
unfoldable pub same_state : AlbumState → AlbumState → Bool
same_state a b = member_index a == member_index b

unfoldable pub same_option : Option AlbumState → Option AlbumState → Bool
unfolding same_state
same_option none none = true
same_option (some a) (some b) = same_state a b
same_option _ _ = false

-- A Counter: 0 for a state it has no key for.
abbrev pub Counts : Type 0
Counts = AlbumState → ℕ

-- `Counter(a.state for a in albums)`
unfoldable pub reset_from : List AlbumState → Counts
unfolding same_state
reset_from [] s = 0
reset_from (a ∷ albums) s = (if same_state a s then 1 else 0) + reset_from albums s

unfoldable pub leave : Option AlbumState → Counts → Counts
unfolding same_state
leave none counts s = counts s
leave (some old) counts s = if same_state old s then counts s - 1 else counts s

unfoldable pub enter : Option AlbumState → Counts → Counts
unfolding same_state
enter none counts s = counts s
enter (some new_state) counts s = if same_state new_state s then counts s + 1 else counts s

unfoldable pub move : Option AlbumState → Option AlbumState → Counts → Counts
unfolding same_option leave enter
move old new_state counts =
    if same_option old new_state then counts else enter new_state (leave old counts)

pub record Status : Type 0 where
  pub inbox : ℕ
  pub library : ℕ
  pub new_count : ℕ
  pub needs_mbid_count : ℕ
  pub needs_sync_count : ℕ
  pub tagging_count : ℕ
  pub inconsistent_count : ℕ
  pub complete_count : ℕ
  pub incomplete_count : ℕ

-- `s in _TERMINAL`
unfoldable pub is_terminal : AlbumState → Bool
is_terminal complete = true
is_terminal incomplete = true
is_terminal _ = false

abbrev pub states : List AlbumState
states = new ∷ needs_mbid ∷ needs_sync ∷ tagging ∷ inconsistent ∷ complete ∷ incomplete ∷ []

unfoldable pub total_where : (AlbumState → Bool) → Counts → List AlbumState → ℕ
total_where test counts [] = 0
total_where test counts (s ∷ ss) = (if test s then counts s else 0) + total_where test counts ss

unfoldable pub to_status : Counts → Status
unfolding is_terminal total_where
to_status counts = record {
  inbox = total_where (λ s. if is_terminal s then false else true) counts states;
  library = total_where is_terminal counts states;
  new_count = counts new;
  needs_mbid_count = counts needs_mbid;
  needs_sync_count = counts needs_sync;
  tagging_count = counts tagging;
  inconsistent_count = counts inconsistent;
  complete_count = counts complete;
  incomplete_count = counts incomplete;
}
