-- ===== src/Fields/Rows.antt =====
-- src/harmonist/compare.py: `diff_runs` with `_merge`, and the row that `compare_value` builds.
use harmonist.Prelude.{
  ℕ, ◌+◌, ◌*◌, ◌-◌, max, String, Bool, true, false, not, ◌&&◌, ◌||◌, Option, none, some, List, [],
  ◌∷◌, ◌++◌, ◌==◌, option_eq, length, keep, contains, take, drop, ltb, if◌then◌else◌,
}
use harmonist.Fields.{Text, text_eq, max_changed_runs, merge_gap, Agreement, Run, Consensus}
use Agreement.{matches, differs, only_mb, only_disk, unreadable}

-- One of difflib's operations: `equal` tells its tag from the others.
pub record Opcode : Type 0 where
  pub equal : Bool
  pub i1 : ℕ
  pub i2 : ℕ
  pub j1 : ℕ
  pub j2 : ℕ

-- `text[i:j]`
abbrev pub slice : ℕ → ℕ → Text → Text
slice i j t = take (j - i) (drop i t)

abbrev pub same_flag : Bool → Bool → Bool
same_flag true b = b
same_flag false b = not b

-- The first loop of `_merge`, behind the run `previous`: a short gap between two changes becomes one.
unfoldable pub bridge : Run → List Run → List Run
bridge previous [] = []
bridge previous (run ∷ []) = run ∷ []
bridge previous (run ∷ next ∷ rest) =
    let short =
      not run.changed && (ltb (length run.text) merge_gap && (previous.changed && next.changed)) in
    let bridged : Run = if short then record { text = run.text; changed = true } else run in
    bridged ∷ bridge bridged (next ∷ rest)

unfoldable pub bridge_gaps : List Run → List Run
unfolding bridge
bridge_gaps [] = []
bridge_gaps (first ∷ rest) = first ∷ bridge first rest

-- The second loop: `out` with one run more.
unfoldable pub extend : List Run → Run → List Run
extend [] run = run ∷ []
extend (last ∷ []) run =
    if same_flag last.changed run.changed
    then record { text = last.text ++ run.text; changed = run.changed } ∷ []
    else last ∷ run ∷ []
extend (first ∷ next ∷ out) run = first ∷ extend (next ∷ out) run

unfoldable pub join_runs : List Run → List Run → List Run
unfolding extend
join_runs out [] = out
join_runs out (run ∷ rest) = join_runs (extend out run) rest

unfoldable pub merge : List Run → List Run
unfolding bridge_gaps join_runs
merge runs = join_runs [] (bridge_gaps runs)

-- The runs of one side: `start` and `stop` are its fields of an operation.
unfoldable pub side_runs : (Opcode → ℕ) → (Opcode → ℕ) → Text → List Opcode → List Run
side_runs start stop t [] = []
side_runs start stop t (op ∷ ops) =
    let rest = side_runs start stop t ops in
    if ltb (start op) (stop op)
    then record { text = slice (start op) (stop op) t; changed = not op.equal } ∷ rest
    else rest

unfoldable pub changed_length : List Opcode → ℕ
changed_length [] = 0
changed_length (op ∷ ops) =
    let rest = changed_length ops in
    if op.equal then rest else max (op.i2 - op.i1) (op.j2 - op.j1) + rest

-- Whether the edits are too many and too long to mark: more than two, and more than 34 in 100.
unfoldable pub too_scattered : Text → Text → List Opcode → Bool
unfolding changed_length
too_scattered a b ops =
    ltb max_changed_runs (length (keep (λ (op : Opcode). not op.equal) ops))
    && ltb (34 * max (length a) (length b)) (100 * changed_length ops)

-- The fields that only the drawing of a row reads (`kind`, `entity`, `credit`, `flag`, `key`) are left out.
pub record FieldComparison : Type 0 where
  pub label : String
  pub agreement : Agreement
  pub disk : Option Text
  pub mb : Option Text
  pub disk_runs : List Run
  pub mb_runs : List Run
  pub consensus : Option Consensus
  pub comparable : Bool

module _ (opcodes : Text → Text → List Opcode) where
  unfoldable pub diff_runs : Text → Text → List Run × List Run
  unfolding too_scattered merge side_runs
  diff_runs a b =
      let ops = opcodes a b in
      if a == b || too_scattered a b ops then ([], []) else (
        merge (side_runs (λ op. op.i1) (λ op. op.i2) a ops),
        merge (side_runs (λ op. op.j1) (λ op. op.j2) b ops),
      )

  abbrev pub row :
      String → Agreement → Option Text → Option Text → Option Consensus → FieldComparison
  row label agreement disk mb tracks = record {
    label = label;
    agreement = agreement;
    disk = disk;
    mb = mb;
    disk_runs = [];
    mb_runs = [];
    consensus = tracks;
    comparable = true;
  }

  unfoldable pub compare_value :
      String → Option Text → Option Text → Bool → Option Consensus → List Text → FieldComparison
  unfolding diff_runs
  compare_value label disk mb true tracks also_matches = row label unreadable none mb tracks
  compare_value label none none false tracks also_matches = row label matches none none tracks
  compare_value label none (some m) false tracks also_matches =
      row label only_mb none (some m) tracks
  compare_value label (some d) none false tracks also_matches =
      row label only_disk (some d) none tracks
  compare_value label (some d) (some m) false tracks also_matches =
      if d == m || contains also_matches d
      then row label matches (some d) (some m) tracks
      else record {
        label = label;
        agreement = differs;
        disk = some d;
        mb = some m;
        disk_runs = (diff_runs d m).0;
        mb_runs = (diff_runs d m).1;
        consensus = tracks;
        comparable = true;
      }

  unfoldable pub compare_field :
      String → Option Consensus → Option Text → Bool → List Text → FieldComparison
  unfolding compare_value
  compare_field label disk mb unreadable_ also_matches =
      compare_value label (elim disk [ none ↦ none | some c ↦ c.value ]) mb unreadable_ disk
        also_matches

-- `FieldComparison.differs`
unfoldable pub is_finding : FieldComparison → Bool
is_finding f = f.comparable && elim f.agreement [
  | matches ↦ false
  | differs ↦ true
  | only_mb ↦ true
  | only_disk ↦ true
  | unreadable ↦ true
]

-- `FieldComparison.advisory`
unfoldable pub is_advisory : FieldComparison → Bool
is_advisory f = not f.comparable && elim f.agreement [ differs ↦ true | _ ↦ false ]
