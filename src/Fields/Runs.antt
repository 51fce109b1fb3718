-- ===== src/Fields/Runs.antt =====
-- The runs of `diff_runs` in src/harmonist/compare.py give the two values back.
use harmonist.Prelude.{
  ℕ, ◌+◌, ◌-◌, ◌≤◌, ◌≡◌, inl, inr, refl, ap, sym, ◌∙◌, Bool, true, false, not, ◌&&◌, List, [], ◌∷◌,
  ◌++◌, ◌==◌, arith, length, drop, drop-add, take-append-drop, ltb, if◌then◌else◌, Bool-cases,
}
use mathlib.Core.List.{append_assoc, append-nil}
use harmonist.Fields.{Text, text_eq, Run}
use harmonist.Fields.Rows.{
  Opcode, slice, same_flag, bridge, bridge_gaps, extend, join_runs, merge, side_runs, too_scattered,
  diff_runs,
}

-- The texts of the runs, one after the other.
abbrev pub joined : List Run → Text
joined [] = []
joined (r ∷ rs) = r.text ++ joined rs

bridge-joined : (previous : Run) (rs : List Run) → joined (bridge previous rs) ≡ joined rs
unfolding bridge
bridge-joined previous [] = refl
bridge-joined previous (r ∷ []) = refl
bridge-joined previous (r ∷ next ∷ rest) =
    let short = not r.changed && (ltb (length r.text) 3 && (previous.changed && next.changed)) in
    let bridged : Run = if short then record { text = r.text; changed = true } else r in
    let same : bridged.text ≡ r.text = ground arith in
    rw (same, bridge-joined bridged (next ∷ rest)) refl

extend-joined : (out : List Run) (r : Run) → joined (extend out r) ≡ joined out ++ r.text
unfolding extend
extend-joined [] r = append-nil r.text
extend-joined (last ∷ []) r = elim (Bool-cases (same_flag last.changed r.changed)) [
  | inl same ↦
      rw same
        (append-nil (last.text ++ r.text) ∙ ap (λ t. t ++ r.text) (sym (append-nil last.text)))
  | inr other ↦ rw (other, append-nil r.text, append-nil last.text) refl
]
extend-joined (first ∷ next ∷ out) r =
    rw (extend-joined (next ∷ out) r) (sym (append_assoc first.text (joined (next ∷ out)) r.text))

join_runs-joined : (out rs : List Run) → joined (join_runs out rs) ≡ joined out ++ joined rs
unfolding join_runs
join_runs-joined out [] = sym (append-nil (joined out))
join_runs-joined out (r ∷ rs) =
    rw (join_runs-joined (extend out r) rs, extend-joined out r)
      (append_assoc (joined out) r.text (joined rs))

merge-joined : (rs : List Run) → joined (merge rs) ≡ joined rs
unfolding merge bridge_gaps
merge-joined [] = join_runs-joined [] []
merge-joined (r ∷ rs) =
    join_runs-joined [] (r ∷ bridge r rs) ∙ ap (λ t. r.text ++ t) (bridge-joined r rs)

-- The operations stand side by side from a place to the end of a text, as difflib documents.
abbrev pub Tiles : (Opcode → ℕ) → (Opcode → ℕ) → ℕ → ℕ → List Opcode → Type 0
Tiles start stop from end [] = from ≡ end
Tiles start stop from end (op ∷ ops) =
    (start op ≡ from) × (from ≤ stop op) × Tiles start stop (stop op) end ops

drop_all : (t : Text) → drop (length t) t ≡ []
drop_all [] = refl
drop_all (c ∷ t) = drop_all t

slice-drop : (i j : ℕ) (t : Text) → i ≤ j → slice i j t ++ drop j t ≡ drop i t
slice-drop i j t le =
    let e : j ≡ i + (j - i) = omega arith in
    ap (λ r. slice i j t ++ r) (ap (λ k. drop k t) e ∙ drop-add i (j - i) t)
    ∙ take-append-drop (j - i) (drop i t)

side_runs-joined :
    (start stop : Opcode → ℕ) (t : Text) (from : ℕ) (ops : List Opcode)
    → Tiles start stop from (length t) ops
    → joined (side_runs start stop t ops) ≡ drop from t
unfolding side_runs
side_runs-joined start stop t from [] e = sym (ap (λ k. drop k t) e ∙ drop_all t)
side_runs-joined start stop t from (op ∷ ops) (at, le, rest) =
    let later = side_runs-joined start stop t (stop op) ops rest in
    elim (Bool-cases (ltb (start op) (stop op))) [
      | inl some_ ↦ rw some_ (
          ap (λ r. slice (start op) (stop op) t ++ r) later
          ∙ (slice-drop (start op) (stop op) t (omega (arith, at, le)) ∙ ap (λ k. drop k t) at))
      | inr none_ ↦
          let end : stop op ≡ from = ground arith in rw none_ (later ∙ ap (λ k. drop k t) end)
    ]

-- What difflib documents of its operations: they cover both texts from end to end.
abbrev pub Covers : (Text → Text → List Opcode) → Type 0
Covers opcodes =
    (a b : Text)
    → Tiles (λ op. op.i1) (λ op. op.i2) 0 (length a) (opcodes a b)
      × Tiles (λ op. op.j1) (λ op. op.j2) 0 (length b) (opcodes a b)

-- No two neighbours are both changed or both unchanged.
abbrev pub alternating : List Run → Bool
alternating [] = true
alternating (r ∷ []) = true
alternating (r ∷ next ∷ rs) = not (same_flag r.changed next.changed) && alternating (next ∷ rs)

-- The first run keeps its flag when another is added.
abbrev headed : Bool → List Run → Bool
headed flag [] = true
headed flag (r ∷ rs) = same_flag flag r.changed

extend-headed :
    (first : Run) (out : List Run) (r : Run) → headed first.changed (extend (first ∷ out) r) ≡ true
unfolding extend
extend-headed first [] r = ground arith
extend-headed first (next ∷ out) r = ground arith

alternating-cons :
    (first next : Run) (rs : List Run)
    → same_flag first.changed next.changed ≡ false
    → headed next.changed rs ≡ true
    → alternating rs ≡ true
    → alternating (first ∷ rs) ≡ true
alternating-cons first next [] d h a = refl
alternating-cons first next (r ∷ rs) d h a = ground arith

extend-alternating :
    (out : List Run) (r : Run) → alternating out ≡ true → alternating (extend out r) ≡ true
unfolding extend
extend-alternating [] r a = refl
extend-alternating (last ∷ []) r a = ground arith
extend-alternating (first ∷ next ∷ out) r a =
    alternating-cons first next (extend (next ∷ out) r) (ground arith) (extend-headed next out r)
      (extend-alternating (next ∷ out) r (ground arith))

join_runs-alternating :
    (out rs : List Run) → alternating out ≡ true → alternating (join_runs out rs) ≡ true
unfolding join_runs
join_runs-alternating out [] a = a
join_runs-alternating out (r ∷ rs) a =
    join_runs-alternating (extend out r) rs (extend-alternating out r a)

merge-alternating : (rs : List Run) → alternating (merge rs) ≡ true
unfolding merge
merge-alternating rs = join_runs-alternating [] (bridge_gaps rs) refl

-- Two values that differ by few or short edits are each given back by the runs of their side, joined, and
-- neighbouring runs differ in whether they are marked, where difflib's operations cover both values.
pub diff_runs-joined :
    (opcodes : Text → Text → List Opcode) (a b : Text)
    → Covers opcodes
    → (a == b) ≡ false
    → too_scattered a b (opcodes a b) ≡ false
    → (joined (diff_runs opcodes a b).0 ≡ a)
      × (joined (diff_runs opcodes a b).1 ≡ b)
      × (alternating (diff_runs opcodes a b).0 ≡ true)
      × (alternating (diff_runs opcodes a b).1 ≡ true)
unfolding diff_runs
diff_runs-joined opcodes a b covers differ few =
    let (left, right) = covers a b in
    let ops = opcodes a b in
    let a_runs = side_runs (λ op. op.i1) (λ op. op.i2) a ops in
    let b_runs = side_runs (λ op. op.j1) (λ op. op.j2) b ops in
    rw (differ, few)
      (
        merge-joined a_runs ∙ side_runs-joined (λ op. op.i1) (λ op. op.i2) a 0 ops left,
        merge-joined b_runs ∙ side_runs-joined (λ op. op.j1) (λ op. op.j2) b 0 ops right,
        merge-alternating a_runs,
        merge-alternating b_runs,
      )
