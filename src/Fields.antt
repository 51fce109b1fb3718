-- ===== src/Fields.antt =====
-- The rows of the album page in src/harmonist/compare.py: what an album's tracks say of a field, the runs
-- that mark a small difference, and the comparison of one value with MusicBrainz's. A text is the list of
-- its code points; `opcodes` stands for difflib's `SequenceMatcher.get_opcodes`.
pub mod Majority
pub mod Settled
pub mod Rows
pub mod Runs
pub mod Findings
mod Tests
use harmonist.Prelude.{
  ℕ, zero, suc, ◌+◌, ◌*◌, ◌-◌, max, String, Bool, true, false, not, ◌&&◌, ◌||◌, Option, none, some,
  List, [], ◌∷◌, ◌++◌, ◌==◌, nat_eq, Compared, list_eq, list_beq, list_beq_refl, list_beq→eq,
  compared_by, option_eq, ◌↔◌, ◌≡◌, refl, arith, beq_iff, beq_refl, length, map, keep, any_of,
  contains, count, slots_of, take, leb, ltb, sort_by, if◌then◌else◌, Bool-cases,
}

abbrev pub Text : Type 0
Text = List ℕ

instance abbrev pub text_eq : Compared Text
text_eq = list_eq

abbrev pub max_changed_runs : ℕ
max_changed_runs = 2

abbrev pub merge_gap : ℕ
merge_gap = 3

pub data Agreement : Type 0 where
  matches differs only_mb only_disk unreadable : Agreement

pub record Run : Type 0 where
  pub text : Text
  pub changed : Bool

-- `outliers` are pairs of a file and its value.
pub record Consensus : Type 0 where
  pub value : Option Text
  pub agreeing : ℕ
  pub total : ℕ
  pub outliers : List (String × Option Text)
  pub distinct_ : ℕ
  pub flag : Bool

unfoldable pub is_unanimous : Consensus → Bool
is_unanimous c = ltb 0 c.total && c.agreeing == c.total

-- The values that the tracks carry, in track order.
abbrev pub carried : List (String × Option Text) → List Text
carried values = slots_of (map (λ p. p.1) values)

-- The keys of `Counter(xs)`, in the order of their first insertion.
unfoldable pub counter_keys : List Text → List Text
counter_keys [] = []
counter_keys (x ∷ xs) = x ∷ keep (λ y. not (y == x)) (counter_keys xs)

-- `Counter(xs).most_common()`, without the counts.
unfoldable pub most_common : List Text → List Text
unfolding counter_keys
most_common xs = sort_by (λ v w. leb (count w xs) (count v xs)) (counter_keys xs)

-- `next(x for x in xs if test(x))`
unfoldable pub first_that : (Text → Bool) → List Text → Option Text
first_that test [] = none
first_that test (x ∷ xs) = let rest = first_that test xs in if test x then some x else rest

unfoldable pub tied_with : Text → List Text → List Text
unfolding most_common
tied_with top xs = keep (λ v. count v xs == count top xs) (most_common xs)

unfoldable pub winner : List Text → Option Text
unfolding most_common tied_with first_that
winner xs = elim (most_common xs) [
  | [] ↦ none
  | top ∷ rest ↦
      let tied = tied_with top xs in
      if ltb 1 (length tied) then first_that (contains tied) xs else some top
]

abbrev pub no_consensus : ℕ → Bool → Consensus
no_consensus total flag = record {
  value = none;
  agreeing = 0;
  total = total;
  outliers = [];
  distinct_ = 0;
  flag = flag;
}

unfoldable pub consensus : List (String × Option Text) → Consensus
unfolding winner
consensus values = elim (winner (carried values)) [
  | none ↦ no_consensus (length values) false
  | some w ↦ record {
    value = some w;
    agreeing = count w (carried values);
    total = length values;
    outliers = keep (λ (p : String × Option Text). not (p.1 == some w)) values;
    distinct_ = length (counter_keys (carried values));
    flag = false;
  }
]

abbrev pub flag_yes : Text
flag_yes = 89 ∷ 101 ∷ 115 ∷ []

abbrev pub flag_no : Text
flag_no = 78 ∷ 111 ∷ []

abbrev pub spell_flag : String × Option Text → String × Option Text
spell_flag (name, none) = (name, some flag_no)
spell_flag (name, some v) = (name, some flag_yes)

unfoldable pub flag_consensus : List (String × Option Text) → Consensus
unfolding counter_keys
flag_consensus [] = no_consensus 0 true
flag_consensus (first ∷ rest) =
    let spelt = map spell_flag (first ∷ rest) in
    let w = if contains (carried spelt) flag_yes then flag_yes else flag_no in
    record {
      value = some w;
      agreeing = count w (carried spelt);
      total = length (first ∷ rest);
      outliers = keep (λ (p : String × Option Text). not (p.1 == some w)) spelt;
      distinct_ = length (counter_keys (carried spelt));
      flag = true;
    }
