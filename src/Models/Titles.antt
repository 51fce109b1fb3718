-- ===== src/Models/Titles.antt =====
-- `models.titles_match`: the greedy walk over an iterator decides the subsequence relation.
use harmonist.Prelude.{
  String, ◌≡◌, refl, ◌↔◌, ◌⊎◌, inl, inr, true, some, List, [], ◌∷◌, ◌==◌, string_eq, beq→eq,
  beq_refl, arith, Option-cases, Bool-cases, subst, ◌≢◌,
}
use harmonist.Models.{advance_past, is_word_subsequence, titles_match}

-- The words of the first list stand in the second in their order, with gaps.
pub data Within : List String → List String → Type 0 where
  done : (long : List String) → Within [] long
  skip : (w : String) {short long : List String} → Within short long → Within short (w ∷ long)
  word : (w : String) {short long : List String} → Within short long → Within (w ∷ short) (w ∷ long)

Within-tail : {w : String} {short long : List String} → Within (w ∷ short) long → Within short long
Within-tail (skip v s) = skip v (Within-tail s)
Within-tail (word w s) = skip w s

-- What is left behind the first occurrence still holds whatever follows the word.
advance_past-Within :
    (w : String) (short long rest : List String)
    → advance_past w long ≡ some rest
    → Within short rest
    → Within (w ∷ short) long
unfolding advance_past
advance_past-Within w short [] rest h s = absurd (cc)
advance_past-Within w short (v ∷ long) rest h s = elim (Bool-cases (v == w)) [
  | inl same ↦
      subst (λ x. Within (x ∷ short) (v ∷ long)) (beq→eq v w same)
        (word v (subst (λ r. Within short r) (ground arith) s))
  | inr other ↦ skip v (advance_past-Within w short long rest (ground arith) s)
]

-- A walk that takes the first occurrence of a word leaves room for the rest.
Within-advance_past :
    {w : String} {short long : List String}
    → Within (w ∷ short) long
    → (rest : List String) × (advance_past w long ≡ some rest) × Within short rest
unfolding advance_past
Within-advance_past {w} (skip v {long = l} s) = elim (Bool-cases (v == w)) [
  | inl same ↦ (l, ground arith, Within-tail s)
  | inr other ↦ let (rest, e, r) = Within-advance_past s in (rest, ground arith, r)
]
Within-advance_past (word w {long = l} s) = (l, ground (arith, beq_refl w), s)

is_word_subsequence_sound :
    (short long : List String) → is_word_subsequence short long ≡ true → Within short long
unfolding is_word_subsequence
is_word_subsequence_sound [] long h = done long
is_word_subsequence_sound (w ∷ short) long h = elim (Option-cases (advance_past w long)) [
  | inl out ↦ absurd (ground arith)
  | inr (rest, e) ↦
      advance_past-Within w short long rest e (is_word_subsequence_sound short rest (ground arith))
]

is_word_subsequence_complete :
    (short long : List String) → Within short long → is_word_subsequence short long ≡ true
unfolding is_word_subsequence
is_word_subsequence_complete [] long s = refl
is_word_subsequence_complete (w ∷ short) long s =
    let (rest, e, r) = Within-advance_past s in
    ground (arith, is_word_subsequence_complete short rest r)

-- Two titles match exactly when both have words and one's words stand in the other's, in order.
titles_match_iff :
    (a b : List String)
    → (titles_match a b ≡ true) ↔ ((a ≢ []) × (b ≢ []) × (Within a b ⊎ Within b a))
unfolding titles_match
titles_match_iff [] b = (λ h. absurd (cc), λ (n, _, _). absurd (n refl))
titles_match_iff (x ∷ a) [] = (λ h. absurd (cc), λ (_, n, _). absurd (n refl))
titles_match_iff (x ∷ a) (y ∷ b) = (
  λ h. ((λ e. cc), (λ e. cc), found h),
  λ (_, _, s). elim s [
    | inl s' ↦ ground (arith, is_word_subsequence_complete (x ∷ a) (y ∷ b) s')
    | inr s' ↦ ground (arith, is_word_subsequence_complete (y ∷ b) (x ∷ a) s')
  ],
)
  where
    found : titles_match (x ∷ a) (y ∷ b) ≡ true → Within (x ∷ a) (y ∷ b) ⊎ Within (y ∷ b) (x ∷ a)
    found h = elim (Bool-cases (is_word_subsequence (x ∷ a) (y ∷ b))) [
      | inl here ↦ inl (is_word_subsequence_sound (x ∷ a) (y ∷ b) here)
      | inr there ↦ inr (is_word_subsequence_sound (y ∷ b) (x ∷ a) (ground arith))
    ]
