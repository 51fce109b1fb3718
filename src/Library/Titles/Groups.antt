-- ===== src/Library/Titles/Groups.antt =====
-- The groups of a membership of src/harmonist/library_titles.py, and the other releases of a group where no
-- recheck is asked for.
use harmonist.Prelude.{
  ◌≤◌, String, Bool, true, false, not, ◌&&◌, ◌||◌, some, List, [], ◌∷◌, ◌++◌, ◌==◌, string_eq,
  option_eq, map, keep, any_of, contains, distinct, length, ◌≡◌, refl, inl, inr, beq_iff, beq_refl,
  beq→eq, arith, Bool-cases, ap, Compared,
}
use harmonist.Library.Titles.{Membership, pair_eq, releases_of, is_multiple, affected, changed}

-- A member of the group that is another release.
abbrev pub is_other : String → String → String × String → Bool
is_other m g p = some p.1 == some g && not (p.0 == m)

releases_other :
    (m g : String) (members : Membership)
    → any_of (λ r. not (r == m)) (releases_of g members) ≡ any_of (is_other m g) members
unfolding releases_of
releases_other m g [] = refl
releases_other m g ((r, h) ∷ members) = ground (arith, releases_other m g members)

releases_own :
    (m g : String) (members : Membership)
    → contains members (m, g) ≡ true
    → contains (releases_of g members) m ≡ true
unfolding releases_of
releases_own m g [] h = h
releases_own m g ((r, k) ∷ members) h = ground (arith, releases_own m g members)

any_of-contains :
    {A : Type 0} ⦃e : Compared A⦄ (test : A → Bool) (xs : List A) (a : A)
    → contains xs a ≡ true
    → test a ≡ true
    → any_of test xs ≡ true
any_of-contains test [] a h t = h
any_of-contains test (x ∷ xs) a h t = elim (Bool-cases (x == a)) [
  | inl at ↦ let same = beq→eq x a at in ground (arith, ap test same)
  | inr past ↦ ground (arith, any_of-contains test xs a)
]

contains-distinct : (xs : List String) (a : String) → contains (distinct xs) a ≡ contains xs a
contains-distinct [] a = refl
contains-distinct (x ∷ xs) a =
    ground (arith, contains-distinct xs a, contains-distinct xs x, beq_iff x a)

one_release :
    (xs : List String) (a b : String)
    → length xs ≤ 1
    → contains xs a ≡ true
    → contains xs b ≡ true
    → b == a ≡ true
one_release [] a b short ha hb = absurd (cc)
one_release (x ∷ []) a b short ha hb = ground (arith, beq_iff x a, beq_iff x b, beq_iff b a)
one_release (x ∷ y ∷ xs) a b short ha hb = absurd (omega arith)

none_other :
    (xs ys : List String) (a : String)
    → ((b : String) → contains ys b ≡ true → b == a ≡ true)
    → ((b : String) → contains xs b ≡ true → contains ys b ≡ true)
    → any_of (λ r. not (r == a)) xs ≡ false
none_other [] ys a only within = refl
none_other (x ∷ xs) ys a only within =
    ground (
      arith,
      only x,
      within x,
      beq_refl x,
      none_other xs ys a only (λ b h. within b (ground arith)),
    )

-- A group of one release has no other.
single_other :
    (m g : String) (members : Membership)
    → contains members (m, g) ≡ true
    → is_multiple members g ≡ false
    → any_of (is_other m g) members ≡ false
unfolding is_multiple
single_other m g members there single =
    let rs = releases_of g members in
    let own = releases_own m g members there in
    let short : length (distinct rs) ≤ 1 = ground arith in
    let only : (b : String) → contains (distinct rs) b ≡ true → b == m ≡ true =
      λ b h. one_release (distinct rs) m b short (ground (arith, contains-distinct rs m)) h in
    let alone =
      none_other rs (distinct rs) m only (λ b h. ground (arith, contains-distinct rs b)) in
    ground (arith, releases_other m g members)

-- What is in one set and not in the other is affected.
affected_by :
    (xs ys : Membership) (p : String × String)
    → contains xs p ≡ true
    → contains ys p ≡ false
    → contains (map (λ (q : String × String). q.1) (keep (λ q. not (contains ys q)) xs)) p.1 ≡ true
affected_by [] ys p h out = absurd (cc)
affected_by (x ∷ xs) ys p h out = elim (Bool-cases (x == p)) [
  | inl at ↦ let same = beq→eq x p at in rw same (ground (arith, beq_refl p.1))
  | inr past ↦ ground (arith, affected_by xs ys p)
]

contains-map-append :
    (f : String × String → String) (xs ys : Membership) (g : String)
    → contains (map f (xs ++ ys)) g ≡ (contains (map f xs) g || contains (map f ys) g)
contains-map-append f [] ys g = refl
contains-map-append f (x ∷ xs) ys g = ground (arith, contains-map-append f xs ys g)

others_within :
    (m g : String) (xs ys : Membership)
    → ((p : String × String) → contains xs p ≡ true → p.1 == g ≡ true → contains ys p ≡ true)
    → any_of (is_other m g) xs ≡ true
    → any_of (is_other m g) ys ≡ true
others_within m g [] ys within h = absurd (cc)
others_within m g (x ∷ xs) ys within h = elim (Bool-cases (is_other m g x)) [
  | inl at ↦
      any_of-contains (is_other m g) ys x (within x (ground (arith, beq_refl x)) (ground arith)) at
  | inr past ↦ others_within m g xs ys (λ p k. within p (ground arith)) (ground arith)
]

-- The members of a group that is not affected are in both sets.
unaffected_within :
    (before after : Membership) (g : String)
    → contains (affected before after) g ≡ false
    → ((p : String × String) → contains before p ≡ true → p.1 == g ≡ true → contains after p ≡ true)
      × ((p : String × String)
          → contains after p ≡ true
          → p.1 == g ≡ true
          → contains before p ≡ true)
unfolding affected
unaffected_within before after g out =
    let split =
      contains-map-append (λ p. p.1) (keep (λ p. not (contains after p)) before)
        (keep (λ p. not (contains before p)) after) g in
    (
      λ p h at.
          ground (
            arith,
            split,
            beq_iff p.1 g,
            affected_by before after p,
            Bool-cases (contains after p),
          ),
      λ p h at.
          ground (
            arith,
            split,
            beq_iff p.1 g,
            affected_by after before p,
            Bool-cases (contains before p),
          ),
    )

same_if : (a b : Bool) → (a ≡ true → b ≡ true) → (b ≡ true → a ≡ true) → a ≡ b
same_if a b f g = ground (arith, Bool-cases a, Bool-cases b)

any_of-false :
    (test : String → Bool) (gs : List String) (g : String)
    → any_of test gs ≡ false
    → contains gs g ≡ true
    → test g ≡ false
any_of-false test gs g h there = elim (Bool-cases (test g)) [
  | inl at ↦ absurd (ground (arith, any_of-contains test gs g there at))
  | inr past ↦ past
]

-- The release is in the library under the group, and so is another release of it.
abbrev pub has_twin : String → String → Membership → Bool
has_twin m g members = contains members (m, g) && any_of (is_other m g) members

-- A change after which no recheck is asked for leaves that as it is.
pub changed_twin :
    (before after : Membership) (m g : String)
    → changed true before after ≡ false
    → has_twin m g before ≡ has_twin m g after
unfolding changed
changed_twin before after m g quiet = elim (Bool-cases (contains (affected before after) g)) [
  | inl hit ↦
      let single =
        any_of-false (λ h. is_multiple before h || is_multiple after h) (affected before after) g
          quiet hit in
      ground (arith, single_other m g before, single_other m g after)
  | inr out ↦
      let within = unaffected_within before after g out in
      let present =
        same_if _ _ (λ c. within.0 (m, g) c (beq_refl g)) (λ c. within.1 (m, g) c (beq_refl g)) in
      let others =
        same_if _ _ (others_within m g before after within.0)
          (others_within m g after before within.1) in
      ground arith
]
