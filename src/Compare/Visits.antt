-- ===== src/Compare/Visits.antt =====
-- The inner loop of `compare.assign`, file by file: what a visit can do, and what the loop keeps.
use harmonist.Prelude.{
  ℕ, ◌≡◌, refl, ◌⊎◌, inl, inr, false, Option, none, some, List, ◌∷◌, ◌==◌, nat_eq, beq→eq, count,
  contains, Bool-cases, Option-cases,
}
use harmonist.Compare.{TrackIdentity, Key, key_eq, Rung, get, visit}

module _ (rung : Rung) (slot_of : List (Key × ℕ)) (claims : List Key) where
  -- What a visit that gives a slot has found.
  pub record Gives (f : TrackIdentity) (taken : List ℕ) (key : Key) (slot : ℕ) : Type 0 where
    pub read : rung f ≡ some key
    pub alone : count key claims ≡ 1
    pub known : get slot_of key ≡ some slot
    pub is_free : contains taken slot ≡ false

  -- A visit changes nothing, or gives a file with no slot a free one.
  pub visit_cases :
      (f : TrackIdentity) (o : Option ℕ) (taken : List ℕ)
      → (visit rung slot_of claims f o taken ≡ (o, taken))
        ⊎ ((key : Key) × (slot : ℕ) × Gives f taken key slot
            × (o ≡ none)
            × (visit rung slot_of claims f o taken ≡ (some slot, slot ∷ taken)))
  unfolding visit
  visit_cases f (some slot) taken = inl refl
  visit_cases f none taken = elim (Option-cases (rung f)) [
    | inl silent ↦ inl (rw (silent, visit))
    | inr (key, read) ↦ elim (Bool-cases (count key claims == 1)) [
      | inl alone ↦ elim (Option-cases (get slot_of key)) [
        | inl absent ↦ inl (rw (read, visit) (rw alone (rw absent)))
        | inr (slot, known) ↦ elim (Bool-cases (contains taken slot)) [
          | inl gone ↦ inl (rw (read, visit) (rw alone (rw (known) (rw gone))))
          | inr is_free ↦ inr (
            key,
            slot,
            record {
              read = read;
              alone = beq→eq (count key claims) 1 alone;
              known = known;
              is_free = is_free;
            },
            refl,
            rw (read, visit) (rw alone (rw known (rw is_free))),
          )
        ]
      ]
      | inr shared ↦ inl (rw (read, visit) (rw shared))
    ]
  ]
