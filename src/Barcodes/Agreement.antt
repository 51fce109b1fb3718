-- ===== src/Barcodes/Agreement.antt =====
-- What `evidence` asks of the files before it names a barcode.
use harmonist.Prelude.{
  ℕ, zero, suc, ◌≡◌, refl, sym, ap, ◌∙◌, Bool, true, false, Option, none, some, List, [], ◌∷◌,
  nat_eq, map, concat, any_of, any_of-map, every, get_elem?, get_elem?-map, arith, inl, inr,
  Bool-cases, Option-cases, keep, subst, ◌-◌,
}
use harmonist.Barcodes.{
  BarcodeFields, values_of, same_digits, same_code, is_one_code, variants, drop, is_empty_list,
  evidence, normalise,
}

same_digits→eq : (us vs : List ℕ) → same_digits us vs ≡ true → us ≡ vs
unfolding same_digits
same_digits→eq [] [] h = refl
same_digits→eq [] (y ∷ vs) h = absurd (cc)
same_digits→eq (x ∷ us) [] h = absurd (cc)
same_digits→eq (x ∷ us) (y ∷ vs) h = ground (arith, same_digits→eq us vs)

same_code→eq : (c d : Option (List ℕ)) → same_code c d ≡ true → c ≡ d
unfolding same_code
same_code→eq none none h = refl
same_code→eq none (some b) h = absurd (cc)
same_code→eq (some a) none h = absurd (cc)
same_code→eq (some a) (some b) h = ap some (same_digits→eq a b h)

every-at :
    (c : Option (List ℕ)) (ds : List (Option (List ℕ))) (i : ℕ) (d : Option (List ℕ))
    → every (λ e. same_code e c) ds ≡ true
    → get_elem? ds i ≡ some d
    → d ≡ c
every-at c [] i d h at = absurd (cc)
every-at c (e ∷ ds) zero d h at =
    sym (ap (λ o. elim o [ none ↦ e | some z ↦ z ]) at) ∙ same_code→eq e c (ground arith)
every-at c (e ∷ ds) (suc i) d h at = every-at c ds i d (ground arith) at

one_code :
    (codes : List (Option (List ℕ)))
    → is_one_code codes ≡ true
    → (code : List ℕ) × ((i : ℕ) (d : Option (List ℕ)) → get_elem? codes i ≡ some d → d ≡ some code)
unfolding is_one_code
one_code [] h = absurd (cc)
one_code (none ∷ codes) h = absurd (cc)
one_code (some code ∷ codes) h = (code, λ i d at. at_each i d at)
  where
    at_each :
        (i : ℕ) (d : Option (List ℕ)) → get_elem? (some code ∷ codes) i ≡ some d → d ≡ some code
    at_each zero d at = sym (ap (λ o. elim o [ none ↦ some code | some z ↦ z ]) at)
    at_each (suc i) d at = every-at (some code) codes i d h at

guards :
    (fields : List BarcodeFields) (source_only : Bool) (found : List ℕ)
    → evidence fields source_only ≡ some found
    → (any_of (λ f. f.unreadable) fields ≡ false)
      × (any_of is_empty_list (map (values_of source_only) fields) ≡ false)
      × (is_one_code (map normalise (concat (map (values_of source_only) fields))) ≡ true)
unfolding evidence
guards fields source_only found h = ground arith

-- Where there is evidence, every file can be read, every file has a barcode, and all their barcodes
-- are valid spellings of one code.
evidence_agrees :
    (fields : List BarcodeFields) (source_only : Bool) (found : List ℕ)
    → evidence fields source_only ≡ some found
    → (any_of (λ f. f.unreadable) fields ≡ false)
      × (any_of (λ f. is_empty_list (values_of source_only f)) fields ≡ false)
      × ((code : List ℕ) × ((i : ℕ) (value : List ℕ)
            → get_elem? (concat (map (values_of source_only) fields)) i ≡ some value
            → normalise value ≡ some code))
evidence_agrees fields source_only found h =
    let (readable, present, one) = guards fields source_only found h in
    let (code, all) = one_code _ one in
    (
      readable,
      sym (any_of-map is_empty_list (values_of source_only) fields) ∙ present,
      (code, λ i value at. all i (normalise value) (get_elem?-map normalise _ i value at)),
    )

keep-test :
    (test : List ℕ → Bool) (xs : List (List ℕ)) (i : ℕ) (v : List ℕ)
    → get_elem? (keep test xs) i ≡ some v
    → test v ≡ true
keep-test test [] i v h = absurd (cc)
keep-test test (x ∷ xs) zero v h = elim (Bool-cases (test x)) [
  | inl passes ↦
      let same : x ≡ v = ap (λ o. elim o [ none ↦ x | some z ↦ z ]) (rw passes at h) in
      subst (λ z. test z ≡ true) same passes
  | inr fails ↦ keep-test test xs zero v (rw fails at h)
]
keep-test test (x ∷ xs) (suc i) v h = elim (Bool-cases (test x)) [
  | inl passes ↦ keep-test test xs i v (rw passes at h)
  | inr fails ↦ keep-test test xs (suc i) v (rw fails at h)
]

-- Each spelling that `variants` offers of a value has the canonical form of the value.
variants_agree :
    (value v : List ℕ) (i : ℕ)
    → get_elem? (variants value) i ≡ some v
    → normalise v ≡ normalise value
unfolding variants
variants_agree value v i h = elim (Option-cases (normalise value)) [
  | inl refused ↦ absurd (ground (arith, refused))
  | inr (canonical, e) ↦
      same_code→eq (normalise v) (some canonical) (
        keep-test (λ u. same_code (normalise u) (some canonical))
          (map (λ n. drop (14 - n) canonical) (8 ∷ 12 ∷ 13 ∷ 14 ∷ [])) i v
          (subst
            (λ o.
              get_elem?
                (elim o [
                  | none ↦ []
                  | some c ↦
                      keep (λ u. same_code (normalise u) (some c))
                        (map (λ n. drop (14 - n) c) (8 ∷ 12 ∷ 13 ∷ 14 ∷ []))
                ])
                i
              ≡ some v)
            e h))
      ∙ sym e
]
