-- ===== src/DiscFill/Unique.antt =====
-- `automatic` answers only where there is one answer: one folder for a disc, and one disc for a folder.
use harmonist.Prelude.{
  ℕ, zero, suc, String, ◌≡◌, ◌≤◌, ◌⊎◌, refl, sym, ap, ◌∙◌, Bool, Option, none, some, List, [], ◌∷◌,
  ◌==◌, nat_eq, string_eq, beq_iff, keep, count, get_elem?, arith, inl, inr, Bool-cases,
  if◌then◌else◌,
}
use harmonist.DiscFill.{Album, Candidate, only_fitting, ids_of, automatic}

-- An id that a sublist of entries keeps, by a test on ids, is kept as often or not at all.
count-kept :
    (test : String → Bool) (x : String) (only : List (ℕ × Album))
    → count x (ids_of (keep (λ (p : ℕ × Album). test p.1.id) only))
      ≡ (if test x then count x (ids_of only) else 0)
count-kept test x [] = ground arith
count-kept test x (p ∷ only) = elim (Bool-cases (p.1.id == x)) [
  | inl here ↦
      let same = ap test ((beq_iff p.1.id x).0 here) in
      elim (Bool-cases (test x)) [
        | inl passes ↦ rw (same ∙ passes) (ground (arith, count-kept test x only))
        | inr fails ↦ rw (same ∙ fails) (ground (arith, count-kept test x only))
      ]
  | inr other ↦ elim (Bool-cases (test p.1.id)) [
    | inl passes ↦ rw passes (ground (arith, count-kept test x only))
    | inr fails ↦ rw fails (ground (arith, count-kept test x only))
  ]
]

-- No folder is chosen for two discs.
automatic_once :
    (found : List (ℕ × List Candidate)) (id : String) → count id (ids_of (automatic found)) ≤ 1
unfolding automatic
automatic_once found id =
    let ids = ids_of (only_fitting found) in
    ground (arith, count-kept (λ x. count x ids == 1) id (only_fitting found))

keep-get_elem? {ℓ} :
    {A : Type ℓ} (test : A → Bool) (xs : List A) (i : ℕ) (v : A)
    → get_elem? (keep test xs) i ≡ some v
    → (j : ℕ) × (get_elem? xs j ≡ some v)
keep-get_elem? test [] i v h = absurd (cc)
keep-get_elem? test (x ∷ xs) zero v h = elim (Bool-cases (test x)) [
  | inl passes ↦ (0, rw passes at h)
  | inr fails ↦ let (j, at) = keep-get_elem? test xs zero v (rw fails at h) in (suc j, at)
]
keep-get_elem? test (x ∷ xs) (suc i) v h = elim (Bool-cases (test x)) [
  | inl passes ↦ let (j, at) = keep-get_elem? test xs i v (rw passes at h) in (suc j, at)
  | inr fails ↦ let (j, at) = keep-get_elem? test xs (suc i) v (rw fails at h) in (suc j, at)
]

-- A disc whose one fitting candidate is the album's.
pub record IsOnly (found : List (ℕ × List Candidate)) (disc : ℕ) (album : Album) : Type 0 where
  pub index : ℕ
  pub cands : List Candidate
  pub only : Candidate
  pub is_disc : get_elem? found index ≡ some (disc, cands)
  pub fitting : keep (λ c. c.fits) cands ≡ only ∷ []
  pub is_album : only.album ≡ album

later :
    (entry : ℕ × List Candidate) (found : List (ℕ × List Candidate)) (disc : ℕ) (album : Album)
    → IsOnly found disc album
    → IsOnly (entry ∷ found) disc album
later entry found disc album o = record {
  index = suc o.index;
  cands = o.cands;
  only = o.only;
  is_disc = o.is_disc;
  fitting = o.fitting;
  is_album = o.is_album;
}

kept_cases :
    (cands : List Candidate)
    → ((c : Candidate) × (keep (λ d. d.fits) cands ≡ c ∷ []))
      ⊎ ((disc : ℕ) (found : List (ℕ × List Candidate))
          → only_fitting ((disc, cands) ∷ found) ≡ only_fitting found)
unfolding only_fitting
kept_cases cands = go (keep (λ d. d.fits) cands) refl
  where
    go :
        (kept : List Candidate)
        → keep (λ d. d.fits) cands ≡ kept
        → ((c : Candidate) × (keep (λ d. d.fits) cands ≡ c ∷ []))
          ⊎ ((disc : ℕ) (found : List (ℕ × List Candidate))
              → only_fitting ((disc, cands) ∷ found) ≡ only_fitting found)
    go [] e = inr (λ disc found. ground (arith, e))
    go (c ∷ []) e = inl (c, e)
    go (c ∷ d ∷ ds) e = inr (λ disc found. ground (arith, e))

only_fitting-cons :
    (disc : ℕ) (cands : List Candidate) (found : List (ℕ × List Candidate)) (c : Candidate)
    → keep (λ d. d.fits) cands ≡ c ∷ []
    → only_fitting ((disc, cands) ∷ found) ≡ (disc, c.album) ∷ only_fitting found
unfolding only_fitting
only_fitting-cons disc cands found c e = ground (arith, e)

same_entry :
    (d e : ℕ) (a b : Album)
    → ◌≡◌ {A = Option (ℕ × Album)} (some (d, a)) (some (e, b))
    → (d ≡ e) × (a ≡ b)
same_entry d e a b h =
    let p = ap (λ (o : Option (ℕ × Album)). elim o [ none ↦ (d, a) | some z ↦ z ]) h in
    (ap (λ (q : ℕ × Album). q.0) p, ap (λ (q : ℕ × Album). q.1) p)

only_fitting-IsOnly :
    (found : List (ℕ × List Candidate)) (i disc : ℕ) (album : Album)
    → get_elem? (only_fitting found) i ≡ some (disc, album)
    → IsOnly found disc album
unfolding only_fitting
only_fitting-IsOnly [] i disc album h = absurd (cc)
only_fitting-IsOnly ((d, cands) ∷ found) zero disc album h = elim (kept_cases cands) [
  | inr skipped ↦
      later (d, cands) found disc album
        (only_fitting-IsOnly found zero disc album
          (ap (λ os. get_elem? os zero) (sym (skipped d found)) ∙ h))
  | inl (c, e) ↦
      let (same, is) =
        same_entry d disc c.album album
          (ap (λ os. get_elem? os zero) (sym (only_fitting-cons d cands found c e)) ∙ h) in
      record {
        index = 0;
        cands = cands;
        only = c;
        is_disc = ap (λ n. some (n, cands)) same;
        fitting = e;
        is_album = is;
      }
]
only_fitting-IsOnly ((d, cands) ∷ found) (suc i) disc album h = elim (kept_cases cands) [
  | inr skipped ↦
      later (d, cands) found disc album
        (only_fitting-IsOnly found (suc i) disc album
          (ap (λ os. get_elem? os (suc i)) (sym (skipped d found)) ∙ h))
  | inl (c, e) ↦
      later (d, cands) found disc album
        (only_fitting-IsOnly found i disc album
          (ap (λ os. get_elem? os (suc i)) (sym (only_fitting-cons d cands found c e)) ∙ h))
]

-- Each disc that `automatic` fills has one candidate that fits, and is filled by it.
pub automatic-IsOnly :
    (found : List (ℕ × List Candidate)) (i disc : ℕ) (album : Album)
    → get_elem? (automatic found) i ≡ some (disc, album)
    → IsOnly found disc album
unfolding automatic
automatic-IsOnly found i disc album h =
    let (j, at) = keep-get_elem? _ (only_fitting found) i (disc, album) h in
    only_fitting-IsOnly found j disc album at
