-- ===== src/Structure/Frame.antt =====
-- The stages of `pairs` leave the slots of the files they have no key for.
use harmonist.Prelude.{
  ℕ, zero, suc, ◌+◌, ◌≡◌, ◌≢◌, ◌<◌, refl, ap, ◌∙◌, subst, Option, none, some, List, [], ◌∷◌, nat_eq,
  string_eq, option_eq, set, get_elem?, arith,
}
use harmonist.Structure.{State, give, take_only, each}

pub get_elem?-set_other :
    (xs : List (Option ℕ)) (i n : ℕ) (a : Option ℕ)
    → i ≢ n
    → get_elem? (set xs i a) n ≡ get_elem? xs n
get_elem?-set_other [] i n a ne = refl
get_elem?-set_other (x ∷ xs) zero zero a ne = absurd (ne refl)
get_elem?-set_other (x ∷ xs) zero (suc n) a ne = refl
get_elem?-set_other (x ∷ xs) (suc i) zero a ne = refl
get_elem?-set_other (x ∷ xs) (suc i) (suc n) a ne =
    get_elem?-set_other xs i n a (λ e. ne (ap suc e))

-- A step leaves the slots of the files but its own.
abbrev pub IsLocal {ℓ} : {K : Type ℓ} → (K → ℕ → State → State) → Type ℓ
IsLocal {K} step =
    (k : K) (i n : ℕ) (s : State) → i ≢ n → get_elem? (step k i s).slots n ≡ get_elem? s.slots n

pub take_only-local :
    (candidates : List ℕ) (i n : ℕ) (s : State)
    → i ≢ n
    → get_elem? (take_only i candidates s).slots n ≡ get_elem? s.slots n
unfolding take_only give
take_only-local [] i n s ne = refl
take_only-local (j ∷ []) i n s ne = get_elem?-set_other s.slots i n (some j) ne
take_only-local (j ∷ k ∷ ks) i n s ne = refl

-- A loop leaves the slots before its first file.
each-before {ℓ} :
    {K : Type ℓ} (step : K → ℕ → State → State) (keys : List K) (i n : ℕ) (s : State)
    → IsLocal step
    → n < i
    → get_elem? (each step keys i s).slots n ≡ get_elem? s.slots n
unfolding each
each-before step [] i n s l lt = refl
each-before step (k ∷ keys) i n s l lt =
    each-before step keys (suc i) n (step k i s) l (omega arith) ∙ l k i n s (λ e. omega (arith, e))

key_at {ℓ} : {K : Type ℓ} (h k : K) (keys : List K) → get_elem? (h ∷ keys) 0 ≡ some k → h ≡ k
key_at h k keys e = ap (λ o. elim o [ none ↦ h | some z ↦ z ]) e

-- A loop leaves the slot of a file whose key, if it has one, its step skips.
pub each-skips {ℓ} :
    {K : Type ℓ} (step : K → ℕ → State → State) (keys : List K) (i n m : ℕ) (s : State)
    → IsLocal step
    → m ≡ i + n
    → ((k : K) (u : State) → get_elem? keys n ≡ some k → step k m u ≡ u)
    → get_elem? (each step keys i s).slots m ≡ get_elem? s.slots m
unfolding each
each-skips step [] i n m s l e skip = refl
each-skips step (h ∷ keys) i zero m s l e skip =
    each-before step keys (suc i) m (step h i s) l (omega (arith, e))
    ∙ ap (λ u. get_elem? u.slots m) (subst (λ a. step h a s ≡ s) (omega (arith, e)) (skip h s refl))
each-skips step (h ∷ keys) i (suc n) m s l e skip =
    each-skips step keys (suc i) n m (step h i s) l (omega (arith, e)) (λ k u at. skip k u at)
    ∙ l h i m s (λ f. omega (arith, e, f))

-- The slot that a loop gives a file is the one its step gives it, in the state that it finds there.
pub each-gives {ℓ} :
    {K : Type ℓ} (step : K → ℕ → State → State) (keys : List K) (k : K) (i n m : ℕ) (s : State)
    (Holds : State → Type 0)
    → IsLocal step
    → m ≡ i + n
    → get_elem? keys n ≡ some k
    → ((h : K) (j a : ℕ) (u : State)
        → get_elem? keys j ≡ some h
        → j ≢ n
        → Holds u
        → Holds (step h a u))
    → Holds s
    → (u : State) × Holds u
      × (get_elem? (each step keys i s).slots m ≡ get_elem? (step k m u).slots m)
      × (get_elem? u.slots m ≡ get_elem? s.slots m)
unfolding each
each-gives step [] k i n m s Holds l e at keeps holds = absurd (cc)
each-gives step (h ∷ keys) k i zero m s Holds l e at keeps holds = (
  s,
  holds,
  each-before step keys (suc i) m (step h i s) l (omega (arith, e))
      ∙ subst (λ a. get_elem? (step h i s).slots m ≡ get_elem? (step h a s).slots m)
          (omega (arith, e)) refl
      ∙ ap (λ a. get_elem? (step a m s).slots m) (key_at h k keys at),
  refl,
)
each-gives step (h ∷ keys) k i (suc n) m s Holds l e at keeps holds =
    let (u, w, eq, same) =
      each-gives step keys k (suc i) n m (step h i s) Holds l (omega (arith, e)) at
        (λ g j a v at_j ne. keeps g (suc j) a v at_j (λ f. ne (omega (arith, f))))
        (keeps h 0 i s refl (λ f. omega (arith, f)) holds) in
    (u, w, eq, same ∙ l h i m s (λ f. omega (arith, e, f)))
