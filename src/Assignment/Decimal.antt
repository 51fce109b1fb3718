-- ===== src/Assignment/Decimal.antt =====
-- Python's `str` and `int` on naturals, as the drafts of src/harmonist/track_assignment.py write
-- and read the indices of rows.
use harmonist.Prelude.{
  ℕ, zero, suc, ◌+◌, ◌-◌, ◌*◌, ◌/◌, ◌%◌, ◌<◌, ◌≡◌, refl, sym, ap, ◌∙◌, Bool, true, ◌&&◌, List, [],
  ◌∷◌, ◌++◌, ltb, leb, every, if◌then◌else◌, arith, inl, inr, Bool-cases,
}

-- The digits of a number, the fuel being more than it.
unfoldable pub digits : ℕ → ℕ → List ℕ
digits zero n = []
digits (suc fuel) n =
    let rest = digits fuel (n / 10) in
    if ltb n 10 then (b'0' + n) ∷ [] else rest ++ (b'0' + n % 10) ∷ []

unfoldable pub str : ℕ → List ℕ
unfolding digits
str n = digits (suc n) n

unfoldable pub int_of : List ℕ → ℕ → ℕ
int_of [] sum = sum
int_of (d ∷ ds) sum = int_of ds (sum * 10 + (d - b'0'))

int_of-append :
    (ds : List ℕ) (d sum : ℕ) → int_of (ds ++ d ∷ []) sum ≡ int_of ds sum * 10 + (d - b'0')
unfolding int_of
int_of-append [] d sum = refl
int_of-append (e ∷ ds) d sum = int_of-append ds d (sum * 10 + (e - b'0'))

int_of-digits : (fuel n : ℕ) → n < fuel → int_of (digits fuel n) 0 ≡ n
unfolding digits int_of
int_of-digits zero n h = elim h [ ]
int_of-digits (suc fuel) n h = elim (Bool-cases (ltb n 10)) [
  | inl low ↦ ground arith
  | inr high ↦ rw high (
      ground (
        arith,
        int_of-append (digits fuel (n / 10)) (b'0' + n % 10) 0,
        int_of-digits fuel (n / 10),
      ))
]

pub int_of-str : (n : ℕ) → int_of (str n) 0 ≡ n
unfolding str
int_of-str n = int_of-digits (suc n) n (omega arith)

abbrev pub is_digit : ℕ → Bool
is_digit d = leb b'0' d && leb d b'9'

every-digit-append :
    (ds : List ℕ) (d : ℕ)
    → every is_digit ds ≡ true
    → is_digit d ≡ true
    → every is_digit (ds ++ d ∷ []) ≡ true
every-digit-append [] d h k = ground arith
every-digit-append (e ∷ ds) d h k = ground (arith, every-digit-append ds d)

every-digits : (fuel n : ℕ) → every is_digit (digits fuel n) ≡ true
unfolding digits
every-digits zero n = refl
every-digits (suc fuel) n = elim (Bool-cases (ltb n 10)) [
  | inl low ↦ ground arith
  | inr high ↦ rw high (
      every-digit-append (digits fuel (n / 10)) (b'0' + n % 10) (every-digits fuel (n / 10))
        (ground arith))
]

pub every-str : (n : ℕ) → every is_digit (str n) ≡ true
unfolding str
every-str n = every-digits (suc n) n

some_digit : (fuel n : ℕ) → (d : ℕ) × (ds : List ℕ) × (digits (suc fuel) n ≡ d ∷ ds)
unfolding digits
some_digit fuel n = elim (Bool-cases (ltb n 10)) [
  | inl low ↦ (b'0' + n, [], rw low refl)
  | inr high ↦ rw high (at_front (digits fuel (n / 10)) (b'0' + n % 10))
]
  where
    at_front : (us : List ℕ) (u : ℕ) → (d : ℕ) × (ds : List ℕ) × (us ++ u ∷ [] ≡ d ∷ ds)
    at_front [] u = (u, [], refl)
    at_front (v ∷ us) u = (v, us ++ u ∷ [], refl)

-- A number has a first digit.
pub str-front :
    (n : ℕ)
    → (d : ℕ) × (ds : List ℕ) × (str n ≡ d ∷ ds)
      × (every is_digit (d ∷ ds) ≡ true)
      × (int_of (d ∷ ds) 0 ≡ n)
unfolding str
str-front n =
    let (d, ds, e) = some_digit n n in
    (
      d,
      ds,
      e,
      sym (ap (every is_digit) e) ∙ every-digits (suc n) n,
      sym (ap (λ us. int_of us 0) e) ∙ int_of-digits (suc n) n (omega arith),
    )
