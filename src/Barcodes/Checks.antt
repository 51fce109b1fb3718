-- ===== src/Barcodes/Checks.antt =====
-- The check digit: one wrong digit is found, and the canonical form is a fixed point.
use mathlib.Core.List.{append_assoc, append-nil}
use harmonist.Prelude.{
  ℕ, zero, suc, ◌+◌, ◌-◌, ◌*◌, ◌%◌, ◌≡◌, ◌≤◌, refl, sym, ap, ◌∙◌, ◌⊎◌, inl, inr, Bool, true, false,
  not, none, some, List, [], ◌∷◌, ◌++◌, nat_eq, length, length-append, length-replicate, replicate,
  every, arith, if◌then◌else◌, Option-cases, ◌≢◌,
}
use harmonist.Barcodes.{
  reverse, is_digit, is_space, drop_spaces, strip, weigh, is_gtin_length, normalise_stripped,
  normalise,
}

every-append :
    (xs ys : List ℕ)
    → every is_digit xs ≡ true
    → every is_digit ys ≡ true
    → every is_digit (xs ++ ys) ≡ true
every-append [] ys h k = k
every-append (x ∷ xs) ys h k = ground (arith, every-append xs ys)

every-reverse : (xs : List ℕ) → every is_digit xs ≡ true → every is_digit (reverse xs) ≡ true
every-reverse [] h = refl
every-reverse (x ∷ xs) h =
    every-append (reverse xs) (x ∷ []) (every-reverse xs (ground arith)) (ground arith)

drop_spaces-digits : (xs : List ℕ) → every is_digit xs ≡ true → drop_spaces xs ≡ xs
unfolding drop_spaces is_space
drop_spaces-digits [] h = refl
drop_spaces-digits (x ∷ xs) h = ground arith

reverse-append : (xs ys : List ℕ) → reverse (xs ++ ys) ≡ reverse ys ++ reverse xs
reverse-append [] ys = sym (append-nil (reverse ys))
reverse-append (x ∷ xs) ys =
    ap (λ zs. zs ++ x ∷ []) (reverse-append xs ys) ∙ append_assoc (reverse ys) (reverse xs) (x ∷ [])

reverse-reverse : (xs : List ℕ) → reverse (reverse xs) ≡ xs
reverse-reverse [] = refl
reverse-reverse (x ∷ xs) =
    reverse-append (reverse xs) (x ∷ []) ∙ ap (λ zs. x ∷ zs) (reverse-reverse xs)

-- Digits are stripped of nothing.
pub strip-digits : (xs : List ℕ) → every is_digit xs ≡ true → strip xs ≡ xs
unfolding strip
strip-digits xs h =
    rw (drop_spaces-digits xs h, drop_spaces-digits (reverse xs) (every-reverse xs h))
      (reverse-reverse xs)

-- A digit counts once or three times, whatever the others are.
weigh-digit :
    (us vs : List ℕ) (odd : Bool)
    → (rest : ℕ) × (w : ℕ) × ((w ≡ 1) ⊎ (w ≡ 3))
      × ((a : ℕ) → weigh (us ++ a ∷ vs) odd ≡ rest + w * (a - b'0'))
unfolding weigh
weigh-digit [] vs true = (weigh vs false, 3, inr refl, λ a. omega arith)
weigh-digit [] vs false = (weigh vs true, 1, inl refl, λ a. omega arith)
weigh-digit (u ∷ us) vs odd =
    let (rest, w, is_w, sum) = weigh-digit us vs (not odd) in
    ((u - b'0') * (if odd then 3 else 1) + rest, w, is_w, λ a. omega (arith, sum a))

same_digit :
    (rest w a b : ℕ)
    → (w ≡ 1) ⊎ (w ≡ 3)
    → is_digit a ≡ true
    → is_digit b ≡ true
    → (rest + w * (a - b'0')) % 10 ≡ 0
    → (rest + w * (b - b'0')) % 10 ≡ 0
    → a ≡ b
same_digit rest w a b (inl one) h k p q =
    let p' = rw one at p in let q' = rw one at q in ground arith
same_digit rest w a b (inr three) h k p q =
    let p' = rw three at p in let q' = rw three at q in ground arith

valid_parts :
    (value code : List ℕ)
    → normalise_stripped value ≡ some code
    → (is_gtin_length (length value) ≡ true)
      × (every is_digit value ≡ true)
      × (weigh (reverse value) false % 10 ≡ 0)
      × (code ≡ replicate (14 - length value) b'0' ++ value)
unfolding normalise_stripped
valid_parts value code h = ground arith

reverse-middle : (xs ys : List ℕ) (c : ℕ) → reverse (xs ++ c ∷ ys) ≡ reverse ys ++ c ∷ reverse xs
reverse-middle xs ys c =
    reverse-append xs (c ∷ ys) ∙ append_assoc (reverse ys) (c ∷ []) (reverse xs)

digit-at : (xs ys : List ℕ) (c : ℕ) → every is_digit (xs ++ c ∷ ys) ≡ true → is_digit c ≡ true
digit-at [] ys c h = ground arith
digit-at (x ∷ xs) ys c h = digit-at xs ys c (ground arith)

stripped :
    (value code : List ℕ)
    → every is_digit value ≡ true
    → normalise value ≡ some code
    → normalise_stripped value ≡ some code
unfolding normalise
stripped value code h p = sym (ap normalise_stripped (strip-digits value h)) ∙ p

-- Two valid barcodes that differ in one digit at most are the same.
one_digit :
    (xs ys : List ℕ) (a b : ℕ) (code other : List ℕ)
    → every is_digit (xs ++ a ∷ ys) ≡ true
    → every is_digit (xs ++ b ∷ ys) ≡ true
    → normalise (xs ++ a ∷ ys) ≡ some code
    → normalise (xs ++ b ∷ ys) ≡ some other
    → a ≡ b
one_digit xs ys a b code other h k p q =
    let (_, _, sum_a, _) = valid_parts (xs ++ a ∷ ys) code (stripped _ code h p) in
    let (_, _, sum_b, _) = valid_parts (xs ++ b ∷ ys) other (stripped _ other k q) in
    let (rest, w, is_w, sum) = weigh-digit (reverse ys) (reverse xs) false in
    let last_digit : List ℕ → ℕ = λ (zs : List ℕ). weigh zs false % 10 in
    same_digit rest w a b is_w (digit-at xs ys a h) (digit-at xs ys b k)
      (sym (ap last_digit (reverse-middle xs ys a) ∙ ap (λ n. n % 10) (sum a)) ∙ sum_a)
      (sym (ap last_digit (reverse-middle xs ys b) ∙ ap (λ n. n % 10) (sum b)) ∙ sum_b)

-- One wrong digit is found: where a barcode of digits is valid, the text with another digit in one
-- place is not.
pub normalise_detects :
    (xs ys : List ℕ) (a b : ℕ) (code : List ℕ)
    → every is_digit (xs ++ a ∷ ys) ≡ true
    → every is_digit (xs ++ b ∷ ys) ≡ true
    → normalise (xs ++ a ∷ ys) ≡ some code
    → a ≢ b
    → normalise (xs ++ b ∷ ys) ≡ none
normalise_detects xs ys a b code h k p ne = elim (Option-cases (normalise (xs ++ b ∷ ys))) [
  | inl refused ↦ refused
  | inr (other, q) ↦ absurd (ne (one_digit xs ys a b code other h k p q))
]

weigh-zero : (us : List ℕ) (odd : Bool) → weigh (us ++ b'0' ∷ []) odd ≡ weigh us odd
unfolding weigh
weigh-zero [] true = omega arith
weigh-zero [] false = omega arith
weigh-zero (u ∷ us) odd = omega (arith, weigh-zero us (not odd))

weigh-zeros :
    (n : ℕ) (value : List ℕ)
    → weigh (reverse (replicate n b'0' ++ value)) false ≡ weigh (reverse value) false
weigh-zeros zero value = refl
weigh-zeros (suc n) value =
    weigh-zero (reverse (replicate n b'0' ++ value)) false ∙ weigh-zeros n value

every-zeros : (n : ℕ) → every is_digit (replicate n b'0') ≡ true
every-zeros zero = refl
every-zeros (suc n) = every-zeros n

gtin_length : (n : ℕ) → is_gtin_length n ≡ true → n ≤ 14
unfolding is_gtin_length
gtin_length n h = ground arith

normalise_stripped-padded :
    (value : List ℕ)
    → is_gtin_length (length value) ≡ true
    → every is_digit value ≡ true
    → weigh (reverse value) false % 10 ≡ 0
    → (length (replicate (14 - length value) b'0' ++ value) ≡ 14)
      × (every is_digit (replicate (14 - length value) b'0' ++ value) ≡ true)
      × (normalise_stripped (replicate (14 - length value) b'0' ++ value)
          ≡ some (replicate (14 - length value) b'0' ++ value))
unfolding normalise_stripped is_gtin_length
normalise_stripped-padded value l d w =
    let n = 14 - length value in
    let len : length (replicate n b'0' ++ value) ≡ 14 =
      length-append (replicate n b'0') value
      ∙ omega (arith, length-replicate {A = ℕ} n b'0', gtin_length (length value) l) in
    let dig = every-append (replicate n b'0') value (every-zeros n) d in
    (len, dig, ground (arith, len, dig, weigh-zeros n value, w))

-- The canonical form has fourteen digits and is its own canonical form.
normalise-normalise :
    (value code : List ℕ)
    → normalise value ≡ some code
    → (length code ≡ 14) × (normalise code ≡ some code)
unfolding normalise
normalise-normalise value code h =
    let (l, d, w, e) = valid_parts (strip value) code h in
    let (len, dig, same) = normalise_stripped-padded (strip value) l d w in
    (ap length e ∙ len, rw e (ap normalise_stripped (strip-digits _ dig) ∙ same))
