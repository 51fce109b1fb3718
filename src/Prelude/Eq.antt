-- ===== src/Prelude/Eq.antt =====
-- Python's `==` on the values that the models compare: one operator for every type with an
-- instance. (The parent passes the names on.)
use Prim.Native.Nat.{ℕ}
use Prim.Native.String.{String}
use mathlib.Core.Path.{◌≡◌, refl}
use mathlib.Core.Logic.{◌↔◌}
use mathlib.Core.Bool.{Bool, true, false, not, ◌&&◌}
use mathlib.Core.List.{List, [], ◌∷◌}
use mathlib.Core.Option.{Option, none, some}
use native.Mathlib.Omega.{arith}
use text.Mathlib.Text.{◌==◌ as str_eq}
use text.Mathlib.TextEquality.{eq_iff}
use harmonist.Prelude.Tests.{eqb}

-- A test of equality: it accepts a value beside itself, and accepts no two that differ.
pub record Compared {ℓ} (T : Type ℓ) : Type ℓ where
  pub same : T → T → Bool
  pub same_self : (t : T) → same t t ≡ true
  pub same→eq : (t u : T) → same t u ≡ true → t ≡ u

infix 50 ◌==◌
abbrev pub ◌==◌ {ℓ} : {T : Type ℓ} ⦃c : Compared T⦄ → T → T → Bool
◌==◌ ⦃c⦄ t u = c.same t u

module _ {ℓ} {T : Type ℓ} ⦃c : Compared T⦄ where
  pub beq_refl : (t : T) → (t == t) ≡ true
  beq_refl = c.same_self

  pub beq→eq : (t u : T) → (t == u) ≡ true → t ≡ u
  beq→eq = c.same→eq

  pub beq_iff : (t u : T) → ((t == u) ≡ true) ↔ (t ≡ u)
  beq_iff t u = (beq→eq t u, λ p. rw p (beq_refl u))

-- An equivalence with equality is such a test.
abbrev pub compared_by {ℓ} :
    {T : Type ℓ} (test : T → T → Bool) → ((t u : T) → (test t u ≡ true) ↔ (t ≡ u)) → Compared T
compared_by test iff = record {
  same = test;
  same_self = λ t. (iff t t).1 refl;
  same→eq = λ t u. (iff t u).0;
}

pub eqb_iff : (n m : ℕ) → (eqb n m ≡ true) ↔ (n ≡ m)
eqb_iff n m = ground arith

instance abbrev pub nat_eq : Compared ℕ
nat_eq = compared_by eqb eqb_iff

instance abbrev pub string_eq : Compared String
string_eq = compared_by str_eq eq_iff

abbrev pub option_beq {ℓ} : {A : Type ℓ} ⦃e : Compared A⦄ → Option A → Option A → Bool
option_beq none none = true
option_beq (some a) (some b) = a == b
option_beq none (some b) = false
option_beq (some a) none = false

pub option_beq_iff {ℓ} :
    {A : Type ℓ} ⦃e : Compared A⦄ (a b : Option A) → (option_beq a b ≡ true) ↔ (a ≡ b)
option_beq_iff none none = ground arith
option_beq_iff (some a) (some b) = ground (arith, beq_iff a b)
option_beq_iff none (some b) = ground arith
option_beq_iff (some a) none = ground arith

instance abbrev pub option_eq {ℓ} : {A : Type ℓ} ⦃e : Compared A⦄ → Compared (Option A)
option_eq = compared_by option_beq option_beq_iff

module _ {ℓ} {A : Type ℓ} ⦃e : Compared A⦄ where
  abbrev pub list_beq : List A → List A → Bool
  list_beq [] [] = true
  list_beq (a ∷ xs) (b ∷ ys) = a == b && list_beq xs ys
  list_beq [] (b ∷ ys) = false
  list_beq (a ∷ xs) [] = false

  pub list_beq_refl : (xs : List A) → list_beq xs xs ≡ true
  list_beq_refl [] = refl
  list_beq_refl (a ∷ xs) = ground (arith, beq_refl a, list_beq_refl xs)

  pub list_beq→eq : (xs ys : List A) → list_beq xs ys ≡ true → xs ≡ ys
  list_beq→eq [] [] h = refl
  list_beq→eq (a ∷ xs) (b ∷ ys) h = ground (arith, beq_iff a b, list_beq→eq xs ys)
  list_beq→eq [] (b ∷ ys) h = absurd (cc)
  list_beq→eq (a ∷ xs) [] h = absurd (cc)

  -- The test of lists; a module makes it an instance for its own lists.
  abbrev pub list_eq : Compared (List A)
  list_eq = record { same = list_beq; same_self = list_beq_refl; same→eq = list_beq→eq }

module _ {ℓ κ} {A : Type ℓ} {B : Type κ} ⦃e : Compared A⦄ ⦃f : Compared B⦄ where
  abbrev pub product_beq : A × B → A × B → Bool
  product_beq (a, b) (c, d) = a == c && b == d

  pub product_beq_iff : (p q : A × B) → (product_beq p q ≡ true) ↔ (p ≡ q)
  product_beq_iff (a, b) (c, d) = ground (arith, beq_iff a c, beq_iff b d)

  -- The test of pairs; a module makes it an instance for its own pairs.
  abbrev pub product_eq : Compared (A × B)
  product_eq = compared_by product_beq product_beq_iff

-- The truth of a text that may be absent, as Python reads it: `bool(x)`.
abbrev pub truthy : Option String → Bool
truthy none = false
truthy (some s) = not (str_eq s "")
