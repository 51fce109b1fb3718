-- ===== src/Prelude/Rearranged.antt =====
-- What a rearranged list shares with the list: how many items pass a test, and what every item does.
use mathlib.Core.List.{Perm, Permᴰ, Mem, Memᴰ}
use mathlib.Core.List.{List, [], ◌∷◌}
use mathlib.Core.Path.{◌≡◌, refl, ◌∙◌, sym, subst}
use Prim.Native.Nat.{◌<◌, ◌≤◌}
use mathlib.Core.Bool.{Bool, true}
use mathlib.Core.Logic.{∥∥₁_elim}
use native.Mathlib.Omega.{arith}
use text.Mathlib.TextEquality.{IsScalar-prop}
use Prim.Native.String.{String}
use harmonist.Prelude.Lists.{length, keep, All}

module _ {ℓ} {A : Type ℓ} (test : A → Bool) where
  length-keep-Permᴰ : {xs ys : List A} → Permᴰ xs ys → length (keep test xs) ≡ length (keep test ys)
  length-keep-Permᴰ Permᴰ.nil = refl
  length-keep-Permᴰ (Permᴰ.cons e p) = rw e (ground (arith, length-keep-Permᴰ p))
  length-keep-Permᴰ (Permᴰ.swap e f) = rw (e, f) (ground arith)
  length-keep-Permᴰ (Permᴰ.trans p q) = length-keep-Permᴰ p ∙ length-keep-Permᴰ q

  pub length-keep-Perm :
      (xs ys : List A) → Perm xs ys → length (keep test xs) ≡ length (keep test ys)
  length-keep-Perm xs ys p = ∥∥₁_elim p (hlevel) length-keep-Permᴰ

  All-Memᴰ : (a : A) (xs : List A) → All (λ y. test y ≡ true) xs → Memᴰ a xs → test a ≡ true
  All-Memᴰ a [] h m = elim m [ ]
  All-Memᴰ a (x ∷ xs) h (Memᴰ.head e) = rw e h.0
  All-Memᴰ a (x ∷ xs) h (Memᴰ.tail m) = All-Memᴰ a xs h.1 m

  pub All-Mem : (a : A) (xs : List A) → All (λ y. test y ≡ true) xs → Mem a xs → test a ≡ true
  All-Mem a xs h m = ∥∥₁_elim m (hlevel) (All-Memᴰ a xs h)

pub String_set : IsSet String
String_set = hlevel IsScalar-prop

module _ {ℓ} {A : Type ℓ} (test : A → Bool) where
  kept : (a : A) (xs : List A) → Memᴰ a xs → test a ≡ true → 0 < length (keep test xs)
  kept a [] m h = elim m [ ]
  kept a (x ∷ xs) (Memᴰ.head e) h = let h' = subst (λ y. test y ≡ true) e h in ground arith
  kept a (x ∷ xs) (Memᴰ.tail m) h = ground (arith, kept a xs m)

  kept_once :
      (a b : A) (xs : List A)
      → length (keep test xs) ≤ 1
      → Memᴰ a xs
      → Memᴰ b xs
      → test a ≡ true
      → test b ≡ true
      → a ≡ b
  kept_once a b [] l m n h k = elim m [ ]
  kept_once a b (x ∷ xs) l (Memᴰ.head e) (Memᴰ.head f) h k = e ∙ sym f
  kept_once a b (x ∷ xs) l (Memᴰ.head e) (Memᴰ.tail n) h k =
      let h' = subst (λ y. test y ≡ true) e h in absurd (ground (arith, kept b xs n))
  kept_once a b (x ∷ xs) l (Memᴰ.tail m) (Memᴰ.head f) h k =
      let k' = subst (λ y. test y ≡ true) f k in absurd (ground (arith, kept a xs m))
  kept_once a b (x ∷ xs) l (Memᴰ.tail m) (Memᴰ.tail n) h k = kept_once a b xs (ground arith) m n h k

  -- Two items that pass a test which one item passes are the same.
  pub keep_one :
      (a b : A) (xs : List A)
      → IsSet A
      → length (keep test xs) ≤ 1
      → Mem a xs
      → Mem b xs
      → test a ≡ true
      → test b ≡ true
      → a ≡ b
  keep_one a b xs s l m n h k =
      ∥∥₁_elim m (s a b) (λ d. ∥∥₁_elim n (s a b) (λ d'. kept_once a b xs l d d' h k))

pub length-Perm {ℓ} : {A : Type ℓ} (xs ys : List A) → Perm xs ys → length xs ≡ length ys
length-Perm {A} xs ys p = ∥∥₁_elim p (hlevel) same
  where
    same : {us vs : List A} → Permᴰ us vs → length us ≡ length vs
    same Permᴰ.nil = refl
    same (Permᴰ.cons e q) = omega (arith, same q)
    same (Permᴰ.swap e f) = omega arith
    same (Permᴰ.trans q r) = same q ∙ same r
