-- ===== src/Prelude/Numbered.antt =====
-- Lists that hold each number below `n` once, as `sorted(xs) == list(range(n))` tests it.
use mathlib.Core.List.{Perm, Permᴰ}
use mathlib.Core.List.Perm
use mathlib.Core.List.{List, [], ◌∷◌}
use mathlib.Core.Path.{◌≡◌, refl, ◌∙◌, subst}
use mathlib.Core.Logic.{∥∥₁_elim}
use Prim.Native.Nat.{ℕ, zero, suc}
use native.Mathlib.Omega.{arith}
use harmonist.Prelude.Tests.{leb, ltb, bit}
use harmonist.Prelude.Eq.{nat_eq}
use harmonist.Prelude.Lists.{range, range_from}
use harmonist.Prelude.Counting.{count, count-range_from}
use harmonist.Prelude.Sorting.{sort_by, insert_by, sort_by-perm}

insert_commutes :
    (x y : ℕ) (zs : List ℕ)
    → insert_by leb x (insert_by leb y zs) ≡ insert_by leb y (insert_by leb x zs)
unfolding insert_by
insert_commutes x y [] = ground arith
insert_commutes x y (z ∷ zs) = ground (arith, insert_commutes x y zs)

sort-Permᴰ : {xs ys : List ℕ} → Permᴰ xs ys → sort_by leb xs ≡ sort_by leb ys
unfolding sort_by
sort-Permᴰ Permᴰ.nil = refl
sort-Permᴰ (Permᴰ.cons e p) = rw (e, sort-Permᴰ p) refl
sort-Permᴰ (Permᴰ.swap {a} {b} {a'} {b'} {l} e f) =
    rw (e, f) (insert_commutes b' a' (sort_by leb l))
sort-Permᴰ (Permᴰ.trans p q) = sort-Permᴰ p ∙ sort-Permᴰ q

insert_front :
    (start n : ℕ)
    → insert_by leb start (range_from (suc start) n) ≡ start ∷ range_from (suc start) n
unfolding insert_by
insert_front start zero = refl
insert_front start (suc n) = ground arith

sort-range_from : (start n : ℕ) → sort_by leb (range_from start n) ≡ range_from start n
unfolding sort_by
sort-range_from start zero = refl
sort-range_from start (suc n) = rw (sort-range_from (suc start) n) (insert_front start n)

pub sort-Perm : (xs ys : List ℕ) → Perm xs ys → sort_by leb xs ≡ sort_by leb ys
sort-Perm xs ys p = ∥∥₁_elim p (hlevel) sort-Permᴰ

pub sort-range : (n : ℕ) → sort_by leb (range n) ≡ range n
sort-range n = sort-range_from 0 n

pub sorted_of_Perm : (xs : List ℕ) (n : ℕ) → Perm xs (range n) → sort_by leb xs ≡ range n
sorted_of_Perm xs n p = sort-Perm xs (range n) p ∙ sort-range n

pub Perm_of_sorted : (xs : List ℕ) (n : ℕ) → sort_by leb xs ≡ range n → Perm xs (range n)
Perm_of_sorted xs n e = subst (Perm xs) e (Perm.symm (sort_by-perm leb xs))

count-Permᴰ : (x : ℕ) {xs ys : List ℕ} → Permᴰ xs ys → count x xs ≡ count x ys
count-Permᴰ x Permᴰ.nil = refl
count-Permᴰ x (Permᴰ.cons e p) = rw e (omega (arith, count-Permᴰ x p))
count-Permᴰ x (Permᴰ.swap e f) = rw (e, f) (omega arith)
count-Permᴰ x (Permᴰ.trans p q) = count-Permᴰ x p ∙ count-Permᴰ x q

pub count-Perm : (x : ℕ) (xs ys : List ℕ) → Perm xs ys → count x xs ≡ count x ys
count-Perm x xs ys p = ∥∥₁_elim p (hlevel) (count-Permᴰ x)

-- Each number below `n` stands there once, and no other does.
pub count_of_sorted :
    (x : ℕ) (xs : List ℕ) (n : ℕ) → sort_by leb xs ≡ range n → count x xs ≡ bit (ltb x n)
count_of_sorted x xs n e =
    count-Perm x xs (range n) (Perm_of_sorted xs n e) ∙ ground (arith, count-range_from x 0 n)
