-- ===== src/Assignment/Panel/Pairs.antt =====
-- What `mapping` gives to the tagger: which file takes which track.
use harmonist.Prelude.{
  ℕ, ◌≡◌, ◌≤◌, refl, sym, ◌∙◌, Bool, true, not, ◌||◌, Option, none, some, List, [], ◌∷◌, map,
  length, ltb, bit, count, slots_of, every, is_none, arith, count_of_sorted, nat_eq,
}
use harmonist.Assignment.Panel.{Panel, zip, both_of, mapping, paired}
use harmonist.Assignment.Panel.Moves.{IsValid}

abbrev pub files_of : List (ℕ × ℕ) → List ℕ
files_of pairs = map (λ p. p.0) pairs

abbrev pub tracks_of : List (ℕ × ℕ) → List ℕ
tracks_of pairs = map (λ p. p.1) pairs

files_of_once :
    (x : ℕ) (ds ms : List (Option ℕ))
    → count x (files_of (both_of (zip ds ms))) ≤ count x (slots_of ds)
unfolding zip both_of
files_of_once x [] ms = omega arith
files_of_once x (none ∷ ds) [] = omega arith
files_of_once x (some d ∷ ds) [] = omega arith
files_of_once x (none ∷ ds) (m ∷ ms) = files_of_once x ds ms
files_of_once x (some d ∷ ds) (none ∷ ms) = omega (arith, files_of_once x ds ms)
files_of_once x (some d ∷ ds) (some m ∷ ms) = omega (arith, files_of_once x ds ms)

tracks_of_once :
    (x : ℕ) (ds ms : List (Option ℕ))
    → count x (tracks_of (both_of (zip ds ms))) ≤ count x (slots_of ms)
unfolding zip both_of
tracks_of_once x [] ms = omega arith
tracks_of_once x (d ∷ ds) [] = omega arith
tracks_of_once x (none ∷ ds) (none ∷ ms) = tracks_of_once x ds ms
tracks_of_once x (none ∷ ds) (some m ∷ ms) = omega (arith, tracks_of_once x ds ms)
tracks_of_once x (some d ∷ ds) (none ∷ ms) = tracks_of_once x ds ms
tracks_of_once x (some d ∷ ds) (some m ∷ ms) = omega (arith, tracks_of_once x ds ms)

abbrev is_paired : Option ℕ × Option ℕ → Bool
is_paired r = is_none r.0 || not (is_none r.1)

files_of_all :
    (x : ℕ) (ds ms : List (Option ℕ))
    → length ds ≡ length ms
    → every is_paired (zip ds ms) ≡ true
    → count x (files_of (both_of (zip ds ms))) ≡ count x (slots_of ds)
unfolding zip both_of
files_of_all x [] ms l h = refl
files_of_all x (d ∷ ds) [] l h = absurd (omega arith)
files_of_all x (none ∷ ds) (m ∷ ms) l h = files_of_all x ds ms (omega arith) h
files_of_all x (some d ∷ ds) (none ∷ ms) l h = absurd (cc)
files_of_all x (some d ∷ ds) (some m ∷ ms) l h = omega (arith, files_of_all x ds ms (omega arith) h)

-- The mapping of a valid panel gives no file two tracks and no track two files, and names no file or
-- track that is not there.
mapping_once :
    (p : Panel) (x : ℕ)
    → IsValid p
    → (count x (files_of (mapping p)) ≤ bit (ltb x (length p.disk)))
      × (count x (tracks_of (mapping p)) ≤ bit (ltb x (length p.mb)))
unfolding mapping
mapping_once p x v = (
  rw⁻¹ (count_of_sorted x (slots_of p.disk_order) (length p.disk) v.disk_valid.each_once)
      (files_of_once x p.disk_order p.mb_order),
  rw⁻¹ (count_of_sorted x (slots_of p.mb_order) (length p.mb) v.mb_valid.each_once)
      (tracks_of_once x p.disk_order p.mb_order),
)

-- Where a valid panel says it is paired, its mapping gives every file a track.
paired-mapping :
    (p : Panel) (x : ℕ)
    → IsValid p
    → paired p ≡ true
    → count x (files_of (mapping p)) ≡ bit (ltb x (length p.disk))
unfolding mapping paired
paired-mapping p x v h =
    files_of_all x p.disk_order p.mb_order (v.disk_valid.has_rows ∙ sym v.mb_valid.has_rows) h
    ∙ count_of_sorted x (slots_of p.disk_order) (length p.disk) v.disk_valid.each_once
