-- ===== src/Squish/Tests.antt =====
-- A Pillow that saves a byte for each pixel and the extras, and the theorems of Squish at it.
use harmonist.Prelude.{
  ℕ, zero, suc, ◌+◌, ◌*◌, ◌≤◌, String, ◌≡◌, refl, true, false, none, some, List, [], ◌∷◌, ◌++◌,
  ◌==◌, string_eq, length, length-append, length-replicate, leb, replicate, if◌then◌else◌, arith,
  option_eq, nat_eq, ◌-◌,
}
use harmonist.Squish.{
  Pillow, Fitted, shrink, extra, extras, as_jpeg_mode, try_qualities, smaller, shrink_loop,
  fit_image, fit,
}
use harmonist.Squish.Bounds.{Sized, fit_returns}
use harmonist.Squish.Spins.{fit_spins}
use Fitted.{written, spinning}

abbrev bytes_of : List (String × List ℕ) → List ℕ
bytes_of [] = []
bytes_of ((key, value) ∷ more) = value ++ bytes_of more

-- Four by four pixels, with a profile of so many bytes.
abbrev toy : ℕ → Pillow (ℕ × ℕ)
toy profile = record {
  load = λ _. some (4, 4);
  mode = λ _. "RGB";
  to_rgb = λ i. i;
  info = λ _ key. if key == "exif" then none else some (replicate profile 7);
  width = λ i. i.0;
  height = λ i. i.1;
  resize = λ w h _. (w, h);
  save = λ q ex i. bytes_of ex ++ replicate (i.0 * i.1 * (if leb q 90 then 1 else 2)) 0;
}

toy-Sized : (profile : ℕ) → Sized (toy profile)
toy-Sized profile = record {
  resize_width = λ w h i. refl;
  resize_height = λ w h i. refl;
  rgb_width = λ i. refl;
  rgb_height = λ i. refl;
}

abbrev scan : List ℕ
scan = replicate 40 1

scan_shrinks : fit (toy 2) 9 scan 11 ≡ written (7 ∷ 7 ∷ replicate 9 0)
unfolding fit fit_image extras extra as_jpeg_mode try_qualities shrink_loop smaller shrink
scan_shrinks = refl

scan_spins : fit (toy 20) 9 scan 11 ≡ spinning
unfolding fit fit_image extras extra as_jpeg_mode try_qualities shrink_loop smaller shrink
scan_spins = refl

small_area : (w h : ℕ) → leb w 2 ≡ true → leb h 2 ≡ true → w * h ≤ 4
small_area zero h l m = omega arith
small_area (suc zero) h l m = ground arith
small_area (suc (suc zero)) h l m = ground arith
small_area (suc (suc (suc w))) h l m = absurd (ground arith)

small_fits :
    (i : ℕ × ℕ)
    → (i.0 - 2) + (i.1 - 2) ≡ 0
    → leb (length ((toy 2).save 85 (extras (toy 2) (4, 4)) i)) 11 ≡ true
unfolding extras extra
small_fits (w, h) none_over =
    let size = length-replicate {A = ℕ} (w * h * 1) 0 in
    ground (arith, size, small_area w h (ground arith) (ground arith))

bulky : (q : ℕ) (i : ℕ × ℕ) → leb (length ((toy 20).save q (extras (toy 20) (4, 4)) i)) 11 ≡ false
unfolding extras extra
bulky q (w, h) =
    let pixels : List ℕ = replicate (w * h * (if leb q 90 then 1 else 2)) 0 in
    let profile : List ℕ = replicate 20 7 in ground (arith, length-append profile pixels)

fit_returns_example : (out : List ℕ) × (fit (toy 2) 5 scan 11 ≡ written out) × (length out ≤ 11)
fit_returns_example = fit_returns (toy 2) (toy-Sized 2) scan 11 (4, 4) refl refl refl small_fits

fit_spins_example : fit (toy 20) 9 scan 11 ≡ spinning
fit_spins_example = fit_spins (toy 20) (toy-Sized 20) 9 scan 11 (4, 4) refl refl refl bulky
