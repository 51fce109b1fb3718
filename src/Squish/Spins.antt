-- ===== src/Squish/Spins.antt =====
-- The rounds of src/harmonist/squish.py's `fit` where what an image carries is over the limit.
use harmonist.Prelude.{
  ℕ, zero, suc, String, ◌≡◌, refl, true, false, none, some, List, [], ◌∷◌, nat_eq, string_eq,
  length, leb, arith,
}
use harmonist.Squish.{
  Pillow, Fitted, qualities, last_quality, extras, as_jpeg_mode, try_qualities, smaller,
  shrink_loop, fit_image, fit,
}
use Fitted.{spinning}
use harmonist.Squish.Bounds.{Sized, wide, smaller-wide, as_jpeg_mode-wide}

module _ {I : Type 0} (p : Pillow I) (sized : Sized p) where
  -- What the extras alone take up.
  abbrev pub Bulky : ℕ → List (String × List ℕ) → Type 0
  Bulky limit ex = (quality : ℕ) (image : I) → leb (length (p.save quality ex image)) limit ≡ false

  try_qualities-none :
      (limit : ℕ) (ex : List (String × List ℕ)) (image : I) (qs : List ℕ)
      → Bulky limit ex
      → try_qualities p limit ex image qs ≡ none
  unfolding try_qualities
  try_qualities-none limit ex image [] bulky = refl
  try_qualities-none limit ex image (q ∷ qs) bulky =
      ground (arith, bulky q image, try_qualities-none limit ex image qs bulky)

  shrink_loop_spins :
      (fuel limit : ℕ) (ex : List (String × List ℕ)) (image : I)
      → Bulky limit ex
      → wide p image ≡ true
      → shrink_loop p fuel limit ex image ≡ spinning
  unfolding shrink_loop
  shrink_loop_spins zero limit ex image bulky w = refl
  shrink_loop_spins (suc fuel) limit ex image bulky w =
      let next = smaller p image in
      ground (
        arith,
        bulky last_quality next,
        smaller-wide p sized image,
        shrink_loop_spins fuel limit ex next bulky,
      )

  -- Where no encoding with the extras of the image that is opened fits, as when its colour profile is
  -- over the limit on its own, and a side has more than one pixel, `fit` never returns, whatever the
  -- number of rounds: two pixels a side shrink to two, so the exit at one pixel is not reached.
  pub fit_spins :
      (fuel : ℕ) (data_ : List ℕ) (limit : ℕ) (image : I)
      → leb (length data_) limit ≡ false
      → p.load data_ ≡ some image
      → wide p image ≡ true
      → Bulky limit (extras p image)
      → fit p fuel data_ limit ≡ spinning
  unfolding fit fit_image
  fit_spins fuel data_ limit image o l w bulky =
      let ex = extras p image in
      let drawn = as_jpeg_mode p image in
      ground (
        arith,
        as_jpeg_mode-wide p sized image,
        try_qualities-none limit ex drawn qualities bulky,
        shrink_loop_spins fuel limit ex drawn bulky,
      )
