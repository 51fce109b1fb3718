-- ===== src/Squish/Bounds.antt =====
-- The rounds of src/harmonist/squish.py's `fit`: the size of what it writes, and when it returns.
use harmonist.Prelude.{
  ℕ, zero, suc, ◌+◌, ◌-◌, ◌<◌, ◌≤◌, String, ◌≡◌, ◌≢◌, ◌⊎◌, inl, inr, refl, Bool, true, false, some,
  List, [], ◌∷◌, ◌||◌, nat_eq, string_eq, length, leb, ltb, if_holds, arith, Bool-cases,
  Option-cases,
}
use harmonist.Squish.{
  Pillow, Fitted, qualities, last_quality, shrink, extras, as_jpeg_mode, try_qualities, smaller,
  shrink_loop, fit_image, fit,
}
use Fitted.{written, spinning}

shrink_gt : (side : ℕ) → 1 < side → 1 < shrink side
unfolding shrink
shrink_gt side h = omega arith

-- What a round leaves above two.
abbrev pub over : ℕ → ℕ
over side = side - 2

over-shrink : (side : ℕ) → over (shrink side) < over side ⊎ (over (shrink side) ≡ 0)
unfolding shrink
over-shrink side = elim (Bool-cases (ltb 2 side)) [
  | inl large ↦ inl (ground arith)
  | inr small ↦ inr (ground arith)
]

-- What Pillow documents of sizes.
pub record Sized {I : Type 0} (p : Pillow I) : Type 0 where
  pub resize_width : (w h : ℕ) (image : I) → p.width (p.resize w h image) ≡ w
  pub resize_height : (w h : ℕ) (image : I) → p.height (p.resize w h image) ≡ h
  pub rgb_width : (image : I) → p.width (p.to_rgb image) ≡ p.width image
  pub rgb_height : (image : I) → p.height (p.to_rgb image) ≡ p.height image

-- One of the sides has more than a pixel.
abbrev pub wide : {I : Type 0} → Pillow I → I → Bool
wide p image = ltb 1 (p.width image) || ltb 1 (p.height image)

module _ {I : Type 0} (p : Pillow I) (sized : Sized p) where
  pub smaller-wide : (image : I) → wide p image ≡ true → wide p (smaller p image) ≡ true
  unfolding smaller
  smaller-wide image h = ground (
    arith,
    shrink_gt (p.width image),
    shrink_gt (p.height image),
    sized.resize_width (shrink (p.width image)) (shrink (p.height image)) image,
    sized.resize_height (shrink (p.width image)) (shrink (p.height image)) image,
  )

  pub as_jpeg_mode-wide : (image : I) → wide p (as_jpeg_mode p image) ≡ wide p image
  unfolding as_jpeg_mode
  as_jpeg_mode-wide image = ground (arith, sized.rgb_width image, sized.rgb_height image)

  try_qualities_fits :
      (limit : ℕ) (ex : List (String × List ℕ)) (image : I) (qs : List ℕ) (out : List ℕ)
      → try_qualities p limit ex image qs ≡ some out
      → length out ≤ limit
  unfolding try_qualities
  try_qualities_fits limit ex image [] out h = absurd (cc)
  try_qualities_fits limit ex image (q ∷ qs) out h =
      elim (Bool-cases (leb (length (p.save q ex image)) limit)) [
        | inl fit_ ↦ ground (arith)
        | inr over_ ↦ ground (arith, try_qualities_fits limit ex image qs out)
      ]

  -- The loop leaves by its size, unless it shrinks one pixel.
  shrink_loop_fits :
      (fuel limit : ℕ) (ex : List (String × List ℕ)) (image : I) (out : List ℕ)
      → wide p image ≡ true
      → shrink_loop p fuel limit ex image ≡ written out
      → length out ≤ limit
  unfolding shrink_loop
  shrink_loop_fits zero limit ex image out w h = absurd (cc)
  shrink_loop_fits (suc fuel) limit ex image out w h =
      let next = smaller p image in
      elim (Bool-cases (leb (length (p.save last_quality ex next)) limit)) [
        | inl fit_ ↦ ground (arith, smaller-wide image)
        | inr over_ ↦ ground (arith, smaller-wide image, shrink_loop_fits fuel limit ex next out)
      ]

  -- An image that is opened with a side of more than one pixel is written with at most `limit` bytes.
  fit-Fits :
      (fuel : ℕ) (data_ : List ℕ) (limit : ℕ) (image : I) (out : List ℕ)
      → p.load data_ ≡ some image
      → wide p image ≡ true
      → fit p fuel data_ limit ≡ written out
      → length out ≤ limit
  unfolding fit fit_image
  fit-Fits fuel data_ limit image out l w h =
      let ex = extras p image in
      let drawn = as_jpeg_mode p image in
      elim (Option-cases (try_qualities p limit ex drawn qualities)) [
        | inl none_fits ↦
            ground (arith, as_jpeg_mode-wide image, shrink_loop_fits fuel limit ex drawn out)
        | inr (first, at) ↦ ground (arith, try_qualities_fits limit ex drawn qualities first at)
      ]

  -- The encodings of the smallest images fit.
  abbrev pub SmallFit : ℕ → List (String × List ℕ) → Type 0
  SmallFit limit ex =
      (image : I)
      → over (p.width image) + over (p.height image) ≡ 0
      → leb (length (p.save last_quality ex image)) limit ≡ true

  smaller-over :
      (image : I)
      → over (p.width (smaller p image)) + over (p.height (smaller p image))
          < over (p.width image) + over (p.height image)
        ⊎ (over (p.width (smaller p image)) + over (p.height (smaller p image)) ≡ 0)
  unfolding smaller
  smaller-over image = ground (
    arith,
    over-shrink (p.width image),
    over-shrink (p.height image),
    sized.resize_width (shrink (p.width image)) (shrink (p.height image)) image,
    sized.resize_height (shrink (p.width image)) (shrink (p.height image)) image,
  )

  shrink_loop_ends :
      (fuel limit : ℕ) (ex : List (String × List ℕ)) (image : I)
      → SmallFit limit ex
      → over (p.width image) + over (p.height image) < fuel
      → shrink_loop p fuel limit ex image ≢ spinning
  unfolding shrink_loop
  shrink_loop_ends zero limit ex image small lt = absurd (omega arith)
  shrink_loop_ends (suc fuel) limit ex image small lt =
      let next = smaller p image in
      ground (arith, small next, smaller-over image, shrink_loop_ends fuel limit ex next small)

  fit_ends :
      (data_ : List ℕ) (limit : ℕ) (image : I)
      → p.load data_ ≡ some image
      → SmallFit limit (extras p image)
      → fit p (suc (over (p.width image) + over (p.height image))) data_ limit ≢ spinning
  unfolding fit fit_image as_jpeg_mode
  fit_ends data_ limit image l small =
      let fuel = suc (over (p.width image) + over (p.height image)) in
      let ex = extras p image in
      let drawn = as_jpeg_mode p image in
      ground (
        arith,
        sized.rgb_width image,
        sized.rgb_height image,
        shrink_loop_ends fuel limit ex drawn small,
        Option-cases (try_qualities p limit ex drawn qualities),
      )

  shrink_loop_writes :
      (fuel limit : ℕ) (ex : List (String × List ℕ)) (image : I)
      → (shrink_loop p fuel limit ex image ≡ spinning)
        ⊎ ((out : List ℕ) × (shrink_loop p fuel limit ex image ≡ written out))
  unfolding shrink_loop
  shrink_loop_writes zero limit ex image = inl refl
  shrink_loop_writes (suc fuel) limit ex image =
      if_holds (λ r. (r ≡ spinning) ⊎ ((out : List ℕ) × (r ≡ written out))) _ _ _
        (λ leaves. inr (p.save last_quality ex (smaller p image), refl))
        λ goes_on. shrink_loop_writes fuel limit ex (smaller p image)

  fit_writes :
      (fuel : ℕ) (data_ : List ℕ) (limit : ℕ) (image : I)
      → leb (length data_) limit ≡ false
      → p.load data_ ≡ some image
      → (fit p fuel data_ limit ≡ spinning)
        ⊎ ((out : List ℕ) × (fit p fuel data_ limit ≡ written out))
  unfolding fit fit_image
  fit_writes fuel data_ limit image o l =
      let ex = extras p image in
      let drawn = as_jpeg_mode p image in
      elim (Option-cases (try_qualities p limit ex drawn qualities)) [
        | inr (out, at) ↦ inr (out, ground arith)
        | inl none_fits ↦ elim (shrink_loop_writes fuel limit ex drawn) [
          | inl spins ↦ inl (ground arith)
          | inr (out, at) ↦ inr (out, ground arith)
        ]
      ]

  -- Where the data is over the limit and is opened as an image that has more than a pixel on a side, and
  -- an image of at most two pixels a side fits when saved at the last quality with that image's extras,
  -- `fit` returns with an encoding of at most `limit` bytes: a round more than the image has pixels beyond
  -- two, over both sides, is enough.
  pub fit_returns :
      (data_ : List ℕ) (limit : ℕ) (image : I)
      → leb (length data_) limit ≡ false
      → p.load data_ ≡ some image
      → wide p image ≡ true
      → SmallFit limit (extras p image)
      → (out : List ℕ) × (fit p (suc (over (p.width image) + over (p.height image))) data_ limit
          ≡ written out)
        × (length out ≤ limit)
  fit_returns data_ limit image o l w small =
      let fuel = suc (over (p.width image) + over (p.height image)) in
      elim (fit_writes fuel data_ limit image o l) [
        | inl spins ↦ absurd (fit_ends data_ limit image l small spins)
        | inr (out, at) ↦ (out, at, fit-Fits fuel data_ limit image out l w at)
      ]
