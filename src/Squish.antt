-- ===== src/Squish.antt =====
-- src/harmonist/squish.py: re-encoding an image so that it fits the limit. Pillow is a parameter:
-- what it opens, how large an image is, and the bytes that it saves.
pub mod Bounds
pub mod Spins
pub mod Qualities
mod Tests
use harmonist.Prelude.{
  ℕ, zero, suc, ◌+◌, ◌*◌, ◌/◌, max, String, Bool, true, false, not, Option, none, some, List, [],
  ◌∷◌, ◌&&◌, ◌||◌, ◌==◌, nat_eq, string_eq, length, leb, contains, if◌then◌else◌,
}

abbrev pub qualities : List ℕ
qualities = 95 ∷ 92 ∷ 90 ∷ 85 ∷ []

-- `_QUALITIES[-1]`
abbrev pub last_quality : ℕ
last_quality = 85

abbrev pub jpeg_modes : List String
jpeg_modes = "RGB" ∷ "L" ∷ "CMYK" ∷ []

-- What the code takes from Pillow. `load` is `none` where opening or decoding raises one of the errors
-- that the code catches.
pub record Pillow (I : Type 0) : Type 0 where
  pub load : List ℕ → Option I
  pub mode : I → String
  pub to_rgb : I → I
  pub info : I → String → Option (List ℕ)
  pub width : I → ℕ
  pub height : I → ℕ
  pub resize : ℕ → ℕ → I → I
  pub save : ℕ → List (String × List ℕ) → I → List ℕ

-- What `fit` comes to: `fits` is its `None`, `refused` is `SquishError`, and `spinning` says that the
-- rounds given were not enough for it to return.
pub data Fitted : Type 0 where
  fits : Fitted
  refused : Fitted
  written : List ℕ → Fitted
  spinning : Fitted

-- `max(1, round(side * 0.8))`. Four fifths of a whole number is never half way between two.
unfoldable pub shrink : ℕ → ℕ
shrink side = max 1 ((8 * side + 5) / 10)

module _ {I : Type 0} (p : Pillow I) where
  unfoldable pub extra : I → String → List (String × List ℕ) → List (String × List ℕ)
  extra image key more = elim (p.info image key) [ none ↦ more | some value ↦ (key, value) ∷ more ]

  unfoldable pub extras : I → List (String × List ℕ)
  unfolding extra
  extras image = extra image "icc_profile" (extra image "exif" [])

  unfoldable pub as_jpeg_mode : I → I
  as_jpeg_mode image = if contains jpeg_modes (p.mode image) then image else p.to_rgb image

  -- The loop over the qualities: the first encoding that fits.
  unfoldable pub try_qualities : ℕ → List (String × List ℕ) → I → List ℕ → Option (List ℕ)
  try_qualities limit ex image [] = none
  try_qualities limit ex image (q ∷ qs) =
      let rest = try_qualities limit ex image qs in
      if leb (length (p.save q ex image)) limit then some (p.save q ex image) else rest

  -- One round's `image.resize`.
  unfoldable pub smaller : I → I
  smaller image = p.resize (shrink (p.width image)) (shrink (p.height image)) image

  -- The `while True` loop.
  unfoldable pub shrink_loop : ℕ → ℕ → List (String × List ℕ) → I → Fitted
  unfolding smaller
  shrink_loop zero limit ex image = spinning
  shrink_loop (suc fuel) limit ex image =
      let next = smaller image in
      let out = p.save last_quality ex next in
      let rest = shrink_loop fuel limit ex next in
      if leb (length out) limit || (p.width next == 1 && p.height next == 1)
      then written out
      else rest

  unfoldable pub fit_image : ℕ → ℕ → List (String × List ℕ) → I → Fitted
  unfolding try_qualities shrink_loop
  fit_image fuel limit ex image = elim (try_qualities limit ex image qualities) [
    | some out ↦ written out
    | none ↦ shrink_loop fuel limit ex image
  ]

  unfoldable pub fit : ℕ → List ℕ → ℕ → Fitted
  unfolding fit_image extras as_jpeg_mode
  fit fuel data_ limit = if leb (length data_) limit then fits else elim (p.load data_) [
    | none ↦ refused
    | some image ↦ fit_image fuel limit (extras image) (as_jpeg_mode image)
  ]
