-- ===== src/Squish/Qualities.antt =====
-- The quality that src/harmonist/squish.py's `fit` settles on.
use harmonist.Prelude.{
  ℕ, ◌≤◌, String, ◌≡◌, inl, inr, refl, Bool, true, false, some, List, [], ◌∷◌, ◌&&◌, nat_eq, length,
  leb, contains, arith, Bool-cases, beq_iff,
}
use harmonist.Squish.{
  Pillow, Fitted, qualities, extras, as_jpeg_mode, try_qualities, fit_image, fit,
}
use Fitted.{written}

module _ {I : Type 0} (p : Pillow I) where
  abbrev Kept : ℕ → List (String × List ℕ) → I → List ℕ → ℕ → Type 0
  Kept limit ex image qs q =
      (best : ℕ) × (try_qualities p limit ex image qs ≡ some (p.save best ex image))
      × (q ≤ best)
      × (contains qs best ≡ true)

  abbrev falling : ℕ → List ℕ → Bool
  falling top [] = true
  falling top (q ∷ qs) = leb q top && falling q qs

  falling-contains :
      (top : ℕ) (qs : List ℕ) (q : ℕ) → falling top qs ≡ true → contains qs q ≡ true → q ≤ top
  falling-contains top [] q f c = absurd (cc)
  falling-contains top (x ∷ qs) q f c = ground (arith, falling-contains x qs q, beq_iff x q)

  try_qualities-best :
      (limit : ℕ) (ex : List (String × List ℕ)) (image : I) (top : ℕ) (qs : List ℕ) (q : ℕ)
      → falling top qs ≡ true
      → contains qs q ≡ true
      → length (p.save q ex image) ≤ limit
      → Kept limit ex image qs q
  unfolding try_qualities
  try_qualities-best limit ex image top [] q f c le = absurd (cc)
  try_qualities-best limit ex image top (x ∷ qs) q f c le =
      elim (Bool-cases (leb (length (p.save x ex image)) limit)) [
        | inl fits_ ↦
            (x, ground arith, ground (arith, falling-contains x qs q, beq_iff x q), ground arith)
        | inr over_ ↦
            let later : contains qs q ≡ true = ground (arith, beq_iff x q) in
            let (best, e, le', c') =
              try_qualities-best limit ex image x qs q (ground arith) later le in
            (best, ground arith, le', ground arith)
      ]

  -- Where the data is over the limit, is opened, and fits when saved at its own dimensions with one of
  -- the qualities, `fit` keeps the dimensions and writes an encoding of one of the qualities that is not
  -- lower, whatever the rounds.
  fit-best :
      (fuel : ℕ) (data_ : List ℕ) (limit : ℕ) (image : I) (q : ℕ)
      → leb (length data_) limit ≡ false
      → p.load data_ ≡ some image
      → contains qualities q ≡ true
      → length (p.save q (extras p image) (as_jpeg_mode p image)) ≤ limit
      → (best : ℕ) × (fit p fuel data_ limit
          ≡ written (p.save best (extras p image) (as_jpeg_mode p image)))
        × (q ≤ best)
        × (contains qualities best ≡ true)
  unfolding fit fit_image
  fit-best fuel data_ limit image q o l c le =
      let (best, e, le', c') =
        try_qualities-best limit (extras p image) (as_jpeg_mode p image) 95 qualities q refl c le in
      (best, ground arith, le', c')
