-- ===== src/Images/Walk.antt =====
-- The walk over the segments of a JPEG in src/harmonist/images.py.
use harmonist.Prelude.{
  ℕ, zero, suc, ◌+◌, ◌<◌, ◌≡◌, inl, inr, Bool, true, false, Option, none, some, String, string_eq,
  ◌==◌, nat_eq, length, ltb, get_elem?, get_elem?_total, arith, if◌then◌else◌, Bool-cases,
  Option-cases,
}
use harmonist.Images.{
  Bytes, slice, from_bytes, Size, Seen, png, next_segment, frame_size, walk, mime_of, jpeg,
  dimensions,
}
use harmonist.Images.Reads.{are_bytes, slice_two, slice_four}
use Seen.{sized, unknown, raised, walking}

-- The answers of a walk that is done and has read within the data.
abbrev pub answered : Seen → Bool
answered (sized s) = true
answered unknown = true
answered raised = false
answered walking = false

walk-answered :
    (fuel i : ℕ) (data_ : Bytes)
    → 0 < fuel
    → length data_ < i + fuel
    → answered (walk fuel i data_) ≡ true
unfolding walk next_segment
walk-answered zero i data_ pos lt = absurd (omega arith)
walk-answered (suc fuel) i data_ pos lt = elim (Bool-cases (ltb (i + 9) (length data_))) [
  | inl more ↦
      let (lead, at) = get_elem?_total data_ i (ground arith) in
      let (marker, at') = get_elem?_total data_ (i + 1) (ground arith) in
      let next = i + (2 + from_bytes (slice (i + 2) 2 data_)) in
      ground (arith, walk-answered fuel (i + 1) data_, walk-answered fuel next data_)
  | inr ends ↦ ground arith
]

png-answered : (data_ : Bytes) → answered (png data_) ≡ true
unfolding png
png-answered data_ = ground arith

-- Whatever the bytes are, the walk ends with a size or with none: it reads no byte past the end, and
-- a round more than there are bytes is enough.
pub dimensions_answers : (data_ : Bytes) → answered (dimensions data_) ≡ true
unfolding dimensions jpeg
dimensions_answers data_ = ground (
  arith,
  png-answered data_,
  walk-answered (suc (length data_)) 2 data_ (omega arith) (omega arith),
)

-- What a size that is read from such an image stays below.
abbrev pub side_limit : Option String → ℕ
side_limit none = 0
side_limit (some mime) = if mime == "image/jpeg" then 65_536 else 4_294_967_296

abbrev pub Within : ℕ → Seen → Type 0
Within limit seen = (s : Size) → seen ≡ sized s → (s.width < limit) × (s.height < limit)

sized-inj : (s t : Size) → sized s ≡ sized t → s ≡ t
sized-inj s t e = cc

walk-Within :
    (fuel i : ℕ) (data_ : Bytes) → are_bytes data_ ≡ true → Within 65_536 (walk fuel i data_)
unfolding walk frame_size next_segment
walk-Within zero i data_ b s e = absurd (cc)
walk-Within (suc fuel) i data_ b s e =
    let next = i + (2 + from_bytes (slice (i + 2) 2 data_)) in
    ground (
      arith,
      slice_two (i + 7) data_ b,
      slice_two (i + 5) data_ b,
      walk-Within fuel (i + 1) data_ b s,
      walk-Within fuel next data_ b s,
      Option-cases (get_elem? data_ i),
      Option-cases (get_elem? data_ (i + 1)),
    )

png-Within : (data_ : Bytes) → are_bytes data_ ≡ true → Within 4_294_967_296 (png data_)
unfolding png
png-Within data_ b s e = ground (arith, slice_four 16 data_ b, slice_four 20 data_ b)

-- A size that is read from bytes is that of an image whose type `mime_of` knows, and both of its sides
-- are below 2^16 for a JPEG and below 2^32 for a PNG.
pub dimensions-Within :
    (data_ : Bytes) (s : Size)
    → are_bytes data_ ≡ true
    → dimensions data_ ≡ sized s
    → (s.width < side_limit (mime_of data_)) × (s.height < side_limit (mime_of data_))
unfolding dimensions jpeg mime_of
dimensions-Within data_ s b e =
    ground (arith, png-Within data_ b s, walk-Within (suc (length data_)) 2 data_ b s)
