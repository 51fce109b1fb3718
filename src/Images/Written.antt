-- ===== src/Images/Written.antt =====
-- Images written out as the formats lay them down, for src/harmonist/images.py to read: the segments of
-- a JPEG up to its frame header, and the header of a PNG.
use harmonist.Prelude.{
  ℕ, zero, suc, ◌+◌, ◌/◌, ◌%◌, ◌<◌, ◌≤◌, ◌≡◌, refl, ap, ◌∙◌, Bool, true, not, some, [], ◌∷◌, ◌++◌,
  ◌&&◌, ◌==◌, nat_eq, drop-add, drop-append, length-drop, get_elem?-drop, length, length-append,
  ltb, drop, get_elem?, contains, arith,
}
use harmonist.Images.{
  Bytes, slice, from_bytes, sof, Size, Seen, png_signature, ihdr, png, next_segment, frame_size,
  walk, jpeg, dimensions,
}
use Seen.{sized}

-- A number as two bytes, and as four.
abbrev pub two_bytes : ℕ → Bytes
two_bytes n = n / 256 ∷ n % 256 ∷ []

abbrev pub four_bytes : ℕ → Bytes
four_bytes n = two_bytes (n / 65_536) ++ two_bytes (n % 65_536)

-- The segments of a JPEG up to the frame header, fillers before a marker included, and what follows.
pub data Chain : Type 0 where
  filler : Chain → Chain
  segment : ℕ → Bytes → Chain → Chain
  frame : ℕ → ℕ → ℕ → Size → ℕ → Bytes → Chain

abbrev pub print : Chain → Bytes
print (filler c) = 255 ∷ print c
print (segment marker payload c) =
    255 ∷ marker ∷ (two_bytes (length payload + 2) ++ (payload ++ print c))
print (frame marker size precision s parts rest) =
    255
    ∷ marker
    ∷ (two_bytes size
        ++ (precision ∷ (two_bytes s.height ++ (two_bytes s.width ++ (parts ∷ rest)))))

abbrev pub framed : Chain → Size
framed (filler c) = framed c
framed (segment marker payload c) = framed c
framed (frame marker size precision s parts rest) = s

-- A segment before the frame has a marker of its own and a length that two bytes hold, and the frame
-- header is one.
abbrev pub well_formed : Chain → Bool
well_formed (filler c) = well_formed c
well_formed (segment marker payload c) =
    not (marker == 255)
    && (not (contains sof marker) && (ltb (length payload) 65_534 && well_formed c))
well_formed (frame marker size precision s parts rest) =
    contains sof marker && (ltb s.height 65_536 && ltb s.width 65_536)

print_long : (c : Chain) → 10 ≤ length (print c)
print_long (filler c) = omega (arith, print_long c)
print_long (segment marker payload c) = omega (arith, length-append payload (print c), print_long c)
print_long (frame marker size precision s parts rest) = omega arith

print_leads : (c : Chain) → (d : Bytes) × (print c ≡ 255 ∷ d)
print_leads (filler c) = (_, refl)
print_leads (segment marker payload c) = (_, refl)
print_leads (frame marker size precision s parts rest) = (_, refl)

-- What a number read from two bytes is.
number_at :
    (i k : ℕ) (data_ rest : Bytes) (n : ℕ)
    → drop k (drop i data_) ≡ two_bytes n ++ rest
    → from_bytes (slice (i + k) 2 data_) ≡ n
number_at i k data_ rest n at = rw (drop-add i k data_, at) (omega arith)

-- The byte at a place and the one after it.
lead_at : (i b : ℕ) (data_ rest : Bytes) → drop i data_ ≡ b ∷ rest → get_elem? data_ i ≡ some b
lead_at zero b data_ rest at = rw at refl
lead_at (suc i) b [] rest at = absurd (cc)
lead_at (suc i) b (x ∷ data_) rest at = lead_at i b data_ rest at

marker_at :
    (i b c : ℕ) (data_ rest : Bytes)
    → drop i data_ ≡ b ∷ c ∷ rest
    → get_elem? data_ (i + 1) ≡ some c
marker_at i b c data_ rest at = rw (get_elem?-drop i 1 data_, at) refl

more_at :
    (i : ℕ) (data_ : Bytes) (c : Chain) → drop i data_ ≡ print c → ltb (i + 9) (length data_) ≡ true
more_at i data_ c at =
    let e : length (drop i data_) ≡ length (print c) = ap length at in
    ground (arith, length-drop i data_, print_long c)

walk-print :
    (fuel i : ℕ) (data_ : Bytes) (c : Chain)
    → well_formed c ≡ true
    → drop i data_ ≡ print c
    → length (print c) < fuel
    → walk fuel i data_ ≡ sized (framed c)
unfolding walk frame_size next_segment
walk-print zero i data_ c w at lt = absurd (omega arith)
walk-print (suc fuel) i data_ (filler c) w at lt =
    let (d, leads) = print_leads c in
    let next : drop (i + 1) data_ ≡ print c = rw (drop-add i 1 data_, at) refl in
    let mark : get_elem? data_ (i + 1) ≡ some 255 = lead_at (i + 1) 255 data_ d (next ∙ leads) in
    ground (
      arith,
      more_at i data_ (filler c) at,
      lead_at i 255 data_ (print c) at,
      walk-print fuel (i + 1) data_ c w next,
    )
walk-print (suc fuel) i data_ (segment marker payload c) w at lt =
    let n = length payload + 2 in
    let size : from_bytes (slice (i + 2) 2 data_) ≡ n =
      number_at i 2 data_ (payload ++ print c) n (rw at refl) in
    let place : i + (2 + n) ≡ (i + 4) + length payload = omega arith in
    let next : drop (i + (2 + n)) data_ ≡ print c =
      rw (place, drop-add (i + 4) (length payload) data_, drop-add i 4 data_, at)
        (drop-append payload (print c)) in
    ground (
      arith,
      more_at i data_ (segment marker payload c) at,
      lead_at i 255 data_ _ at,
      marker_at i 255 marker data_ _ at,
      length-append payload (print c),
      walk-print fuel (i + (2 + n)) data_ c (ground arith) next,
    )
walk-print (suc fuel) i data_ (frame marker size precision s parts rest) w at lt =
    let tall : from_bytes (slice (i + 5) 2 data_) ≡ s.height =
      number_at i 5 data_ (two_bytes s.width ++ (parts ∷ rest)) s.height (rw at refl) in
    let wide : from_bytes (slice (i + 7) 2 data_) ≡ s.width =
      number_at i 7 data_ (parts ∷ rest) s.width (rw at refl) in
    ground (
      arith,
      more_at i data_ (frame marker size precision s parts rest) at,
      lead_at i 255 data_ _ at,
      marker_at i 255 marker data_ _ at,
    )

-- A JPEG that is laid out as a chain of well formed segments, fillers before their markers allowed, and
-- a frame header is read as the size that its frame header states, wherever that header stands.
pub dimensions-print :
    (c : Chain) → well_formed c ≡ true → dimensions (255 ∷ 216 ∷ print c) ≡ sized (framed c)
unfolding dimensions jpeg
dimensions-print c w =
    walk-print (suc (length (255 ∷ 216 ∷ print c))) 2 (255 ∷ 216 ∷ print c) c w refl (omega arith)

-- The header of a PNG: the signature, the length of the first chunk, its name, and the size.
abbrev pub png_header : ℕ → Size → Bytes
png_header chunk s =
    png_signature ++ (four_bytes chunk ++ (ihdr ++ (four_bytes s.width ++ four_bytes s.height)))

-- A number below 2^32 is the number of its four bytes.
four_read : (n : ℕ) → n < 4_294_967_296 → from_bytes (four_bytes n) ≡ n
four_read n h = omega arith

-- A PNG whose header states a size with both sides below 2^32 is read as that size, whatever the length of
-- its first chunk and whatever follows.
dimensions-png_header :
    (chunk : ℕ) (s : Size) (rest : Bytes)
    → s.width < 4_294_967_296
    → s.height < 4_294_967_296
    → dimensions (png_header chunk s ++ rest) ≡ sized s
unfolding dimensions png
dimensions-png_header chunk s rest w h = ground (arith, four_read s.width w, four_read s.height h)
