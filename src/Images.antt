-- ===== src/Images.antt =====
-- src/harmonist/images.py: what an image is, read from its own first bytes. A byte is a number below
-- 256; a read past the end is an `IndexError`, which is an answer of its own here.
pub mod Reads
pub mod Walk
pub mod Written
mod Tests
use harmonist.Prelude.{
  ℕ, zero, suc, ◌+◌, ◌*◌, ◌-◌, String, Bool, true, false, not, Option, none, some, List, [], ◌∷◌,
  ◌++◌, ◌==◌, nat_eq, length, ltb, take, drop, get_elem?, contains, if◌then◌else◌,
}

abbrev pub Bytes : Type 0
Bytes = List ℕ

abbrev pub byte_list_beq : Bytes → Bytes → Bool
byte_list_beq [] [] = true
byte_list_beq (a ∷ as_) (b ∷ bs) = elim (a == b) [ true ↦ byte_list_beq as_ bs | false ↦ false ]
byte_list_beq [] (b ∷ bs) = false
byte_list_beq (a ∷ as_) [] = false

-- `data[start:start + size]`, which stops at the end.
abbrev pub slice : ℕ → ℕ → Bytes → Bytes
slice start size data_ = take size (drop start data_)

abbrev pub big_from : ℕ → Bytes → ℕ
big_from high [] = high
big_from high (b ∷ data_) = big_from (high * 256 + b) data_

-- `int.from_bytes(data, "big")`
abbrev pub from_bytes : Bytes → ℕ
from_bytes data_ = big_from 0 data_

abbrev pub png_signature : Bytes
png_signature = 137 ∷ 80 ∷ 78 ∷ 71 ∷ 13 ∷ 10 ∷ 26 ∷ 10 ∷ []

-- `b"IHDR"`
abbrev pub ihdr : Bytes
ihdr = 73 ∷ 72 ∷ 68 ∷ 82 ∷ []

abbrev pub jpeg_signature : Bytes
jpeg_signature = 255 ∷ 216 ∷ []

-- `_SOF`
abbrev pub sof : List ℕ
sof = 192 ∷ 193 ∷ 194 ∷ 195 ∷ 197 ∷ 198 ∷ 199 ∷ 201 ∷ 202 ∷ 203 ∷ 205 ∷ 206 ∷ 207 ∷ []

pub record Size : Type 0 where
  pub width : ℕ
  pub height : ℕ

-- What the walk comes to: `raised` is a read past the end, `walking` says that the rounds given were not
-- enough.
pub data Seen : Type 0 where
  sized : Size → Seen
  unknown : Seen
  raised : Seen
  walking : Seen

unfoldable pub mime_of : Bytes → Option String
mime_of data_ =
    if byte_list_beq (slice 0 8 data_) png_signature
    then some "image/png"
    else if byte_list_beq (slice 0 2 data_) jpeg_signature
    then some "image/jpeg"
    else none

-- `_png`
unfoldable pub png : Bytes → Seen
png data_ =
    if ltb (length data_) 24
    then unknown
    else if not (byte_list_beq (slice 12 4 data_) ihdr)
    then unknown
    else sized
        (record { width = from_bytes (slice 16 4 data_); height = from_bytes (slice 20 4 data_) })

-- The segment that stands at `i`, whose marker is not a filler and not a frame's: where the next stands.
unfoldable pub next_segment : ℕ → Bytes → Option ℕ
next_segment i data_ =
    let length_ = from_bytes (slice (i + 2) 2 data_) in
    if ltb length_ 2 then none else some (i + (2 + length_))

-- The frame header at `i`.
unfoldable pub frame_size : ℕ → Bytes → Size
frame_size i data_ = record {
  width = from_bytes (slice (i + 7) 2 data_);
  height = from_bytes (slice (i + 5) 2 data_);
}

-- The loop of `_jpeg` from `i`.
unfoldable pub walk : ℕ → ℕ → Bytes → Seen
walk zero i data_ = walking
walk (suc fuel) i data_ = elim (ltb (i + 9) (length data_)) [
  | false ↦ unknown
  | true ↦ elim (get_elem? data_ i) [
    | none ↦ raised
    | some lead ↦ elim (lead == 255) [
      | false ↦ unknown
      | true ↦ elim (get_elem? data_ (i + 1)) [
        | none ↦ raised
        | some marker ↦ elim (marker == 255) [
          | true ↦ walk fuel (i + 1) data_
          | false ↦ elim (contains sof marker) [
            | true ↦ sized (frame_size i data_)
            | false ↦ elim (next_segment i data_) [
              | none ↦ unknown
              | some next ↦ walk fuel next data_
            ]
          ]
        ]
      ]
    ]
  ]
]

-- `_jpeg`, with a round more than there are bytes.
unfoldable pub jpeg : Bytes → Seen
jpeg data_ = walk (suc (length data_)) 2 data_

unfoldable pub dimensions : Bytes → Seen
dimensions data_ =
    if byte_list_beq (slice 0 8 data_) png_signature
    then png data_
    else if byte_list_beq (slice 0 2 data_) jpeg_signature
    then jpeg data_
    else unknown
