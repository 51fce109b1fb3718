-- ===== src/Images/Tests.antt =====
-- A small JPEG and a PNG header, and the theorems of Images at them.
use harmonist.Prelude.{◌<◌, ◌≡◌, refl, true, some, [], ◌∷◌}
use harmonist.Images.{Bytes, Size, Seen, mime_of, walk, jpeg, dimensions, frame_size, next_segment}
use harmonist.Images.Walk.{answered, side_limit, dimensions_answers, dimensions-Within}
use harmonist.Images.Written.{Chain, print, dimensions-print}
use Chain.{filler, segment, frame}
use Seen.{sized, unknown}

abbrev cover_size : Size
cover_size = record { width = 600; height = 400 }

abbrev cover_chain : Chain
cover_chain = segment 224 (1 ∷ 2 ∷ 3 ∷ []) (filler (frame 192 17 8 cover_size 3 (0 ∷ [])))

abbrev cover : Bytes
cover = 255 ∷ 216 ∷ print cover_chain

cover-dimensions : dimensions cover ≡ sized cover_size
unfolding dimensions jpeg walk frame_size next_segment
cover-dimensions = refl

-- Cut off within its frame header it has no size.
cut_dimensions : dimensions (255 ∷ 216 ∷ 255 ∷ 192 ∷ 0 ∷ 17 ∷ 8 ∷ 1 ∷ []) ≡ unknown
unfolding dimensions jpeg walk frame_size next_segment
cut_dimensions = refl

cover_mime : mime_of cover ≡ some "image/jpeg"
unfolding mime_of
cover_mime = refl

dimensions-Within_example : (600 < side_limit (mime_of cover)) × (400 < side_limit (mime_of cover))
dimensions-Within_example = dimensions-Within cover cover_size refl cover-dimensions

dimensions-print_example : dimensions cover ≡ sized cover_size
dimensions-print_example = dimensions-print cover_chain refl

dimensions_answers_example : answered (dimensions cover) ≡ true
dimensions_answers_example = dimensions_answers cover
