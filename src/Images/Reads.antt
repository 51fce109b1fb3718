-- ===== src/Images/Reads.antt =====
-- The bytes that src/harmonist/images.py reads: slices and the numbers in them.
use harmonist.Prelude.{
  ℕ, zero, suc, ◌<◌, ◌≡◌, refl, Bool, true, [], ◌∷◌, ltb, take, drop, every, arith,
}
use harmonist.Images.{Bytes, slice, from_bytes}

-- The bytes are bytes.
abbrev pub are_bytes : Bytes → Bool
are_bytes data_ = every (λ b. ltb b 256) data_

pub drop-IsBytes :
    (n : ℕ) (data_ : Bytes) → are_bytes data_ ≡ true → are_bytes (drop n data_) ≡ true
drop-IsBytes zero data_ h = h
drop-IsBytes (suc n) [] h = refl
drop-IsBytes (suc n) (b ∷ data_) h = drop-IsBytes n data_ (ground arith)

-- Two bytes at most hold a number below 2^16.
pub slice_two :
    (start : ℕ) (data_ : Bytes) → are_bytes data_ ≡ true → from_bytes (slice start 2 data_) < 65_536
slice_two start data_ h = two (drop start data_) (drop-IsBytes start data_ h)
  where
    two : (d : Bytes) → are_bytes d ≡ true → from_bytes (take 2 d) < 65_536
    two [] h = omega arith
    two (a ∷ []) h = ground arith
    two (a ∷ b ∷ d) h = ground arith

pub slice_four :
    (start : ℕ) (data_ : Bytes)
    → are_bytes data_ ≡ true
    → from_bytes (slice start 4 data_) < 4_294_967_296
slice_four start data_ h = four (drop start data_) (drop-IsBytes start data_ h)
  where
    four : (d : Bytes) → are_bytes d ≡ true → from_bytes (take 4 d) < 4_294_967_296
    four [] h = omega arith
    four (a ∷ []) h = ground arith
    four (a ∷ b ∷ []) h = ground arith
    four (a ∷ b ∷ c ∷ []) h = ground arith
    four (a ∷ b ∷ c ∷ e ∷ d) h = ground arith
