-- ===== src/ImageRect/Coordinates.antt =====
-- setCoordinates of PmtImageRect.cpp, and what it does to the buffer.
use pmt.Common.{
  sym, ℕ, ◌+◌, ◌-◌, ◌*◌, ◌/◌, ◌≤◌, ◌<◌, ◌≡◌, refl, ap, true, false, Option, some, [], ltb, min, max,
  ◌∙◌, if◌then◌else◌, arith,
}
use pmt.ImageRect.{word, ImageRect, set_coordinates, size_of, get_image_buffer, buffer_from}
use pmt.ImageRect.Buffer.{bytes_of, minus-exact, small-word}

abbrev HasCorners : ℕ → ℕ → ℕ → ℕ → ImageRect → Type 0
HasCorners a1 a2 b1 b2 r =
    (r.x1 ≡ min a1 a2) × (r.x2 ≡ max a1 a2) × (r.y1 ≡ min b1 b2) × (r.y2 ≡ max b1 b2)

set_coordinates-HasCorners :
    (a1 a2 b1 b2 : ℕ) (r : ImageRect) → HasCorners a1 a2 b1 b2 (set_coordinates a1 a2 b1 b2 r)
unfolding set_coordinates
set_coordinates-HasCorners a1 a2 b1 b2 r = (ground arith, ground arith, ground arith, ground arith)

-- The product of the differences, as setCoordinates compares it.
abbrev pub size : ImageRect → ℕ
size r = size_of r.x1 r.x2 r.y1 r.y2

buffer_from-quiet :
    (malloc : ℕ → Option ℕ) (r : ImageRect) (buf : ℕ)
    → r.size_change ≡ false
    → buffer_from malloc r (some buf) ≡ record { rect = r; freed = [] }
unfolding buffer_from
buffer_from-quiet malloc r buf quiet = rw quiet refl

get_image_buffer-quiet :
    (malloc : ℕ → Option ℕ) (r : ImageRect) (buf : ℕ)
    → r.img_buf ≡ some buf
    → r.size_change ≡ false
    → get_image_buffer malloc r ≡ record { rect = r; freed = [] }
unfolding get_image_buffer
get_image_buffer-quiet malloc r buf there quiet =
    ap (buffer_from malloc r) there ∙ buffer_from-quiet malloc r buf quiet

set_coordinates-quiet :
    (a1 a2 b1 b2 : ℕ) (r : ImageRect)
    → r.size_change ≡ false
    → size (set_coordinates a1 a2 b1 b2 r) ≡ size r
    → (set_coordinates a1 a2 b1 b2 r).size_change ≡ false
unfolding set_coordinates
set_coordinates-quiet a1 a2 b1 b2 r quiet same = ground (arith, quiet, same)

set_coordinates-moved :
    (a1 a2 b1 b2 : ℕ) (r : ImageRect)
    → r.size_change ≡ false
    → size (set_coordinates a1 a2 b1 b2 r) ≡ size r
    → set_coordinates a1 a2 b1 b2 r
      ≡ record r { x1 = min a1 a2; x2 = max a1 a2; y1 = min b1 b2; y2 = max b1 b2 }
unfolding set_coordinates
set_coordinates-moved a1 a2 b1 b2 r quiet same =
    let low_x : (if ltb a2 a1 then a2 else a1) ≡ min a1 a2 = ground arith in
    let high_x : (if ltb a2 a1 then a1 else a2) ≡ max a1 a2 = ground arith in
    let low_y : (if ltb b2 b1 then b2 else b1) ≡ min b1 b2 = ground arith in
    let high_y : (if ltb b2 b1 then b1 else b2) ≡ max b1 b2 = ground arith in
    let change = set_coordinates-quiet a1 a2 b1 b2 r quiet same ∙ sym quiet in
    λ i. record r {
      x1 = low_x i;
      x2 = high_x i;
      y1 = low_y i;
      y2 = high_y i;
      size_change = change i;
    }

exact-size :
    (a1 a2 b1 b2 : ℕ)
    → a1 ≤ a2
    → a2 < word
    → b1 ≤ b2
    → b2 < word
    → (b2 - b1) * (a2 - a1) < word
    → size_of a1 a2 b1 b2 ≡ (b2 - b1) * (a2 - a1)
unfolding size_of
exact-size a1 a2 b1 b2 le_a small_a le_b small_b fits =
    rw (minus-exact a2 a1 le_a small_a, minus-exact b2 b1 le_b small_b) (small-word _ fits)

get_image_buffer-unchanged :
    (malloc : ℕ → Option ℕ) (a1 a2 b1 b2 buf : ℕ) (r : ImageRect)
    → r.img_buf ≡ some buf
    → r.size_change ≡ false
    → size (set_coordinates a1 a2 b1 b2 r) ≡ size r
    → get_image_buffer malloc (set_coordinates a1 a2 b1 b2 r) ≡ record {
      rect = record r { x1 = min a1 a2; x2 = max a1 a2; y1 = min b1 b2; y2 = max b1 b2 };
      freed = [];
    }
get_image_buffer-unchanged malloc a1 a2 b1 b2 buf r there quiet same =
    let still = set_coordinates-quiet a1 a2 b1 b2 r quiet same in
    get_image_buffer-quiet malloc (set_coordinates a1 a2 b1 b2 r) buf
      (unfold set_coordinates in there) still
    ∙ ap (λ (q : ImageRect). record { rect = q; freed = [] })
        (set_coordinates-moved a1 a2 b1 b2 r quiet same)

exact-size_of_corners :
    (a1 a2 b1 b2 : ℕ) (r : ImageRect)
    → a1 < word
    → a2 < word
    → b1 < word
    → b2 < word
    → (max b1 b2 - min b1 b2) * (max a1 a2 - min a1 a2) < word
    → size (set_coordinates a1 a2 b1 b2 r) ≡ (max b1 b2 - min b1 b2) * (max a1 a2 - min a1 a2)
exact-size_of_corners a1 a2 b1 b2 r small_a1 small_a2 small_b1 small_b2 fits =
    let (x1, x2, y1, y2) = set_coordinates-HasCorners a1 a2 b1 b2 r in
    rw (x1, x2, y1, y2)
      (exact-size (min a1 a2) (max a1 a2) (min b1 b2) (max b1 b2) (omega arith) (omega arith)
        (omega arith) (omega arith) fits)

-- Both corners of the rectangle are `unsigned int`s, the lesser coordinates first, and so is the
-- product of the differences.
abbrev pub HasSize : ImageRect → Type 0
HasSize r =
    (r.x1 ≤ r.x2)
    × (r.x2 < word)
    × (r.y1 ≤ r.y2)
    × (r.y2 < word)
    × ((r.y2 - r.y1) * (r.x2 - r.x1) < word)

-- Where the lesser coordinates come first, no change is noted, the rectangle has a buffer of its own,
-- and new corners keep the product of the differences of the coordinates (which is below 2 ^ 32) but
-- require more bytes than the buffer has, getImageBuffer after setCoordinates keeps that buffer and
-- its size and frees nothing: the buffer returned is smaller than the samples of the rectangle.
pub set_coordinates-stale :
    (malloc : ℕ → Option ℕ) (a1 a2 b1 b2 buf : ℕ) (r : ImageRect)
    → HasSize r
    → a1 < word
    → a2 < word
    → b1 < word
    → b2 < word
    → (max b1 b2 - min b1 b2) * (max a1 a2 - min a1 a2) ≡ (r.y2 - r.y1) * (r.x2 - r.x1)
    → r.img_buf ≡ some buf
    → r.i_own_img_buf ≡ true
    → r.size_change ≡ false
    → r.buf_size
      < (max a1 a2 - min a1 a2 + 1)
        * (max b1 b2 - min b1 b2 + 1)
        * r.num_of_planes
        * r.bits_per_sample
        / 8
    → let q = get_image_buffer malloc (set_coordinates a1 a2 b1 b2 r) in
      (q.freed ≡ [])
      × (q.rect.img_buf ≡ some buf)
      × (q.rect.i_own_img_buf ≡ true)
      × (q.rect.buf_size ≡ r.buf_size)
      × (q.rect.buf_size < bytes_of q.rect)
set_coordinates-stale malloc a1 a2 b1 b2 buf r (le_x, small_x, le_y, small_y, fits) small_a1
      small_a2 small_b1 small_b2 same there own quiet short =
    let kept =
      exact-size_of_corners a1 a2 b1 b2 r small_a1 small_a2 small_b1 small_b2 (rw same fits)
      ∙ same
      ∙ sym (exact-size r.x1 r.x2 r.y1 r.y2 le_x small_x le_y small_y fits) in
    rw (get_image_buffer-unchanged malloc a1 a2 b1 b2 buf r there quiet kept)
      (refl, there, own, refl, unfold bytes_of in short)
