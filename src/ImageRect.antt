-- ===== src/ImageRect.antt =====
-- src/PmtAccessor/PmtImageRect.h and PmtImageRect.cpp: a rectangle of an image and the buffer for its
-- samples. An `unsigned int` has 32 bits; a pointer is a handle, NULL is `none`. `malloc` is a
-- parameter.
pub mod Buffer
pub mod Coordinates
use pmt.Common.{
  ℕ, zero, suc, ◌+◌, ◌-◌, ◌*◌, ◌/◌, ◌%◌, ◌^◌, Bool, true, false, not, ◌&&◌, Option, none, some,
  List, [], ◌∷◌, ltb, ◌==◌, if◌then◌else◌,
}

pub data PixelFormat : Type 0 where
  interleaved : PixelFormat
  linear : PixelFormat
  planar : PixelFormat

pub data PhotometricInterp : Type 0 where
  rgb : PhotometricInterp
  cmyk : PhotometricInterp

pub record ImageRect : Type 0 where
  pub x1 : ℕ
  pub x2 : ℕ
  pub y1 : ℕ
  pub y2 : ℕ
  pub bits_per_sample : ℕ
  pub photometric_interp : PhotometricInterp
  pub num_of_planes : ℕ
  pub pix_format : PixelFormat
  pub img_buf : Option ℕ
  pub i_own_img_buf : Bool
  pub size_change : Bool
  pub buf_size : ℕ

abbrev pub word : ℕ
word = 2 ^ 32

-- `a - b` on `unsigned int`
abbrev pub minus : ℕ → ℕ → ℕ
minus a b = (a + word - b) % word

unfoldable pub new : ℕ → ℕ → ℕ → ℕ → Option ℕ → ℕ → PhotometricInterp → ℕ → PixelFormat → ImageRect
new a1 a2 b1 b2 buf bits interp planes format = record {
  x1 = if ltb a2 a1 then a2 else a1;
  x2 = if ltb a2 a1 then a1 else a2;
  y1 = if ltb b2 b1 then b2 else b1;
  y2 = if ltb b2 b1 then b1 else b2;
  bits_per_sample = bits;
  photometric_interp = interp;
  num_of_planes = planes;
  pix_format = format;
  img_buf = buf;
  i_own_img_buf = false;
  size_change = false;
  buf_size = 0;
}

-- What setCoordinates takes for the size: the products of the differences.
unfoldable pub size_of : ℕ → ℕ → ℕ → ℕ → ℕ
size_of a1 a2 b1 b2 = (minus b2 b1 * minus a2 a1) % word

unfoldable pub set_coordinates : ℕ → ℕ → ℕ → ℕ → ImageRect → ImageRect
set_coordinates a1 a2 b1 b2 r =
    let low_x = if ltb a2 a1 then a2 else a1 in
    let high_x = if ltb a2 a1 then a1 else a2 in
    let low_y = if ltb b2 b1 then b2 else b1 in
    let high_y = if ltb b2 b1 then b1 else b2 in
    let same = size_of r.x1 r.x2 r.y1 r.y2 == size_of low_x high_x low_y high_y in
    record r {
      x1 = low_x;
      x2 = high_x;
      y1 = low_y;
      y2 = high_y;
      size_change = if same then r.size_change else true;
    }

unfoldable pub set_bits_per_sample : ℕ → ImageRect → ImageRect
set_bits_per_sample bits r =
    if bits == r.bits_per_sample then r else record r { size_change = true; bits_per_sample = bits }

unfoldable pub set_number_of_planes : ℕ → ImageRect → ImageRect
set_number_of_planes planes r =
    if planes == r.num_of_planes then r else record r { size_change = true; num_of_planes = planes }

-- `(mX2-mX1+1)*(mY2-mY1+1) * mNumOfPlanes * mBitsPerSample / 8` on `unsigned int`
unfoldable pub required_bytes : ℕ → ℕ → ℕ → ℕ → ℕ → ℕ → ℕ
required_bytes a1 a2 b1 b2 planes bits =
    (((minus a2 a1 + 1) % word) * ((minus b2 b1 + 1) % word) * planes * bits) % word / 8

abbrev pub required_buf_size : ImageRect → ℕ
required_buf_size r = required_bytes r.x1 r.x2 r.y1 r.y2 r.num_of_planes r.bits_per_sample

-- The rectangle behind a method, and the pointers that the method passed to `free`.
pub record Freed : Type 0 where
  pub rect : ImageRect
  pub freed : List ℕ

-- getImageBuffer, which returns the `img_buf` that it leaves, by what `img_buf` was.
unfoldable pub buffer_from : (ℕ → Option ℕ) → ImageRect → Option ℕ → Freed
buffer_from malloc r none = record {
  rect = record r {
    img_buf = malloc (required_buf_size r);
    buf_size = required_buf_size r;
    i_own_img_buf = true;
    size_change = false;
  };
  freed = [];
}
buffer_from malloc r (some buf) =
    if r.size_change && r.i_own_img_buf && ltb r.buf_size (required_buf_size r)
    then record {
      rect = record r {
        img_buf = malloc (required_buf_size r);
        size_change = false;
        buf_size = required_buf_size r;
      };
      freed = buf ∷ [];
    }
    else record { rect = r; freed = [] }

unfoldable pub get_image_buffer : (ℕ → Option ℕ) → ImageRect → Freed
get_image_buffer malloc r = buffer_from malloc r r.img_buf

-- setImageBuffer, by what `img_buf` was.
unfoldable pub replace_buffer : Option ℕ → ImageRect → Option ℕ → Freed
replace_buffer img_buf r none = record { rect = record r { img_buf = img_buf }; freed = [] }
replace_buffer img_buf r (some buf) =
    if r.i_own_img_buf
    then record {
      rect = record r {
        i_own_img_buf = false;
        size_change = false;
        buf_size = 0;
        img_buf = img_buf;
      };
      freed = buf ∷ [];
    }
    else record { rect = record r { img_buf = img_buf }; freed = [] }

unfoldable pub set_image_buffer : Option ℕ → ImageRect → Freed
set_image_buffer img_buf r = replace_buffer img_buf r r.img_buf
