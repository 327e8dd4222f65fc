-- ===== src/Examples/Accessors.antt =====
-- Image rectangles and the XML encoder.
use pmt.Common.{ℕ, ◌<◌, ◌≡◌, refl, true, false, not, Option, some, [], ◌∷◌, all, arith}
use pmt.Common.Text.{Text}
use pmt.ImageRect.{
  ImageRect, rgb, interleaved, set_coordinates, set_bits_per_sample, set_number_of_planes,
  set_image_buffer, get_image_buffer, required_bytes, required_buf_size,
}
use pmt.ImageRect.Buffer.{bytes_of, InRange, Fits, Ready, get_image_buffer-Ready, setters-Fits}
use pmt.ImageRect.Coordinates.{HasSize, set_coordinates-stale}
use pmt.MdType.{get_type, type_name, get_type-type_name, vuint16}
use pmt.Xml.{encode, decode_from, decode-encode, is_markup, encode-all}

-- A square of 3 by 3 samples with a buffer of its own, of 9 bytes.
abbrev square : ImageRect
square = record {
  x1 = 1;
  x2 = 3;
  y1 = 1;
  y2 = 3;
  bits_per_sample = 8;
  photometric_interp = rgb;
  num_of_planes = 1;
  pix_format = interleaved;
  img_buf = some 4;
  i_own_img_buf = true;
  size_change = false;
  buf_size = 9;
}

abbrev malloc : ℕ → Option ℕ
malloc n = some n

square-Fits : Fits square
unfolding required_bytes
square-Fits own quiet = omega arith

square-InRange : InRange square
unfolding InRange
square-InRange =
    (omega arith, omega arith, omega arith, omega arith, omega arith, omega arith, omega arith)

get_image_buffer-Ready_example :
    ((buf : ℕ) × ((get_image_buffer malloc square).rect.img_buf ≡ some buf))
    × Ready (get_image_buffer malloc square).rect
unfolding bytes_of
get_image_buffer-Ready_example =
    get_image_buffer-Ready malloc square 9 square-InRange square-Fits refl

setters-Fits_example :
    Fits (set_bits_per_sample 16 square)
    × Fits (set_number_of_planes 16 square)
    × Fits (set_image_buffer (some 5) square).rect
setters-Fits_example = setters-Fits square 16 (some 5) square-Fits

square-HasSize : HasSize square
square-HasSize = (omega arith, omega arith, omega arith, omega arith, omega arith)

-- Two rows of five: the product of the differences is that of the square.
set_coordinates-stale_example :
    ((get_image_buffer malloc (set_coordinates 1 5 1 2 square)).freed ≡ [])
    × ((get_image_buffer malloc (set_coordinates 1 5 1 2 square)).rect.img_buf ≡ some 4)
    × ((get_image_buffer malloc (set_coordinates 1 5 1 2 square)).rect.i_own_img_buf ≡ true)
    × ((get_image_buffer malloc (set_coordinates 1 5 1 2 square)).rect.buf_size ≡ 9)
    × ((get_image_buffer malloc (set_coordinates 1 5 1 2 square)).rect.buf_size
        < bytes_of (get_image_buffer malloc (set_coordinates 1 5 1 2 square)).rect)
set_coordinates-stale_example =
    set_coordinates-stale malloc 1 5 1 2 4 square square-HasSize (omega arith) (omega arith)
      (omega arith) (omega arith) refl refl refl refl (omega arith)

-- They require 10 bytes of a buffer that has 9.
two_rows : required_buf_size (set_coordinates 1 5 1 2 square) ≡ 10
unfolding set_coordinates required_bytes
two_rows = refl

abbrev less_and : Text
less_and = b'a' ∷ b'<' ∷ b'&' ∷ []

decode-encode_example : decode_from 0 (encode less_and) ≡ less_and
decode-encode_example = decode-encode less_and

encode-all_example : all (λ c. not (is_markup c)) (encode less_and) ≡ true
encode-all_example = encode-all less_and

get_type-type_name_example : get_type (type_name vuint16) ≡ vuint16
get_type-type_name_example = get_type-type_name vuint16
