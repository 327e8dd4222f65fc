-- ===== src/ImageRect/Buffer.antt =====
-- The size of the buffer that getImageBuffer of PmtImageRect.cpp returns.
use pmt.Common.{
  ◌&&◌, ℕ, ◌+◌, ◌-◌, ◌*◌, ◌/◌, ◌%◌, ◌≤◌, ◌<◌, ◌≡◌, refl, ap, ◌∙◌, true, false, Option, none, some,
  ltb, ◌==◌, arith, Bool-cases, inl, inr,
}
use pmt.ImageRect.{
  word, minus, buffer_from, replace_buffer, ImageRect, set_bits_per_sample, set_number_of_planes,
  required_bytes, required_buf_size, get_image_buffer, set_image_buffer,
}

-- A buffer of the rectangle's own is large enough, unless a change of the size is noted.
abbrev pub Fits : ImageRect → Type 0
Fits r = r.i_own_img_buf ≡ true → r.size_change ≡ false → required_buf_size r ≤ r.buf_size

-- The bytes of the samples of a rectangle, both corners included, as numbers without a bound.
unfoldable pub bytes_of : ImageRect → ℕ
bytes_of r = (r.x2 - r.x1 + 1) * (r.y2 - r.y1 + 1) * r.num_of_planes * r.bits_per_sample / 8

-- The lesser coordinates come first, and neither the width, the height nor the bits of the samples pass
-- an `unsigned int`.
unfoldable pub InRange : ImageRect → Type 0
InRange r =
    (r.x1 ≤ r.x2)
    × (r.x2 - r.x1 + 1 < word)
    × (r.x2 < word)
    × (r.y1 ≤ r.y2)
    × (r.y2 - r.y1 + 1 < word)
    × (r.y2 < word)
    × ((r.x2 - r.x1 + 1) * (r.y2 - r.y1 + 1) * r.num_of_planes * r.bits_per_sample < word)

-- A buffer of the rectangle's own has the bytes of the samples.
abbrev pub Ready : ImageRect → Type 0
Ready r = r.i_own_img_buf ≡ true → bytes_of r ≤ r.buf_size

pub minus-exact : (a b : ℕ) → b ≤ a → a < word → minus a b ≡ a - b
minus-exact a b le small = omega arith

pub small-word : (n : ℕ) → n < word → n % word ≡ n
small-word n small = omega arith

extent : (a b : ℕ) → b ≤ a → a < word → a - b + 1 < word → (minus a b + 1) % word ≡ a - b + 1
extent a b le small fits = omega (arith, minus-exact a b le small)

pub required-bytes_of : (r : ImageRect) → InRange r → required_buf_size r ≡ bytes_of r
unfolding required_bytes bytes_of InRange
required-bytes_of r (le_x, wide, small_x, le_y, high, small_y, fits) =
    rw (extent r.x2 r.x1 le_x small_x wide, extent r.y2 r.y1 le_y small_y high)
      (ap (λ (n : ℕ). n / 8) (small-word _ fits))

buffer_from-Ready :
    (malloc : ℕ → Option ℕ) (r : ImageRect) (fresh : ℕ) (b : Option ℕ)
    → required_buf_size r ≡ bytes_of r
    → Fits r
    → malloc (bytes_of r) ≡ some fresh
    → ((buf : ℕ) × ((buffer_from malloc (record r { img_buf = b }) b).rect.img_buf ≡ some buf))
      × Ready (buffer_from malloc (record r { img_buf = b }) b).rect
unfolding buffer_from bytes_of
buffer_from-Ready malloc r fresh none sized fits made =
    ((fresh, ap malloc sized ∙ made), λ own. omega (arith, sized))
buffer_from-Ready malloc r fresh (some buf) sized fits made =
    elim (Bool-cases (r.size_change && r.i_own_img_buf && ltb r.buf_size (required_buf_size r))) [
      | inl grows ↦ rw grows ((fresh, ap malloc sized ∙ made), λ own. omega (arith, sized))
      | inr kept ↦ rw kept ((buf, refl), λ own. ground (arith, kept, own, fits, sized))
    ]

-- Where the lesser coordinates come first, neither the width, the height nor the bits of the samples
-- pass an `unsigned int`, every change of the size is noted and malloc has a buffer of the bytes of the
-- samples, getImageBuffer returns a buffer; if it is the rectangle's own, it has at least the bytes of
-- the samples, both corners included.
pub get_image_buffer-Ready :
    (malloc : ℕ → Option ℕ) (r : ImageRect) (fresh : ℕ)
    → InRange r
    → Fits r
    → malloc (bytes_of r) ≡ some fresh
    → ((buf : ℕ) × ((get_image_buffer malloc r).rect.img_buf ≡ some buf))
      × Ready (get_image_buffer malloc r).rect
unfolding get_image_buffer
get_image_buffer-Ready malloc r fresh sized fits made =
    buffer_from-Ready malloc r fresh r.img_buf (required-bytes_of r sized) fits made

replace_buffer-Fits :
    (buf : Option ℕ) (r : ImageRect) (b : Option ℕ) → Fits r → Fits (replace_buffer buf r b).rect
unfolding replace_buffer
replace_buffer-Fits buf r none fits = fits
replace_buffer-Fits buf r (some old) fits = elim (Bool-cases r.i_own_img_buf) [
  | inl own ↦ rw own (λ no changed. cc no)
  | inr foreign ↦ rw foreign (λ own. cc (own, foreign))
]

-- setBitsPerSample, setNumberOfPlanes and setImageBuffer keep every change of the size noted.
pub setters-Fits :
    (r : ImageRect) (n : ℕ) (buf : Option ℕ)
    → Fits r
    → Fits (set_bits_per_sample n r)
      × Fits (set_number_of_planes n r)
      × Fits (set_image_buffer buf r).rect
unfolding set_bits_per_sample set_number_of_planes set_image_buffer
setters-Fits r n buf fits = (
  elim (Bool-cases (n == r.bits_per_sample)) [
    | inl same ↦ rw same fits
    | inr new ↦ rw new (λ own changed. cc changed)
  ],
  elim (Bool-cases (n == r.num_of_planes)) [
    | inl same ↦ rw same fits
    | inr new ↦ rw new (λ own changed. cc changed)
  ],
  replace_buffer-Fits buf r r.img_buf fits,
)
