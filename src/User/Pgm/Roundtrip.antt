-- ===== src/User/Pgm/Roundtrip.antt =====
-- An image that `vpipe_write_pgm` has written is read back by `vpipe_read_pgm`.
use vpipe.Base.{
  ℕ, zero, suc, ◌+◌, ◌*◌, ◌≤◌, ◌<◌, ◌≡◌, refl, ap, ◌∙◌, Bool, true, false, some, List, ◌∷◌, arith,
  leb, u64, Bytes, length, get_or,
}
use vpipe.User.Image.{PgmImage}
use vpipe.User.Pgm.{
  print_uint, scan_uint, scan_digits, drop_space, skip_space, read_pixels, read_maxval, read_height,
  read_width, bad_dims, read_pgm, bytes_from, write_pgm,
}
use vpipe.User.Pgm.Decimal.{skip_space-print_uint, scan_uint-print_uint}

length-bytes_from : (data_ : Bytes) (i n : ℕ) → length (bytes_from data_ i n) ≡ n
unfolding bytes_from
length-bytes_from data_ i zero = refl
length-bytes_from data_ i (suc n) = ap suc (length-bytes_from data_ (i + 1) n)

get_or-bytes_from :
    (data_ : Bytes) (i n k : ℕ) → k < n → get_or (bytes_from data_ i n) k 0 ≡ data_ (i + k)
unfolding bytes_from
get_or-bytes_from data_ i zero k h = absurd (omega arith)
get_or-bytes_from data_ i (suc n) zero h = ap data_ (omega arith)
get_or-bytes_from data_ i (suc n) (suc k) h =
    get_or-bytes_from data_ (i + 1) n k (omega arith) ∙ ap data_ (omega arith)

scan_uint-space : (cs : List ℕ) → scan_uint (32 ∷ cs) ≡ scan_uint cs
unfolding scan_uint drop_space
scan_uint-space cs = refl

read_maxval-header :
    (allocated : Bool) (w h : ℕ) (pixels : List ℕ)
    → read_maxval allocated w h (scan_uint (skip_space false (10 ∷ 50 ∷ 53 ∷ 53 ∷ 10 ∷ pixels)))
      ≡ read_pixels allocated w h pixels
unfolding scan_uint drop_space scan_digits skip_space
read_maxval-header allocated w h pixels = refl

-- The image that a file of these pixels holds.
abbrev image_of : ℕ → ℕ → Bytes → PgmImage
image_of width height data_ = record {
  width = width;
  height = height;
  pixels = λ i. get_or (bytes_from data_ 0 (u64 (width * height))) i 0;
  size = u64 (width * height);
}

read_pgm-header :
    (width height : ℕ) (data_ : Bytes)
    → 0 < width
    → width ≤ 4096
    → 0 < height
    → height ≤ 4096
    → read_pgm true (write_pgm data_ width height)
      ≡ read_pixels true width height (bytes_from data_ 0 (u64 (width * height)))
unfolding read_pgm write_pgm skip_space
read_pgm-header width height data_ w0 w1 h0 h1 =
    let pixels = bytes_from data_ 0 (u64 (width * height)) in
    let tail = 10 ∷ 50 ∷ 53 ∷ 53 ∷ 10 ∷ pixels in
    let dims : bad_dims width height ≡ false = ground arith in
    ap (λ s. read_width true (scan_uint s))
      (skip_space-print_uint width (32 ∷ print_uint height tail))
    ∙ ap (read_width true)
        (scan_uint-print_uint width 32 (print_uint height tail) (omega arith) refl)
    ∙ ap (read_height true width) (
        scan_uint-space (print_uint height tail)
        ∙ scan_uint-print_uint height 10 (50 ∷ 53 ∷ 53 ∷ 10 ∷ pixels) (omega arith) refl)
    ∙ rw dims (read_maxval-header true width height pixels)

-- An image of 1 to 4096 pixels each way that has been written to a file is read back with its size and,
-- at every offset, its pixels, if the file could be written and memory is allocated.
pub read_pgm-write_pgm :
    (width height : ℕ) (data_ : Bytes) (i : ℕ)
    → 0 < width
    → width ≤ 4096
    → 0 < height
    → height ≤ 4096
    → i < width * height
    → (image : PgmImage) × (read_pgm true (write_pgm data_ width height) ≡ some image)
      × (image.width ≡ width)
      × (image.height ≡ height)
      × (image.size ≡ width * height)
      × (image.pixels i ≡ data_ i)
read_pgm-write_pgm width height data_ i w0 w1 h0 h1 hi =
    let size : u64 (width * height) ≡ width * height = omega (arith, area width height w1 h1) in
    let enough : leb (u64 (width * height)) (length (bytes_from data_ 0 (u64 (width * height))))
        ≡ true =
      ground (arith, length-bytes_from data_ 0 (u64 (width * height))) in
    (
      image_of width height data_,
      read_pgm-header width height data_ w0 w1 h0 h1 ∙ rw enough refl,
      refl,
      refl,
      size,
      get_or-bytes_from data_ 0 (u64 (width * height)) i (omega (arith, size))
          ∙ ap data_ (omega arith),
    )
  where
    area : (w h : ℕ) → w ≤ 4096 → h ≤ 4096 → w * h ≤ 4096 * 4096
    area w h p q = grind arith
