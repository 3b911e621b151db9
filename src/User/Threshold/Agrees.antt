-- ===== src/User/Threshold/Agrees.antt =====
-- The kernel's threshold and the userspace reference give the same frame.
use vpipe.Base.{
  ℕ, ◌+◌, ◌*◌, ◌^◌, ◌<◌, ◌≡◌, ap, ◌&&◌, true, arith, ltb, leb, if◌then◌else◌, Bytes, memcpy, u8,
  lt→ltb, some, ◌+ℤ◌,
}
use vpipe.Uapi.{algo_threshold}
use vpipe.Cv.{Roi, JobDesc, threshold_pixel, clamp_roi, cv_process}
use vpipe.Cv.Clamp.{FitsS32}
use vpipe.Cv.Frame.{FrameFits}
use vpipe.Cv.Process.{covers, cv_process-threshold-at}
use vpipe.User.Image.{PgmImage}
use vpipe.User.Threshold.{Edges, edges, threshold_reference}
use vpipe.User.Threshold.Clip.{IsInt32, edges_rect, EdgesFit, edges-EdgesFit, clamp_roi-edges}
use vpipe.User.Threshold.Loops.{offset-lt, ref_rows-at}

-- The job that processes the image: a row after the other with no padding, as the driver's formats
-- have it.
abbrev pub job_of : PgmImage → JobDesc
job_of image = record {
  src = image.pixels;
  width = image.width;
  height = image.height;
  src_stride = image.width;
  dst_stride = image.width;
}

-- An image whose size is that of its frame and whose offsets fit 32 bits.
pub record IsFrame (image : PgmImage) : Type 0 where
  pub sizes : FitsS32 (job_of image)
  pub offsets_fit : image.height * image.width < 2 ^ 32
  pub whole : image.size ≡ image.height * image.width

IsFrame-FrameFits : (image : PgmImage) → IsFrame image → FrameFits (job_of image)
IsFrame-FrameFits image f = record {
  sizes = f.sizes;
  width_le_src = omega arith;
  width_le_dst = omega arith;
  src_fits = f.offsets_fit;
  dst_fits = f.offsets_fit;
}

covers-edges :
    (width height : ℕ) (e : Edges) (x y : ℕ)
    → EdgesFit width height e
    → covers (edges_rect e) x y ≡ (leb e.top y && ltb y e.bottom && leb e.left x && ltb x e.right)
unfolding ◌+ℤ◌
covers-edges width height e x y fit = ground arith

memcpy-whole : (m src : Bytes) (n q : ℕ) → q < n → memcpy m 0 src 0 n q ≡ src q
memcpy-whole m src n q h = ground arith

-- The pixels of the reference.
reference-at :
    (image : PgmImage) (th : ℕ) (roi : Roi) (garbage : Bytes) (y x : ℕ)
    → IsFrame image
    → IsInt32 roi
    → x < image.width
    → y < image.height
    → (threshold_reference image th roi.left roi.top roi.width roi.height (true, garbage)).1.pixels
        (y * image.width + x)
      ≡ (if covers (clamp_roi (job_of image) (some roi)) x y
          then threshold_pixel (image.pixels (y * image.width + x)) (u8 th)
          else image.pixels (y * image.width + x))
unfolding threshold_reference
reference-at image th roi garbage y x f ints hx hy =
    let e = edges image.width image.height roi.left roi.top roi.width roi.height in
    let fit = edges-EdgesFit (job_of image) roi f.sizes ints in
    let copied = memcpy garbage 0 image.pixels 0 image.size in
    rw
      (
        clamp_roi-edges (job_of image) roi f.sizes ints,
        covers-edges image.width image.height e x y fit,
        ref_rows-at image (u8 th) f.offsets_fit y x hx e fit copied,
      )
      (ap
        (λ v.
          if leb e.top y && ltb y e.bottom && leb e.left x && ltb x e.right
          then threshold_pixel (image.pixels (y * image.width + x)) (u8 th)
          else v)
        (memcpy-whole garbage image.pixels image.size (y * image.width + x)
          (omega (arith, offset-lt y x image.width image.height hx hy, f.whole))))

byte_of : (th : ℕ) → th < 256 → u8 th ≡ th
byte_of th small = omega arith

-- For every image whose sides fit an s32, whose offsets fit 32 bits and whose size is that of its frame, every
-- threshold of 8 bits and every region of ints, the kernel's threshold of the image and the userspace
-- reference are equal at every pixel.
pub cv_process-threshold_reference :
    (image : PgmImage) (th : ℕ) (roi : Roi) (dst garbage : Bytes) (y x : ℕ)
    → IsFrame image
    → IsInt32 roi
    → th < 256
    → x < image.width
    → y < image.height
    → (cv_process (job_of image) algo_threshold th (some roi) dst).2 (y * image.width + x)
      ≡ (threshold_reference image th roi.left roi.top roi.width roi.height
            (true, garbage)).1.pixels
          (y * image.width + x)
cv_process-threshold_reference image th roi dst garbage y x f ints small hx hy = rw (
  reference-at image th roi garbage y x f ints hx hy,
  byte_of th small,
  (cv_process-threshold-at (job_of image) (IsFrame-FrameFits image f) th (some roi) dst y x hx).1,
  lt→ltb y image.height hy,
  lt→ltb x image.width hx,
)
