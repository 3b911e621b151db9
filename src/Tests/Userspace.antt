-- ===== src/Tests/Userspace.antt =====
-- Tests of the reference and the runner of user/.
use vpipe.Base.{
  for_range, Bytes, [], ◌∷◌, ◌+◌, ◌*◌, ◌≡◌, ◌↔◌, refl, true, none, some, arith, pos, negsuc, done,
}
use vpipe.Uapi.{algo_none, algo_threshold}
use vpipe.Cv.{Roi, cv_process}
use vpipe.User.Pgm.{read_pgm, write_pgm, skip_space, scan_uint, drop_space, scan_digits, diff_pixel}
use vpipe.User.Pgm.Roundtrip.{read_pgm-write_pgm}
use vpipe.User.Image.{PgmImage}
use vpipe.User.Threshold.{threshold_reference}
use vpipe.User.Threshold.Clip.{IsInt32}
use vpipe.User.Threshold.Agrees.{job_of, IsFrame, cv_process-threshold_reference}
use vpipe.User.Runner.{verify_size}
use vpipe.User.Runner.Verify.{IsGradient, gradient_job, verify_size_iff, verify_size-cv_process}
use vpipe.Tests.Frames.{tiny_src, roi}

abbrev image : PgmImage
image = record { width = 2; height = 2; pixels = tiny_src; size = 4 }

image-IsFrame : IsFrame image
image-IsFrame = record {
  sizes = record { width_fits = omega arith; height_fits = omega arith };
  offsets_fit = omega arith;
  whole = refl;
}

-- The difference of the image and a black one.
abbrev tiny_diff : Bytes
tiny_diff = for_range 4 0 (diff_pixel image (record image { pixels = λ _. 0 })) (λ _. 9)

abbrev corner : Roi
corner = roi (negsuc 0) (pos 0) (pos 2) (pos 9)

corner-IsInt32 : IsInt32 corner
corner-IsInt32 = record {
  left_fits = omega arith;
  top_fits = omega arith;
  width_fits = omega arith;
  height_fits = omega arith;
}

cv_process-threshold_reference_example :
    (cv_process (job_of image) algo_threshold 127 (some corner) (λ _. 7)).2 (1 * 2 + 0)
    ≡ (threshold_reference image 127 (negsuc 0) (pos 0) (pos 2) (pos 9) (true, λ _. 3)).1.pixels
        (1 * 2 + 0)
cv_process-threshold_reference_example =
    cv_process-threshold_reference image 127 corner (λ _. 7) (λ _. 3) 1 0 image-IsFrame
      corner-IsInt32 (omega arith) (omega arith) (omega arith)

verify_size_iff_example : verify_size 2 2 tiny_src ≡ true ↔ IsGradient 2 2 tiny_src
verify_size_iff_example = verify_size_iff 2 2 tiny_src (omega arith)

verify_size-cv_process_example :
    let (status, result, out) =
      cv_process (gradient_job 640 480 3 (λ _. 0)) algo_none 127 none (λ _. 7) in
    (status ≡ done) × (verify_size 640 480 out ≡ true)
verify_size-cv_process_example =
    verify_size-cv_process 640 480 3 127 (λ _. 0) (λ _. 7) (omega arith) (omega arith) (omega arith)
      (omega arith)

read_pgm-write_pgm_example :
    (read : PgmImage) × (read_pgm true (write_pgm tiny_src 2 2) ≡ some read)
    × (read.width ≡ 2)
    × (read.height ≡ 2)
    × (read.size ≡ 4)
    × (read.pixels 1 ≡ 200)
read_pgm-write_pgm_example =
    read_pgm-write_pgm 2 2 tiny_src 1 (omega arith) (omega arith) (omega arith) (omega arith)
      (omega arith)

-- A comment in the header is skipped, and a file that is too short is refused.
comment_skipped :
    (r : PgmImage) × (read_pgm true
        (80 ∷ 53 ∷ 10 ∷ 35 ∷ 65 ∷ 10 ∷ 49 ∷ 32 ∷ 49 ∷ 10 ∷ 50 ∷ 53 ∷ 53 ∷ 10 ∷ 7 ∷ [])
      ≡ some r)
unfolding read_pgm skip_space scan_uint drop_space scan_digits
comment_skipped = (_, refl)

short_refused : read_pgm true (80 ∷ 53 ∷ 10 ∷ 49 ∷ 32 ∷ 49 ∷ 10 ∷ 50 ∷ 53 ∷ 53 ∷ 10 ∷ []) ≡ none
unfolding read_pgm skip_space scan_uint drop_space scan_digits
short_refused = refl
