-- ===== src/User/Runner/Verify.antt =====
-- What `verify_gradient` accepts.
use vpipe.Base.{
  ℕ, zero, suc, ◌+◌, ◌*◌, ◌%◌, ◌^◌, ◌≤◌, ◌<◌, ◌≡◌, ◌↔◌, refl, ◌&&◌, true, arith, ltb, if◌then◌else◌,
  u64, Bytes, none, done,
}
use native.Mathlib.Decide.{ℕ_discrete}
use vpipe.Uapi.{algo_none}
use vpipe.Cv.{JobDesc, cv_process}
use vpipe.Cv.Frame.{FrameFits}
use vpipe.Cv.Process.{cv_process-others-at}
use vpipe.Backend.Vcam.{vcam_fill_gradient}
use vpipe.Backend.Vcam.Gradient.{vcam_fill_gradient-at}
use vpipe.User.Runner.{verify_pixels, verify_rows, verify_size}

-- The frame carries the gradient of its first pixel.
abbrev pub IsGradient : ℕ → ℕ → Bytes → Type 0
IsGradient width height cap =
    (y x : ℕ) → y < height → x < width → cap (y * width + x) ≡ (x + y + cap 0) % 256

verify_pixels_sound :
    (cap : Bytes) (row offset y n x k : ℕ)
    → verify_pixels cap row offset y x n ≡ true
    → x ≤ k
    → k < x + n
    → cap (row + k) ≡ (k + y + offset) % 256
unfolding verify_pixels
verify_pixels_sound cap row offset y zero x k h lo hi = absurd (omega arith)
verify_pixels_sound cap row offset y (suc n) x k h lo hi =
    ground (arith, verify_pixels_sound cap row offset y n (x + 1) k)

verify_pixels_complete :
    (cap : Bytes) (row offset y n x : ℕ)
    → ((k : ℕ) → x ≤ k → k < x + n → cap (row + k) ≡ (k + y + offset) % 256)
    → verify_pixels cap row offset y x n ≡ true
unfolding verify_pixels
verify_pixels_complete cap row offset y zero x h = refl
verify_pixels_complete cap row offset y (suc n) x h =
    let here : cap (row + x) ≡ (x + y + offset) % 256 = h x (omega arith) (omega arith) in
    let rest =
      verify_pixels_complete cap row offset y n (x + 1)
        (λ k lo hi. h k (omega arith) (omega arith)) in
    ground arith

row-fits64 : (y h w : ℕ) → y < h → h * w < 2 ^ 32 → u64 (y * w) ≡ y * w
row-fits64 y h w p small = omega (arith, below y h w p)
  where
    below : (y h w : ℕ) → y < h → y * w ≤ h * w
    below y h w p = grind arith

module _ (cap : Bytes) (width height offset : ℕ) (small : height * width < 2 ^ 32) where
  verify_rows_sound :
      (n r y x : ℕ)
      → r + n ≤ height
      → verify_rows cap width offset r n ≡ true
      → r ≤ y
      → y < r + n
      → x < width
      → cap (y * width + x) ≡ (x + y + offset) % 256
  unfolding verify_rows
  verify_rows_sound zero r y x hr h lo hi hx = absurd (omega arith)
  verify_rows_sound (suc n) r y x hr h lo hi hx =
      let e = row-fits64 r height width (omega arith) small in
      let here = verify_pixels_sound cap (u64 (r * width)) offset r width 0 x in
      let later = verify_rows_sound n (r + 1) y x in
      elim (ℕ_discrete r y) [
        | yes p ↦ ground (arith, e, here, p)
        | no ne ↦ ground (arith, later, ne)
      ]

  verify_rows_complete :
      (n r : ℕ)
      → r + n ≤ height
      → ((y x : ℕ) → y < height → x < width → cap (y * width + x) ≡ (x + y + offset) % 256)
      → verify_rows cap width offset r n ≡ true
  unfolding verify_rows
  verify_rows_complete zero r hr h = refl
  verify_rows_complete (suc n) r hr h =
      rw
        (
          row-fits64 r height width (omega arith) small,
          verify_pixels_complete cap (r * width) offset r width 0
              (λ k lo hi. h r k (omega arith) (omega arith)),
        )
        (verify_rows_complete n (r + 1) (omega arith) h)

-- The check of the runner accepts a frame if and only if every pixel is the gradient from its first.
pub verify_size_iff :
    (width height : ℕ) (cap : Bytes)
    → height * width < 2 ^ 32
    → verify_size width height cap ≡ true ↔ IsGradient width height cap
unfolding verify_size
verify_size_iff width height cap small = (
  (λ h y x hy hx.
      verify_rows_sound cap width height (cap 0) small height 0 y x (omega arith) h (omega arith)
        (omega arith) hx),
  (λ g. verify_rows_complete cap width height (cap 0) small height 0 (omega arith) g),
)

area_small : (h w : ℕ) → h < 2 ^ 15 → w < 2 ^ 15 → h * w < 2 ^ 32
area_small h w hh hw = omega (arith, rows h w hh)
  where
    rows : (h w : ℕ) → h < 2 ^ 15 → h * w ≤ 2 ^ 15 * w
    rows h w p = grind arith

abbrev pub gradient_job : ℕ → ℕ → ℕ → Bytes → JobDesc
gradient_job width height offset source = record {
  src = vcam_fill_gradient width height width offset source;
  width = width;
  height = height;
  src_stride = width;
  dst_stride = width;
}

module _ (width height offset threshold : ℕ) (source dst : Bytes) (hw : 0 < width)
    (w15 : width < 2 ^ 15) (hh : 0 < height) (h15 : height < 2 ^ 15) where
  gradient_job-fits : FrameFits (gradient_job width height offset source)
  gradient_job-fits = record {
    sizes = record { width_fits = omega arith; height_fits = omega arith };
    width_le_src = omega arith;
    width_le_dst = omega arith;
    src_fits = area_small height width h15 w15;
    dst_fits = area_small height width h15 w15;
  }

  copied-at :
      (y x : ℕ)
      → y < height
      → x < width
      → (cv_process (gradient_job width height offset source) algo_none threshold none dst).2
          (y * width + x)
        ≡ (x + y + offset) % 256
  copied-at y x hy hx =
      inside (dst (y * width + x)) (source (y * width + x)) hy hx
        (cv_process-others-at (gradient_job width height offset source) gradient_job-fits algo_none
          threshold none dst y x hx (λ e. omega (arith, e))).1
        (vcam_fill_gradient-at width height width offset source y x hw hh (omega arith)
          (area_small height width h15 w15) hx)
    where
      inside :
          {y h x w a b v : ℕ} (d e : ℕ)
          → y < h
          → x < w
          → a ≡ (if ltb y h && ltb x w then b else d)
          → b ≡ (if ltb y h && ltb x w then v else e)
          → a ≡ v
      inside d e hy hx p q = ground arith

  copied-IsGradient :
      IsGradient width height
        (cv_process (gradient_job width height offset source) algo_none threshold none dst).2
  copied-IsGradient y x hy hx = grind (arith, copied-at y x hy hx, copied-at 0 0 hh hw)

  -- A frame that the vcam-derived backend fills with its gradient and the m2m device copies, with no
  -- algorithm, passes the check of the runner, whatever the destination held and the offset is.
  pub verify_size-cv_process :
      let (status, result, out) =
        cv_process (gradient_job width height offset source) algo_none threshold none dst in
      (status ≡ done) × (verify_size width height out ≡ true)
  verify_size-cv_process =
      let at =
        cv_process-others-at (gradient_job width height offset source) gradient_job-fits algo_none
          threshold none dst 0 0 hw (λ e. omega (arith, e)) in
      let out =
        (cv_process (gradient_job width height offset source) algo_none threshold none dst).2 in
      (
        at.0,
        (verify_size_iff width height out (area_small height width h15 w15)).1 copied-IsGradient,
      )
