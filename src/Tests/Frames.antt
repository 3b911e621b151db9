-- ===== src/Tests/Frames.antt =====
-- Tests of kmod/vpipe-cv.c on a frame of 2 by 2 pixels.
use vpipe.Base.{◌+◌, ◌<◌, ◌≡◌, ◌↔◌, none, some, arith, ◌==◌, if◌then◌else◌, Bytes, ℤ, pos, to_s32}
use vpipe.Uapi.{algo_threshold}
use vpipe.Cv.{Roi, JobDesc, clamp_roi, cv_process}
use vpipe.Cv.Clamp.{FitsS32}
use vpipe.Cv.Region.{Contains, clamp_roi-inter}
use vpipe.Cv.Count.{count_rows}
use vpipe.Cv.Fill.{count_above}
use vpipe.Cv.Frame.{FrameFits}
use vpipe.Cv.Process.{cv_process-threshold-count}

abbrev pub tiny_src : Bytes
tiny_src i = if i == 0 then 10 else if i == 1 then 200 else if i == 2 then 130 else 5

abbrev tiny : JobDesc
tiny = record { src = tiny_src; width = 2; height = 2; src_stride = 2; dst_stride = 2 }

abbrev pub roi : ℤ → ℤ → ℤ → ℤ → Roi
roi l t w h = record { left = l; top = t; width = w; height = h }

abbrev blank : Bytes
blank i = 7

tiny-FitsS32 : FitsS32 tiny
tiny-FitsS32 = record { width_fits = omega arith; height_fits = omega arith }

tiny-FrameFits : FrameFits tiny
tiny-FrameFits = record {
  sizes = tiny-FitsS32;
  width_le_src = omega arith;
  width_le_dst = omega arith;
  src_fits = omega arith;
  dst_fits = omega arith;
}

clamp_roi-inter_example :
    Contains (clamp_roi tiny (some (roi (pos 1) (pos 0) (pos 9) (pos 1)))) 1 0
    ↔ (Contains (roi (pos 1) (pos 0) (pos 9) (pos 1)) 1 0 × (1 < 2) × (0 < 2))
clamp_roi-inter_example =
    clamp_roi-inter tiny (roi (pos 1) (pos 0) (pos 9) (pos 1)) tiny-FitsS32
      (record {
        left_nonneg = omega arith;
        top_nonneg = omega arith;
        width_pos = omega arith;
        height_pos = omega arith;
      })
      1 0

cv_process-threshold-count_example :
    let r = (cv_process tiny algo_threshold 127 none blank).1 in
    (r.roi ≡ clamp_roi tiny none) × (r.algo_status ≡ 0) × (r.value0 ≡ 2) × (r.value0 + r.value1 ≡ 4)
unfolding clamp_roi count_rows cv_process to_s32 count_above
cv_process-threshold-count_example = cv_process-threshold-count tiny tiny-FrameFits 127 none blank
