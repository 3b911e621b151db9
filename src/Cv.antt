-- ===== src/Cv.antt =====
-- kmod/vpipe-cv.c: the bounded Tiny CV, which thresholds the pixels of a clamped region of a GREY
-- frame and copies the others. Source and destination are two buffers that do not overlap.
pub mod Clamp
pub mod Region
pub mod Fill
pub mod Grid
pub mod Frame
pub mod Count
pub mod Process
use vpipe.Base.{
  ℕ, zero, ◌+◌, ◌-◌, ◌*◌, ◌%◌, ◌^◌, ◌||◌, Bool, true, false, Option, none, some, ℤ, pos, pos_part,
  ◌+ℤ◌, ◌-ℤ◌, leb_ℤ, clamp_ℤ, to_s32, u32, u64, ltb, leb, ◌==◌, if◌then◌else◌, for_range, Bytes,
  memcpy, store, Result, done, err, einval,
}
use vpipe.Uapi.{algo_none, algo_threshold}

pub record Roi : Type 0 where
  pub left : ℤ
  pub top : ℤ
  pub width : ℤ
  pub height : ℤ

-- `dst` is threaded through the functions below, since they write it.
pub record JobDesc : Type 0 where
  pub src : Bytes
  pub width : ℕ
  pub height : ℕ
  pub src_stride : ℕ
  pub dst_stride : ℕ

pub record CvResult : Type 0 where
  pub algo_status : ℕ
  pub value0 : ℕ
  pub value1 : ℕ
  pub roi : Roi

-- The whole frame, which stands in for a region that is missing or empty.
abbrev pub full_frame : JobDesc → Roi
full_frame job = record {
  left = pos 0;
  top = pos 0;
  width = to_s32 job.width;
  height = to_s32 job.height;
}

-- The branch of `vpipe_clamp_roi` for a region with a positive size.
unfoldable pub clamp_to_frame : JobDesc → Roi → Roi
clamp_to_frame job roi =
    let left = clamp_ℤ roi.left (pos 0) (to_s32 job.width) in
    let top = clamp_ℤ roi.top (pos 0) (to_s32 job.height) in
    let right = clamp_ℤ (left +ℤ roi.width) left (to_s32 job.width) in
    let bottom = clamp_ℤ (top +ℤ roi.height) top (to_s32 job.height) in
    record { left = left; top = top; width = right -ℤ left; height = bottom -ℤ top }

abbrev pub is_empty_roi : Roi → Bool
is_empty_roi roi = leb_ℤ roi.width (pos 0) || leb_ℤ roi.height (pos 0)

-- `none` is the null pointer.
unfoldable pub clamp_roi : JobDesc → Option Roi → Roi
unfolding clamp_to_frame
clamp_roi job none = full_frame job
clamp_roi job (some roi) = if is_empty_roi roi then full_frame job else clamp_to_frame job roi

-- The body of the loop of `vpipe_copy_frame`.
unfoldable pub copy_row : JobDesc → ℕ → Bytes → Bytes
copy_row job row m =
    memcpy m (u32 (row * job.dst_stride)) job.src (u32 (row * job.src_stride)) job.width

unfoldable pub copy_frame : JobDesc → Bytes → Bytes
unfolding copy_row for_range
copy_frame job dst = for_range job.height 0 (copy_row job) dst

-- What the loops of `vpipe_threshold_frame` write: the frame and the two counters.
pub record Scan : Type 0 where
  pub dst : Bytes
  pub white : ℕ
  pub black : ℕ

abbrev pub threshold_pixel : ℕ → ℕ → ℕ
threshold_pixel pixel threshold = if ltb threshold pixel then 255 else 0

-- The body of the inner loop.
unfoldable pub scan_pixel : Bytes → ℕ → ℕ → ℕ → ℕ → Scan → Scan
scan_pixel src src_row dst_row threshold x s =
    let pixel = threshold_pixel (src (src_row + x)) threshold in
    if pixel == 0
    then record {
      dst = store s.dst (dst_row + x) pixel;
      white = s.white;
      black = u64 (s.black + 1);
    }
    else record {
      dst = store s.dst (dst_row + x) pixel;
      white = u64 (s.white + 1);
      black = s.black;
    }

-- The body of the outer loop. The region comes from `clamp_roi`, so its fields are not negative.
unfoldable pub scan_row : JobDesc → ℕ → Roi → ℕ → Scan → Scan
unfolding scan_pixel for_range
scan_row job threshold roi y s =
    for_range (pos_part (roi.left +ℤ roi.width) - pos_part roi.left) (pos_part roi.left)
      (scan_pixel job.src (u32 (y * job.src_stride)) (u32 (y * job.dst_stride)) threshold) s

unfoldable pub scan_rows : JobDesc → ℕ → Roi → Scan → Scan
unfolding scan_row for_range
scan_rows job threshold roi s =
    for_range (pos_part (roi.top +ℤ roi.height) - pos_part roi.top) (pos_part roi.top)
      (scan_row job threshold roi) s

unfoldable pub threshold_frame : JobDesc → ℕ → Roi → CvResult → Bytes → CvResult × Bytes
unfolding copy_frame scan_rows
threshold_frame job threshold roi result dst =
    let s =
      scan_rows job threshold roi (record { dst = copy_frame job dst; white = 0; black = 0 }) in
    (record result { algo_status = 0; value0 = s.white; value1 = s.black }, s.dst)

-- The result and the destination are given beside the status, as the code writes both before it
-- looks at the algorithm.
unfoldable pub cv_process :
    JobDesc → ℕ → ℕ → Option Roi → Bytes → Result (Unit {0}) × CvResult × Bytes
unfolding clamp_roi copy_frame threshold_frame
cv_process job algo_id threshold roi dst =
    let clamped = clamp_roi job roi in
    let result : CvResult = record { algo_status = 0; value0 = 0; value1 = 0; roi = clamped } in
    let (r, m) = threshold_frame job threshold clamped result dst in
    if algo_id == algo_none
    then (done, result, copy_frame job dst)
    else if algo_id == algo_threshold
    then (done, r, m)
    else (err einval, result, dst)
