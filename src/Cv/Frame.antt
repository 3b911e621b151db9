-- ===== src/Cv/Frame.antt =====
-- What `vpipe_copy_frame` and `vpipe_threshold_frame` leave at each pixel, and what they count.
use vpipe.Base.{
  ℕ, zero, suc, ◌+◌, ◌*◌, ◌^◌, ◌≤◌, ◌<◌, ◌≡◌, ◌&&◌, arith, ltb, leb, ◌==◌, if◌then◌else◌, for_range,
  Bytes, ◌+ℤ◌,
}
use vpipe.Cv.{JobDesc, Scan, threshold_pixel, copy_row, copy_frame, scan_row}
use vpipe.Cv.Clamp.{FitsS32, rect}
use vpipe.Cv.Fill.{scan_pixels-dst}
use vpipe.Cv.Grid.{row-fits, row_hit, memcpy-row}

-- The sizes of a frame fit an s32, a row fits its stride, and no offset wraps in 32 bits.
pub record FrameFits (job : JobDesc) : Type 0 where
  pub sizes : FitsS32 job
  pub width_le_src : job.width ≤ job.src_stride
  pub width_le_dst : job.width ≤ job.dst_stride
  pub src_fits : job.height * job.src_stride < 2 ^ 32
  pub dst_fits : job.height * job.dst_stride < 2 ^ 32

module _ (job : JobDesc) (fits : FrameFits job) (y x : ℕ) (hx : x < job.dst_stride) where
  copy_row-at :
      (r : ℕ) (m : Bytes)
      → r < job.height
      → copy_row job r m (y * job.dst_stride + x) ≡ (
          if y == r && ltb x job.width
          then job.src (y * job.src_stride + x)
          else m (y * job.dst_stride + x))
  unfolding copy_row
  copy_row-at r m h =
      rw
        (
          row-fits r job.height job.dst_stride h fits.dst_fits,
          row-fits r job.height job.src_stride h fits.src_fits,
        )
        (memcpy-row m job.src y x r job.width job.dst_stride job.src_stride hx fits.width_le_dst)

  copy_rows-at :
      (n r : ℕ) (m : Bytes)
      → r + n ≤ job.height
      → for_range n r (copy_row job) m (y * job.dst_stride + x) ≡ (
          if leb r y && ltb y (r + n) && ltb x job.width
          then job.src (y * job.src_stride + x)
          else m (y * job.dst_stride + x))
  unfolding for_range
  copy_rows-at zero r m h = ground arith
  copy_rows-at (suc n) r m h =
      ground (arith, copy_rows-at n (r + 1) (copy_row job r m), copy_row-at r m)

  -- `vpipe_copy_frame` writes the pixels of the source and nothing else.
  pub copy_frame-at :
      (m : Bytes)
      → copy_frame job m (y * job.dst_stride + x) ≡ (
          if ltb y job.height && ltb x job.width
          then job.src (y * job.src_stride + x)
          else m (y * job.dst_stride + x))
  unfolding copy_frame
  copy_frame-at m = ground (arith, copy_rows-at job.height 0 m)

  module _ (threshold l t w h : ℕ) (right : l + w ≤ job.width) (bottom : t + h ≤ job.height) where
    scan_row-at :
        (r : ℕ) (s : Scan)
        → r < job.height
        → (scan_row job threshold (rect l t w h) r s).dst (y * job.dst_stride + x) ≡ (
            if y == r && leb l x && ltb x (l + w)
            then threshold_pixel (job.src (y * job.src_stride + x)) threshold
            else s.dst (y * job.dst_stride + x))
    unfolding scan_row ◌+ℤ◌
    scan_row-at r s hr =
        rw
          (
            row-fits r job.height job.dst_stride hr fits.dst_fits,
            row-fits r job.height job.src_stride hr fits.src_fits,
          )
          (ground (
            arith,
            scan_pixels-dst job.src (r * job.src_stride) (r * job.dst_stride) threshold w l
                (y * job.dst_stride + x) s,
            row_hit y x r (l + w) job.dst_stride hx,
          ))

    pub scan_rows-at :
        (n r : ℕ) (s : Scan)
        → r + n ≤ job.height
        → (for_range n r (scan_row job threshold (rect l t w h)) s).dst (y * job.dst_stride + x) ≡ (
            if leb r y && ltb y (r + n) && leb l x && ltb x (l + w)
            then threshold_pixel (job.src (y * job.src_stride + x)) threshold
            else s.dst (y * job.dst_stride + x))
    unfolding for_range
    scan_rows-at zero r s hr = ground arith
    scan_rows-at (suc n) r s hr =
        ground (
          arith,
          scan_rows-at n (r + 1) (scan_row job threshold (rect l t w h) r s),
          scan_row-at r s,
        )
