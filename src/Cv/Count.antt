-- ===== src/Cv/Count.antt =====
-- The counters that `vpipe_threshold_frame` reports.
use vpipe.Base.{ℕ, zero, suc, ◌+◌, ◌-◌, ◌*◌, ◌^◌, ◌≤◌, ◌<◌, ◌≡◌, arith, u32, for_range, Bytes, ◌+ℤ◌}
use vpipe.Cv.{JobDesc, Scan, scan_row}
use vpipe.Cv.Clamp.{rect}
use vpipe.Cv.Fill.{count_above, count_above-le, scan_pixels-count}
use vpipe.Cv.Frame.{FrameFits}
use vpipe.Cv.Grid.{row-fits}

-- How many pixels of the `n` rows from `r` on exceed the threshold, within `w` columns from `l` on.
unfoldable pub count_rows : Bytes → ℕ → ℕ → ℕ → ℕ → ℕ → ℕ → ℕ
count_rows src stride threshold l w r zero = 0
count_rows src stride threshold l w r (suc n) =
    count_above src threshold (r * stride + l) w + count_rows src stride threshold l w (r + 1) n

pub count_rows-le : (src : Bytes) (stride th l w r n : ℕ) → count_rows src stride th l w r n ≤ n * w
unfolding count_rows
count_rows-le src stride th l w r zero = omega arith
count_rows-le src stride th l w r (suc n) =
    omega
      (arith, count_above-le src th (r * stride + l) w, count_rows-le src stride th l w (r + 1) n)

module _ (job : JobDesc) (fits : FrameFits job) (threshold l t w h : ℕ) where
  scan_row-count :
      (r : ℕ) (s : Scan)
      → r < job.height
      → s.white + w < 2 ^ 64
      → s.black + w < 2 ^ 64
      → let s' = scan_row job threshold (rect l t w h) r s in
        let bright = count_above job.src threshold (r * job.src_stride + l) w in
        (s'.white ≡ s.white + bright) × (s'.black ≡ s.black + (w - bright))
  unfolding scan_row ◌+ℤ◌
  scan_row-count r s hr hw hb = rw (row-fits r job.height job.src_stride hr fits.src_fits) (
      ground (
        arith,
        scan_pixels-count job.src (r * job.src_stride) (u32 (r * job.dst_stride)) threshold w l s,
      ))

  pub scan_rows-count :
      (n r : ℕ) (s : Scan)
      → r + n ≤ job.height
      → s.white + n * w < 2 ^ 64
      → s.black + n * w < 2 ^ 64
      → let s' = for_range n r (scan_row job threshold (rect l t w h)) s in
        let bright = count_rows job.src job.src_stride threshold l w r n in
        (s'.white ≡ s.white + bright) × (s'.black ≡ s.black + (n * w - bright))
  unfolding for_range count_rows
  scan_rows-count zero r s hr hw hb = omega arith
  scan_rows-count (suc n) r s hr hw hb =
      let s' = scan_row job threshold (rect l t w h) r s in
      ground (
        arith,
        scan_row-count r s,
        scan_rows-count n (r + 1) s',
        count_above-le job.src threshold (r * job.src_stride + l) w,
        count_rows-le job.src job.src_stride threshold l w (r + 1) n,
      )
