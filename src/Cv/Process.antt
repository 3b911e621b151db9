-- ===== src/Cv/Process.antt =====
-- `vpipe_cv_process`: what each algorithm leaves in the destination and in the result.
use vpipe.Base.{
  ℕ, ◌+◌, ◌-◌, ◌*◌, ◌^◌, ◌≤◌, ◌<◌, ◌≡◌, ◌≢◌, refl, sym, ap, subst, ◌&&◌, Bool, arith, ltb, leb,
  ◌==◌, if◌then◌else◌, for_range, Bytes, pos, pos_part, leb_ℤ, ◌+ℤ◌, Option, done, err, einval,
}
use vpipe.Uapi.{algo_none, algo_threshold}
use vpipe.Cv.{
  JobDesc, Roi, Scan, CvResult, clamp_roi, threshold_pixel, copy_frame, scan_row, scan_rows,
  threshold_frame, cv_process,
}
use vpipe.Cv.Clamp.{rect, clamp_roi-IsRect}
use vpipe.Cv.Count.{count_rows, count_rows-le, scan_rows-count}
use vpipe.Cv.Frame.{FrameFits, copy_frame-at, scan_rows-at}

-- Whether the pixel (x, y) lies in the region.
abbrev pub covers : Roi → ℕ → ℕ → Bool
covers roi x y =
    leb_ℤ roi.top (pos y)
    && leb_ℤ (pos (y + 1)) (roi.top +ℤ roi.height)
    && leb_ℤ roi.left (pos x)
    && leb_ℤ (pos (x + 1)) (roi.left +ℤ roi.width)

covers-rect :
    (l t w h x y : ℕ)
    → covers (rect l t w h) x y ≡ (leb t y && ltb y (t + h) && leb l x && ltb x (l + w))
unfolding ◌+ℤ◌
covers-rect l t w h x y = ground arith

rect_rounds : (t h : ℕ) → pos_part (pos t +ℤ pos h) - t ≡ h
unfolding ◌+ℤ◌
rect_rounds t h = ground arith

scan_rows-rect :
    (job : JobDesc) (th l t w h : ℕ) (s : Scan)
    → scan_rows job th (rect l t w h) s ≡ for_range h t (scan_row job th (rect l t w h)) s
unfolding scan_rows
scan_rows-rect job th l t w h s = rw (rect_rounds t h)

-- A pixel of a region that lies in the frame lies in the frame.
region_in_frame :
    (width height l t w h x y thresholded copied kept : ℕ)
    → l + w ≤ width
    → t + h ≤ height
    → (if leb t y && ltb y (t + h) && leb l x && ltb x (l + w)
        then thresholded
        else if ltb y height && ltb x width
        then copied
        else kept)
      ≡ (if ltb y height && ltb x width
          then if leb t y && ltb y (t + h) && leb l x && ltb x (l + w) then thresholded else copied
          else kept)
region_in_frame width height l t w h x y thresholded copied kept p q = ground arith

-- The result before an algorithm runs.
abbrev blank : Roi → CvResult
blank roi = record { algo_status = 0; value0 = 0; value1 = 0; roi = roi }

module _ (job : JobDesc) (fits : FrameFits job) where
  -- The memory that thresholding the rectangle leaves.
  threshold_rect-at :
      (th l t w h : ℕ) (result : CvResult) (dst : Bytes)
      → l + w ≤ job.width
      → t + h ≤ job.height
      → (y x : ℕ) → x < job.dst_stride
      → (threshold_frame job th (rect l t w h) result dst).1 (y * job.dst_stride + x) ≡ (
          if ltb y job.height && ltb x job.width
          then if covers (rect l t w h) x y
            then threshold_pixel (job.src (y * job.src_stride + x)) th
            else job.src (y * job.src_stride + x)
          else dst (y * job.dst_stride + x))
  unfolding threshold_frame
  threshold_rect-at th l t w h result dst right bottom y x hx =
      let s : Scan = record { dst = copy_frame job dst; white = 0; black = 0 } in
      rw
        (
          scan_rows-rect job th l t w h s,
          scan_rows-at job fits y x hx th l t w h right bottom h t s bottom,
          copy_frame-at job fits y x hx dst,
          covers-rect l t w h x y,
        )
        (region_in_frame job.width job.height l t w h x y _ _ _ right bottom)

  -- The counters of the thresholded rectangle.
  threshold_rect-count :
      (th l t w h : ℕ) (result : CvResult) (dst : Bytes)
      → l + w ≤ job.width
      → t + h ≤ job.height
      → h * w < 2 ^ 64
      → let r = (threshold_frame job th (rect l t w h) result dst).0 in
        let bright = count_rows job.src job.src_stride th l w t h in
        (r.value0 ≡ bright) × (r.value1 ≡ h * w - bright) × (bright ≤ h * w)
  unfolding threshold_frame
  threshold_rect-count th l t w h result dst right bottom small =
      let s : Scan = record { dst = copy_frame job dst; white = 0; black = 0 } in
      omega (
        arith,
        ap (λ (r : Scan). r.white) (scan_rows-rect job th l t w h s),
        ap (λ (r : Scan). r.black) (scan_rows-rect job th l t w h s),
        scan_rows-count job fits th l t w h h t s bottom (omega arith) (omega arith),
        count_rows-le job.src job.src_stride th l w t h,
      )

  -- The statement on the counters, of any region.
  abbrev Counts : ℕ → Bytes → Roi → Type 0
  Counts th dst region =
      let r = (threshold_frame job th region (blank region) dst).0 in
      let w = pos_part region.width in
      let h = pos_part region.height in
      let bright =
        count_rows job.src job.src_stride th (pos_part region.left) w (pos_part region.top) h in
      (r.value0 ≡ bright) × (r.value1 ≡ h * w - bright) × (bright ≤ h * w)

  rect-small : (w h : ℕ) → w ≤ job.width → h ≤ job.height → h * w < 2 ^ 64
  rect-small w h p q = omega (arith, area w h p q, fits.dst_fits, fits.width_le_dst)
    where
      area : (w h : ℕ) → w ≤ job.width → h ≤ job.height → h * w ≤ job.height * job.dst_stride
      area w h p q = grind (arith, fits.width_le_dst)

  pub cv_process-threshold-at :
      (th : ℕ) (roi : Option Roi) (dst : Bytes) (y x : ℕ)
      → x < job.dst_stride
      → let (status, result, dst') = cv_process job algo_threshold th roi dst in
        (status ≡ done)
        × (dst' (y * job.dst_stride + x) ≡ (
            if ltb y job.height && ltb x job.width
            then if covers (clamp_roi job roi) x y
              then threshold_pixel (job.src (y * job.src_stride + x)) th
              else job.src (y * job.src_stride + x)
            else dst (y * job.dst_stride + x)))
  unfolding cv_process
  cv_process-threshold-at th roi dst y x hx =
      let r = clamp_roi-IsRect job roi fits.sizes in
      (
        refl,
        subst
            (λ region.
              (threshold_frame job th region (blank region) dst).1 (y * job.dst_stride + x) ≡ (
                if ltb y job.height && ltb x job.width
                then if covers region x y
                  then threshold_pixel (job.src (y * job.src_stride + x)) th
                  else job.src (y * job.src_stride + x)
                else dst (y * job.dst_stride + x)))
            (sym r.is_rect)
            (threshold_rect-at th r.left r.top r.width r.height
              (blank (rect r.left r.top r.width r.height)) dst r.right_in r.bottom_in y x hx),
      )

  -- The threshold algorithm reports the clamped region, a status of 0, the number of its pixels that
  -- exceed the threshold, and the number of the others, if the frame fits.
  pub cv_process-threshold-count :
      (th : ℕ) (roi : Option Roi) (dst : Bytes)
      → let r = (cv_process job algo_threshold th roi dst).1 in
        let w = pos_part r.roi.width in
        let h = pos_part r.roi.height in
        (r.roi ≡ clamp_roi job roi)
        × (r.algo_status ≡ 0)
        × (r.value0
            ≡ count_rows job.src job.src_stride th (pos_part r.roi.left) w (pos_part r.roi.top) h)
        × (r.value0 + r.value1 ≡ h * w)
  unfolding cv_process threshold_frame
  cv_process-threshold-count th roi dst =
      let r = clamp_roi-IsRect job roi fits.sizes in
      let counts =
        subst (λ region. Counts th dst region) (sym r.is_rect)
          (threshold_rect-count th r.left r.top r.width r.height
            (blank (rect r.left r.top r.width r.height)) dst r.right_in r.bottom_in
            (rect-small r.width r.height (omega (arith, r.right_in))
              (omega (arith, r.bottom_in)))) in
      (refl, refl, counts.0, omega (arith, counts))

  -- With no algorithm the frame is copied and no byte outside it is written, and with an algorithm
  -- that is not implemented the call fails and writes nothing, if the frame fits.
  pub cv_process-others-at :
      (algo th : ℕ) (roi : Option Roi) (dst : Bytes) (y x : ℕ)
      → x < job.dst_stride
      → algo ≢ algo_threshold
      → let (status, result, dst') = cv_process job algo th roi dst in
        (status ≡ (if algo == algo_none then done else err einval))
        × (dst' (y * job.dst_stride + x) ≡ (
            if algo == algo_none && (ltb y job.height && ltb x job.width)
            then job.src (y * job.src_stride + x)
            else dst (y * job.dst_stride + x)))
        × (result.value0 ≡ 0)
        × (result.value1 ≡ 0)
  unfolding cv_process
  cv_process-others-at algo th roi dst y x hx ne = ground (arith, copy_frame-at job fits y x hx dst)
