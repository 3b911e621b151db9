-- ===== src/Cv/Fill.antt =====
-- The loops of `vpipe_threshold_frame` over one row and over the rows.
use vpipe.Base.{
  ℕ, zero, suc, ◌+◌, ◌-◌, ◌^◌, ◌≤◌, ◌<◌, ◌≡◌, ◌&&◌, arith, ltb, leb, ◌==◌, if◌then◌else◌, for_range,
  Bytes,
}
use vpipe.Cv.{Scan, threshold_pixel, scan_pixel}

-- How many of the `n` bytes from `a` on exceed the threshold, and how many do not.
unfoldable pub count_above : Bytes → ℕ → ℕ → ℕ → ℕ
count_above src threshold a zero = 0
count_above src threshold a (suc n) =
    (if ltb threshold (src a) then 1 else 0) + count_above src threshold (a + 1) n

pub count_above-le : (src : Bytes) (th a n : ℕ) → count_above src th a n ≤ n
unfolding count_above
count_above-le src th a zero = omega arith
count_above-le src th a (suc n) = ground (arith, count_above-le src th (a + 1) n)

module _ (src : Bytes) (src_row dst_row threshold : ℕ) where
  scan_pixel-dst :
      (x q : ℕ) (s : Scan)
      → (scan_pixel src src_row dst_row threshold x s).dst q ≡ (
          if dst_row + x == q
          then threshold_pixel (src (src_row + (q - dst_row))) threshold
          else s.dst q)
  unfolding scan_pixel
  scan_pixel-dst x q s = ground arith

  scan_pixel-count :
      (x : ℕ) (s : Scan)
      → s.white + 1 < 2 ^ 64
      → s.black + 1 < 2 ^ 64
      → let s' = scan_pixel src src_row dst_row threshold x s in
        let bright : ℕ = if ltb threshold (src (src_row + x)) then 1 else 0 in
        (s'.white ≡ s.white + bright) × (s'.black ≡ s.black + (1 - bright))
  unfolding scan_pixel
  scan_pixel-count x s hw hb = ground arith

  -- What the loop leaves at the offset `q`.
  pub scan_pixels-dst :
      (n x q : ℕ) (s : Scan)
      → (for_range n x (scan_pixel src src_row dst_row threshold) s).dst q ≡ (
          if leb (dst_row + x) q && ltb q (dst_row + x + n)
          then threshold_pixel (src (src_row + (q - dst_row))) threshold
          else s.dst q)
  unfolding for_range
  scan_pixels-dst zero x q s = ground arith
  scan_pixels-dst (suc n) x q s =
      let s' = scan_pixel src src_row dst_row threshold x s in
      ground (arith, scan_pixels-dst n (x + 1) q s', scan_pixel-dst x q s)

  pub scan_pixels-count :
      (n x : ℕ) (s : Scan)
      → s.white + n < 2 ^ 64
      → s.black + n < 2 ^ 64
      → let s' = for_range n x (scan_pixel src src_row dst_row threshold) s in
        let bright = count_above src threshold (src_row + x) n in
        (s'.white ≡ s.white + bright) × (s'.black ≡ s.black + (n - bright))
  unfolding for_range count_above
  scan_pixels-count zero x s hw hb = omega arith
  scan_pixels-count (suc n) x s hw hb =
      let s' = scan_pixel src src_row dst_row threshold x s in
      ground (
        arith,
        scan_pixels-count n (x + 1) s',
        scan_pixel-count x s,
        count_above-le src threshold (src_row + x + 1) n,
      )
