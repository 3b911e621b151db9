-- ===== src/Backend/Gradient.antt =====
-- The pixels of the gradient.
use vpipe.Base.{
  ℕ, zero, suc, ◌+◌, ◌*◌, ◌%◌, ◌^◌, ◌≤◌, ◌<◌, ◌≡◌, ◌&&◌, arith, ltb, leb, ◌==◌, if◌then◌else◌,
  for_range, Bytes,
}
use vpipe.Cv.Grid.{row-fits, row_hit}
use vpipe.Backend.{fill_pixel, fill_row, fill_gradient}

module _ (width height stride offset : ℕ) (fits : width ≤ stride) (small : height * stride < 2 ^ 32)
    (y x : ℕ) (hx : x < stride) where
  fill_pixel-at :
      (r c : ℕ) (m : Bytes)
      → r < height
      → c < width
      → fill_pixel stride offset r c m (y * stride + x)
        ≡ (if y == r && x == c then (x + y + offset) % 256 else m (y * stride + x))
  unfolding fill_pixel
  fill_pixel-at r c m hr hc =
      rw (row-fits r height stride hr small)
        (ground (arith, row_hit y x r (c + 1) stride hx, row_hit y x r c stride hx))

  fill_pixels-at :
      (n c r : ℕ) (m : Bytes)
      → r < height
      → c + n ≤ width
      → for_range n c (fill_pixel stride offset r) m (y * stride + x) ≡ (
          if y == r && leb c x && ltb x (c + n) then (x + y + offset) % 256 else m (y * stride + x))
  unfolding for_range
  fill_pixels-at zero c r m hr hc = ground arith
  fill_pixels-at (suc n) c r m hr hc =
      ground
        (arith, fill_pixels-at n (c + 1) r (fill_pixel stride offset r c m), fill_pixel-at r c m)

  fill_row-at :
      (r : ℕ) (m : Bytes)
      → r < height
      → fill_row width stride offset r m (y * stride + x)
        ≡ (if y == r && ltb x width then (x + y + offset) % 256 else m (y * stride + x))
  unfolding fill_row
  fill_row-at r m hr = ground (arith, fill_pixels-at width 0 r m)

  fill_rows-at :
      (n r : ℕ) (m : Bytes)
      → r + n ≤ height
      → for_range n r (fill_row width stride offset) m (y * stride + x) ≡ (
          if leb r y && ltb y (r + n) && ltb x width
          then (x + y + offset) % 256
          else m (y * stride + x))
  unfolding for_range
  fill_rows-at zero r m hr = ground arith
  fill_rows-at (suc n) r m hr =
      ground (arith, fill_rows-at n (r + 1) (fill_row width stride offset r m), fill_row-at r m)

  -- The gradient writes the pixels of the frame and nothing else.
  pub fill_gradient-at :
      (m : Bytes)
      → fill_gradient width height stride offset m (y * stride + x)
        ≡ (if ltb y height && ltb x width then (x + y + offset) % 256 else m (y * stride + x))
  unfolding fill_gradient
  fill_gradient-at m = ground (arith, fill_rows-at height 0 m)
