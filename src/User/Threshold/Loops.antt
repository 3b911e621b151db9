-- ===== src/User/Threshold/Loops.antt =====
-- What the loops of the reference leave at each pixel.
use vpipe.Base.{
  ℕ, zero, suc, ◌+◌, ◌-◌, ◌*◌, ◌^◌, ◌≤◌, ◌<◌, ◌≡◌, ◌&&◌, arith, ltb, leb, ◌==◌, u64, if◌then◌else◌,
  for_range, Bytes,
}
use vpipe.Cv.{threshold_pixel}
use vpipe.Cv.Grid.{row_hit}
use vpipe.User.Image.{PgmImage}
use vpipe.User.Threshold.Clip.{EdgesFit}
use vpipe.User.Threshold.{Edges, ref_pixel, ref_row, ref_rows}

pub offset-lt : (y x w h : ℕ) → x < w → y < h → y * w + x < h * w
offset-lt y x w h p q = grind arith

module _ (src : PgmImage) (threshold : ℕ) (small : src.height * src.width < 2 ^ 32) (y x : ℕ)
    (hx : x < src.width) where
  ref_pixel-at :
      (r c : ℕ) (m : Bytes)
      → r < src.height
      → c < src.width
      → ref_pixel src threshold r c m (y * src.width + x) ≡ (
          if y == r && x == c
          then threshold_pixel (src.pixels (y * src.width + x)) threshold
          else m (y * src.width + x))
  unfolding ref_pixel
  ref_pixel-at r c m hr hc =
      let idx : u64 (u64 (r * src.width) + c) ≡ r * src.width + c =
        omega (arith, offset-lt r c src.width src.height hc hr) in
      rw idx (ground (arith, row_hit y x r (c + 1) src.width hx, row_hit y x r c src.width hx))

  ref_pixels-at :
      (n c r : ℕ) (m : Bytes)
      → r < src.height
      → c + n ≤ src.width
      → for_range n c (ref_pixel src threshold r) m (y * src.width + x) ≡ (
          if y == r && leb c x && ltb x (c + n)
          then threshold_pixel (src.pixels (y * src.width + x)) threshold
          else m (y * src.width + x))
  unfolding for_range
  ref_pixels-at zero c r m hr hc = ground arith
  ref_pixels-at (suc n) c r m hr hc =
      ground (arith, ref_pixels-at n (c + 1) r (ref_pixel src threshold r c m), ref_pixel-at r c m)

  module _ (e : Edges) (fit : EdgesFit src.width src.height e) where
    ref_row-at :
        (r : ℕ) (m : Bytes)
        → r < src.height
        → ref_row src threshold e r m (y * src.width + x) ≡ (
            if y == r && leb e.left x && ltb x e.right
            then threshold_pixel (src.pixels (y * src.width + x)) threshold
            else m (y * src.width + x))
    unfolding ref_row
    ref_row-at r m hr = ground (arith, ref_pixels-at (e.right - e.left) e.left r m hr)

    row_rounds-at :
        (n r : ℕ) (m : Bytes)
        → r + n ≤ src.height
        → for_range n r (ref_row src threshold e) m (y * src.width + x) ≡ (
            if leb r y && ltb y (r + n) && leb e.left x && ltb x e.right
            then threshold_pixel (src.pixels (y * src.width + x)) threshold
            else m (y * src.width + x))
    unfolding for_range
    row_rounds-at zero r m hr = ground arith
    row_rounds-at (suc n) r m hr =
        ground (arith, row_rounds-at n (r + 1) (ref_row src threshold e r m), ref_row-at r m)

    -- The reference thresholds the pixels between the edges and no others.
    pub ref_rows-at :
        (m : Bytes)
        → ref_rows src threshold e m (y * src.width + x) ≡ (
            if leb e.top y && ltb y e.bottom && leb e.left x && ltb x e.right
            then threshold_pixel (src.pixels (y * src.width + x)) threshold
            else m (y * src.width + x))
    unfolding ref_rows
    ref_rows-at m = ground (arith, row_rounds-at (e.bottom - e.top) e.top m)
