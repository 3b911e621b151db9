-- ===== src/Cv/Grid.antt =====
-- Pixels of a frame by row and column: offsets of distinct pixels differ, and none of the offsets
-- that the code computes in 32 bits wraps.
use vpipe.Base.{
  ℕ, ◌+◌, ◌-◌, ◌*◌, ◌^◌, ◌≤◌, ◌<◌, ◌≡◌, ◌↔◌, ◌&&◌, arith, ltb, ◌==◌, u32, if◌then◌else◌, Bytes,
  memcpy,
}

pub row-fits : (y h stride : ℕ) → y < h → h * stride < 2 ^ 32 → u32 (y * stride) ≡ y * stride
row-fits y h stride p q = omega (arith, row-mono y h stride p)
  where
    row-mono : (y h stride : ℕ) → y < h → y * stride ≤ h * stride
    row-mono y h stride p = grind arith

row-before : (y r stride : ℕ) → y < r → y * stride + stride ≤ r * stride
row-before y r stride p = grind arith

-- An offset lies in row `r`, before column `n`, exactly when its pixel does.
pub row_hit :
    (y x r n stride : ℕ)
    → x < stride
    → n ≤ stride
    → ((r * stride ≤ y * stride + x) × (y * stride + x < r * stride + n)) ↔ ((y ≡ r) × (x < n))
row_hit y x r n stride hx hn =
    ground (arith, row-before y r stride, row-before r y stride, same y r)
  where
    same : (y r : ℕ) → y ≡ r → y * stride ≡ r * stride
    same y r e = grind arith

pub memcpy-row :
    (dst src : Bytes) (y x r n dst_stride src_stride : ℕ)
    → x < dst_stride
    → n ≤ dst_stride
    → memcpy dst (r * dst_stride) src (r * src_stride) n (y * dst_stride + x)
      ≡ (if y == r && ltb x n then src (y * src_stride + x) else dst (y * dst_stride + x))
memcpy-row dst src y x r n ds ss hx hn = ground (arith, row_hit y x r n ds, offset y r)
  where
    offset : (y r : ℕ) → y ≡ r → r * ss + (y * ds + x - r * ds) ≡ y * ss + x
    offset y r e = grind arith
