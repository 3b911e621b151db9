-- ===== src/Backend/Vcam/Gradient.antt =====
-- The pixels that `vcam_fill_gradient` leaves.
use vpipe.Base.{ℕ, ◌+◌, ◌*◌, ◌%◌, ◌^◌, ◌≤◌, ◌<◌, ◌≡◌, ◌&&◌, arith, ltb, if◌then◌else◌, Bytes}
use vpipe.Backend.Gradient.{fill_gradient-at}
use vpipe.Backend.Vcam.{vcam_fill_gradient}

offset-zero : (y x stride : ℕ) → x < stride → 0 ≡ y * stride + x → (y ≡ 0) × (x ≡ 0)
offset-zero y x stride hx e = (grind arith, omega arith)

-- The vcam-derived gradient gives the pixel (x, y) the low byte of x + y + offset and writes no other
-- byte, for a frame that is not empty, whose rows fit their stride and whose offsets fit 32 bits. So
-- the first pixel, which it writes once more, is the low byte of the offset.
pub vcam_fill_gradient-at :
    (width height stride offset : ℕ) (m : Bytes) (y x : ℕ)
    → 0 < width
    → 0 < height
    → width ≤ stride
    → height * stride < 2 ^ 32
    → x < stride
    → vcam_fill_gradient width height stride offset m (y * stride + x)
      ≡ (if ltb y height && ltb x width then (x + y + offset) % 256 else m (y * stride + x))
unfolding vcam_fill_gradient
vcam_fill_gradient-at width height stride offset m y x hw hh fits small hx = ground (
  arith,
  fill_gradient-at width height stride offset fits small y x hx m,
  offset-zero y x stride hx,
)
