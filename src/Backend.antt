-- ===== src/Backend.antt =====
-- What the frame backends of kmod/ share: the frame descriptor of kmod/vpipe-source.h, and the gradient
-- that the synthetic and the vcam-derived backends fill a frame with.
pub mod Gradient
pub mod Synthetic
pub mod Vcam
use vpipe.Base.{ℕ, ◌+◌, ◌*◌, ◌%◌, ◌^◌, ◌||◌, ◌==◌, Bool, u8, u32, for_range, Bytes, store, Result}

-- `enum vpipe_backend_id`
abbrev pub backend_none : ℕ
backend_none = 0

abbrev pub backend_fixture : ℕ
backend_fixture = 1

abbrev pub backend_synthetic : ℕ
backend_synthetic = 2

abbrev pub backend_vcam_derived : ℕ
backend_vcam_derived = 3

abbrev pub backend_max : ℕ
backend_max = 4

-- The bit of VPIPE_FRAME_FLAG_DROPPED.
abbrev pub frame_flag_dropped : ℕ
frame_flag_dropped = 0

pub record FrameDesc : Type 0 where
  pub source_timestamp_ns : ℕ
  pub sequence : ℕ
  pub backend_id : ℕ
  pub byteused : ℕ
  pub flags : ℕ
  pub width : ℕ
  pub height : ℕ
  pub stride : ℕ

-- The body of the inner loop: `row[x] = (u8) ((x + y + offset) & 0xFF)` with `row = dst + y * stride`.
unfoldable pub fill_pixel : ℕ → ℕ → ℕ → ℕ → Bytes → Bytes
fill_pixel stride offset y x m = store m (u32 (y * stride) + x) (u8 (u32 (x + y + offset)))

unfoldable pub fill_row : ℕ → ℕ → ℕ → ℕ → Bytes → Bytes
unfolding fill_pixel for_range
fill_row width stride offset y m = for_range width 0 (fill_pixel stride offset y) m

-- `synthetic_fill_gradient`, and `vcam_fill_gradient` but for its last line.
unfoldable pub fill_gradient : ℕ → ℕ → ℕ → ℕ → Bytes → Bytes
unfolding fill_row for_range
fill_gradient width height stride offset m = for_range height 0 (fill_row width stride offset) m

-- What a call leaves in the private state, the plane of the buffer and the descriptor.
pub record Frame (P M : Type 0) : Type 0 where
  pub status : Result (Unit {0})
  pub priv : P
  pub plane : M
  pub desc : FrameDesc

-- The geometry hints of a descriptor are not all there.
abbrev pub bad_geometry : FrameDesc → Bool
bad_geometry desc = desc.width == 0 || desc.height == 0 || desc.stride == 0
