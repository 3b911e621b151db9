-- ===== src/User/Runner.antt =====
-- user/vpipe-vcam-runner.c: the gradient that it fills and verifies, and below it the measured run.
pub mod Verify
pub mod Same
pub mod Run
pub mod Submit
pub mod Loop
pub mod Options
pub mod Times
use vpipe.Base.{
  ℕ, zero, suc, ◌+◌, ◌*◌, ◌%◌, ◌^◌, ◌&&◌, Bool, true, false, ◌==◌, u8, u32, u64, Bytes, store,
  for_range,
}

abbrev pub frame_width : ℕ
frame_width = 640

abbrev pub frame_height : ℕ
frame_height = 480

-- The body of the inner loop of `fill_gradient`: `row = dst + (size_t) y * STRIDE`.
unfoldable pub runner_pixel : ℕ → ℕ → ℕ → ℕ → Bytes → Bytes
runner_pixel stride offset y x m = store m (u64 (y * stride) + x) (u8 (u32 (x + y + offset)))

unfoldable pub runner_row : ℕ → ℕ → ℕ → ℕ → Bytes → Bytes
unfolding runner_pixel for_range
runner_row width stride offset y m = for_range width 0 (runner_pixel stride offset y) m

-- `fill_gradient` for a frame of any size.
unfoldable pub runner_fill_size : ℕ → ℕ → ℕ → Bytes → Bytes
unfolding runner_row for_range
runner_fill_size width height offset m =
    store (for_range height 0 (runner_row width width offset) m) 0 (u8 offset)

-- `fill_gradient`
unfoldable pub runner_fill_gradient : ℕ → Bytes → Bytes
unfolding runner_fill_size
runner_fill_gradient offset m = runner_fill_size frame_width frame_height offset m

-- The inner loop of `verify_gradient` over the `n` pixels of a row from `x` on; the code returns at the
-- first that differs.
unfoldable pub verify_pixels : Bytes → ℕ → ℕ → ℕ → ℕ → ℕ → Bool
verify_pixels cap row offset y x zero = true
verify_pixels cap row offset y x (suc n) =
    (cap (row + x) == u8 (u32 (x + y + offset))) && verify_pixels cap row offset y (x + 1) n

-- Its outer loop over the `n` rows from `y` on.
unfoldable pub verify_rows : Bytes → ℕ → ℕ → ℕ → ℕ → Bool
unfolding verify_pixels
verify_rows cap width offset y zero = true
verify_rows cap width offset y (suc n) =
    verify_pixels cap (u64 (y * width)) offset y 0 width && verify_rows cap width offset (y + 1) n

-- `verify_gradient` for a frame of any size: the offset is the first pixel.
unfoldable pub verify_size : ℕ → ℕ → Bytes → Bool
unfolding verify_rows
verify_size width height cap = verify_rows cap width (cap 0) 0 height

-- `verify_gradient`
unfoldable pub verify_gradient : Bytes → Bool
unfolding verify_size
verify_gradient cap = verify_size frame_width frame_height cap
