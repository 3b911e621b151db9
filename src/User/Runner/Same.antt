-- ===== src/User/Runner/Same.antt =====
-- The gradient of the runner against that of the vcam-derived backend.
use vpipe.Base.{
  ℕ, zero, suc, ◌+◌, ◌*◌, ◌^◌, ◌≤◌, ◌<◌, ◌≡◌, refl, ap, ◌∙◌, arith, u8, u32, u64, Bytes, store,
  for_range,
}
use vpipe.Backend.{fill_pixel, fill_row, fill_gradient}
use vpipe.Backend.Vcam.{vcam_fill_gradient}
use vpipe.User.Runner.{runner_pixel, runner_row, runner_fill_size}

-- Two loops whose bodies agree on their rounds agree.
for_range-ext :
    (n i : ℕ) (f g : ℕ → Bytes → Bytes) (m : Bytes)
    → ((k : ℕ) (s : Bytes) → i ≤ k → k < i + n → f k s ≡ g k s)
    → for_range n i f m ≡ for_range n i g m
unfolding for_range
for_range-ext zero i f g m same = refl
for_range-ext (suc n) i f g m same =
    for_range-ext n (i + 1) f g (f i m) (λ k s lo hi. same k s (omega arith) (omega arith))
    ∙ ap (for_range n (i + 1) g) (same i m (omega arith) (omega arith))

row-same :
    (width offset y : ℕ) (m : Bytes)
    → y * width < 2 ^ 32
    → runner_row width width offset y m ≡ fill_row width width offset y m
unfolding runner_row runner_pixel fill_row fill_pixel
row-same width offset y m small =
    let wraps : u64 (y * width) ≡ u32 (y * width) = omega arith in
    for_range-ext width 0 (runner_pixel width offset y) (fill_pixel width offset y) m
      (λ k s lo hi. ap (λ r. store s (r + k) (u8 (u32 (k + y + offset)))) wraps)

-- The runner fills a frame with the very bytes that the vcam-derived backend fills it with, if its
-- offsets fit 32 bits, and neither writes elsewhere: the memory is the same.
runner_fill_size-vcam_fill_gradient :
    (width height offset : ℕ) (m : Bytes)
    → height * width < 2 ^ 32
    → runner_fill_size width height offset m ≡ vcam_fill_gradient width height width offset m
unfolding runner_fill_size vcam_fill_gradient fill_gradient
runner_fill_size-vcam_fill_gradient width height offset m small =
    ap (λ s. store s 0 (u8 offset))
      (for_range-ext height 0 (runner_row width width offset) (fill_row width width offset) m
        (λ k s lo hi. row-same width offset k s (omega (arith, below k height width hi))))
  where
    below : (y h w : ℕ) → y < 0 + h → y * w ≤ h * w
    below y h w p = grind arith
