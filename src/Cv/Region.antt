-- ===== src/Cv/Region.antt =====
-- Which pixels the clamp of `vpipe_clamp_roi` selects.
use vpipe.Base.{
  ℕ, sym, subst, refl, ◌+◌, ◌-◌, ◌≤◌, ◌<◌, ◌≡◌, ◌↔◌, true, false, Option, none, some, arith, ℤ, pos,
  ◌+ℤ◌, ◌≤ℤ◌,
}
use vpipe.Cv.{Roi, JobDesc, is_empty_roi, clamp_roi}
use vpipe.Cv.Clamp.{
  start_of, end_of, start_of-le-end, rect, frame_rect, clamp_to_frame-closed, full_frame-closed,
  FitsS32,
}

-- The pixel (x, y) lies in the region.
abbrev pub Contains : Roi → ℕ → ℕ → Type 0
Contains roi x y =
    (roi.left ≤ℤ pos x)
    × (roi.top ≤ℤ pos y)
    × (pos (x + 1) ≤ℤ roi.left +ℤ roi.width)
    × (pos (y + 1) ≤ℤ roi.top +ℤ roi.height)

-- A region with a positive size that starts at or after the origin.
pub record IsProper (roi : Roi) : Type 0 where
  pub left_nonneg : pos 0 ≤ℤ roi.left
  pub top_nonneg : pos 0 ≤ℤ roi.top
  pub width_pos : pos 1 ≤ℤ roi.width
  pub height_pos : pos 1 ≤ℤ roi.height

inside_iff :
    (z size : ℤ) (n x : ℕ)
    → pos 0 ≤ℤ z
    → pos 1 ≤ℤ size
    → ((start_of z n ≤ x) × (x < end_of z size n))
      ↔ ((z ≤ℤ pos x) × (pos (x + 1) ≤ℤ z +ℤ size) × (x < n))
unfolding end_of start_of ◌+ℤ◌
inside_iff z size n x p q = ground arith

Contains-rect :
    (l t w h x y : ℕ)
    → Contains (rect l t w h) x y ↔ ((l ≤ x) × (t ≤ y) × (x < l + w) × (y < t + h))
unfolding ◌+ℤ◌
Contains-rect l t w h x y = ground arith

IsProper-not-empty : (roi : Roi) → IsProper roi → is_empty_roi roi ≡ false
IsProper-not-empty roi p = ground arith

pub clamp_roi-sized :
    (job : JobDesc) (roi : Roi)
    → FitsS32 job
    → is_empty_roi roi ≡ false
    → clamp_roi job (some roi) ≡ frame_rect job roi
unfolding clamp_roi
clamp_roi-sized job roi fits sized = rw sized (clamp_to_frame-closed job roi fits)

pub clamp_roi-unsized :
    (job : JobDesc) (roi : Option Roi)
    → FitsS32 job
    → ((r : Roi) → roi ≡ some r → is_empty_roi r ≡ true)
    → clamp_roi job roi ≡ rect 0 0 job.width job.height
unfolding clamp_roi
clamp_roi-unsized job none fits empty = full_frame-closed job fits
clamp_roi-unsized job (some r) fits empty = rw (empty r refl) (full_frame-closed job fits)

Contains-frame :
    (job : JobDesc) (x y : ℕ)
    → Contains (rect 0 0 job.width job.height) x y ↔ ((x < job.width) × (y < job.height))
Contains-frame job x y = ground (arith, Contains-rect 0 0 job.width job.height x y)

-- A region with a positive size that starts at or after the origin is clamped to its intersection
-- with the frame: a pixel lies in the clamped region exactly when it lies in the region asked for
-- and in the frame, if the sizes of the frame fit an s32.
pub clamp_roi-inter :
    (job : JobDesc) (roi : Roi)
    → FitsS32 job
    → IsProper roi
    → (x y : ℕ)
    → Contains (clamp_roi job (some roi)) x y
      ↔ (Contains roi x y × (x < job.width) × (y < job.height))
clamp_roi-inter job roi fits p x y =
    subst (λ r. Contains r x y ↔ (Contains roi x y × (x < job.width) × (y < job.height)))
      (sym (clamp_roi-sized job roi fits (IsProper-not-empty roi p)))
      (ground (
        arith,
        Contains-rect (start_of roi.left job.width) (start_of roi.top job.height)
            (end_of roi.left roi.width job.width - start_of roi.left job.width)
            (end_of roi.top roi.height job.height - start_of roi.top job.height) x y,
        start_of-le-end roi.left roi.width job.width,
        start_of-le-end roi.top roi.height job.height,
        inside_iff roi.left roi.width job.width x p.left_nonneg p.width_pos,
        inside_iff roi.top roi.height job.height y p.top_nonneg p.height_pos,
      ))

-- A missing region, or one whose width or height is not positive, selects every pixel of the frame
-- and no other, if the sizes of the frame fit an s32.
clamp_roi-full :
    (job : JobDesc) (roi : Option Roi)
    → FitsS32 job
    → ((r : Roi) → roi ≡ some r → is_empty_roi r ≡ true)
    → (x y : ℕ) → Contains (clamp_roi job roi) x y ↔ ((x < job.width) × (y < job.height))
clamp_roi-full job roi fits empty x y =
    subst (λ r. Contains r x y ↔ ((x < job.width) × (y < job.height)))
      (sym (clamp_roi-unsized job roi fits empty)) (Contains-frame job x y)
