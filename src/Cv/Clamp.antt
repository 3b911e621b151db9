-- ===== src/Cv/Clamp.antt =====
-- `vpipe_clamp_roi` of kmod/vpipe-cv.c.
use vpipe.Base.{
  ℕ, min, sym, subst, inl, inr, negsuc, ◌+◌, ◌-◌, ◌^◌, ◌≤◌, ◌<◌, ◌≡◌, Option, none, some, arith, ℤ,
  pos, pos_part, ◌+ℤ◌, ◌-ℤ◌, ◌≤ℤ◌, clamp_ℤ, to_s32, Bool-cases,
}
use vpipe.Cv.{Roi, JobDesc, full_frame, is_empty_roi, clamp_to_frame, clamp_roi}

-- The sizes of a frame fit an s32.
pub record FitsS32 (job : JobDesc) : Type 0 where
  pub width_fits : job.width < 2 ^ 31
  pub height_fits : job.height < 2 ^ 31

-- The region lies in the frame, and none of its fields is negative.
record InFrame (job : JobDesc) (roi : Roi) : Type 0 where
  pub left_nonneg : pos 0 ≤ℤ roi.left
  pub top_nonneg : pos 0 ≤ℤ roi.top
  pub width_nonneg : pos 0 ≤ℤ roi.width
  pub height_nonneg : pos 0 ≤ℤ roi.height
  pub right_in : roi.left +ℤ roi.width ≤ℤ pos job.width
  pub bottom_in : roi.top +ℤ roi.height ≤ℤ pos job.height

-- One dimension of the clamp, over the natural numbers.
unfoldable pub start_of : ℤ → ℕ → ℕ
start_of z n = min (pos_part z) n

unfoldable pub end_of : ℤ → ℤ → ℕ → ℕ
unfolding start_of
end_of z size n = min (start_of z n + pos_part size) n

clamp-start : (z : ℤ) (n : ℕ) → clamp_ℤ z (pos 0) (pos n) ≡ pos (start_of z n)
unfolding start_of clamp_ℤ
clamp-start (pos k) n = ground arith
clamp-start (negsuc k) n = ground arith

clamp-end :
    (size : ℤ) (a n : ℕ)
    → a ≤ n
    → clamp_ℤ (pos a +ℤ size) (pos a) (pos n) ≡ pos (min (a + pos_part size) n)
unfolding clamp_ℤ ◌+ℤ◌
clamp-end (pos k) a n h = ground arith
clamp-end (negsuc k) a n h = ground arith

sub-pos : (a b : ℕ) → a ≤ b → pos b -ℤ pos a ≡ pos (b - a)
unfolding ◌-ℤ◌
sub-pos a b h = ground arith

to_s32-eq-pos : (n : ℕ) → n < 2 ^ 31 → to_s32 n ≡ pos n
unfolding to_s32
to_s32-eq-pos n h = ground arith

start_of-le : (z : ℤ) (n : ℕ) → start_of z n ≤ n
unfolding start_of
start_of-le z n = omega arith

pub start_of-le-end : (z size : ℤ) (n : ℕ) → start_of z n ≤ end_of z size n
unfolding end_of
start_of-le-end z size n = omega arith

side :
    (start size : ℤ) (n : ℕ)
    → n < 2 ^ 31
    → let lo = clamp_ℤ start (pos 0) (to_s32 n) in
      (lo ≡ pos (start_of start n))
      × (clamp_ℤ (lo +ℤ size) lo (to_s32 n) -ℤ lo ≡ pos (end_of start size n - start_of start n))
unfolding end_of
side start size n h = (
  rw (to_s32-eq-pos n h, clamp-start),
  rw (to_s32-eq-pos n h, clamp-start, clamp-end size (start_of start n) n (start_of-le start n))
      (sub-pos _ _ (start_of-le-end start size n)),
)

abbrev pub rect : ℕ → ℕ → ℕ → ℕ → Roi
rect left top width height = record {
  left = pos left;
  top = pos top;
  width = pos width;
  height = pos height;
}

abbrev pub frame_rect : JobDesc → Roi → Roi
frame_rect job roi =
    rect (start_of roi.left job.width) (start_of roi.top job.height)
      (end_of roi.left roi.width job.width - start_of roi.left job.width)
      (end_of roi.top roi.height job.height - start_of roi.top job.height)

pub clamp_to_frame-closed :
    (job : JobDesc) (roi : Roi) → FitsS32 job → clamp_to_frame job roi ≡ frame_rect job roi
unfolding clamp_to_frame
clamp_to_frame-closed job roi fits =
    let h = side roi.left roi.width job.width fits.width_fits in
    let v = side roi.top roi.height job.height fits.height_fits in
    λ i. record { left = h.0 i; top = v.0 i; width = h.1 i; height = v.1 i }

pub full_frame-closed :
    (job : JobDesc) → FitsS32 job → full_frame job ≡ rect 0 0 job.width job.height
full_frame-closed job fits =
    rw (to_s32-eq-pos job.width fits.width_fits, to_s32-eq-pos job.height fits.height_fits)

-- The clamped region as four natural numbers.
pub record IsRect (job : JobDesc) (roi : Roi) : Type 0 where
  pub left : ℕ
  pub top : ℕ
  pub width : ℕ
  pub height : ℕ
  pub is_rect : roi ≡ rect left top width height
  pub right_in : left + width ≤ job.width
  pub bottom_in : top + height ≤ job.height

full_frame-IsRect : (job : JobDesc) → FitsS32 job → IsRect job (full_frame job)
full_frame-IsRect job fits = record {
  left = 0;
  top = 0;
  width = job.width;
  height = job.height;
  is_rect = full_frame-closed job fits;
  right_in = omega arith;
  bottom_in = omega arith;
}

pub end_of-le : (z size : ℤ) (n : ℕ) → end_of z size n ≤ n
unfolding end_of
end_of-le z size n = omega arith

clamp_to_frame-IsRect :
    (job : JobDesc) (roi : Roi) → FitsS32 job → IsRect job (clamp_to_frame job roi)
clamp_to_frame-IsRect job roi fits = record {
  left = start_of roi.left job.width;
  top = start_of roi.top job.height;
  width = end_of roi.left roi.width job.width - start_of roi.left job.width;
  height = end_of roi.top roi.height job.height - start_of roi.top job.height;
  is_rect = clamp_to_frame-closed job roi fits;
  right_in =
      omega (
        arith,
        start_of-le-end roi.left roi.width job.width,
        end_of-le roi.left roi.width job.width,
      );
  bottom_in = omega (
    arith,
    start_of-le-end roi.top roi.height job.height,
    end_of-le roi.top roi.height job.height,
  );
}

pub clamp_roi-IsRect :
    (job : JobDesc) (roi : Option Roi) → FitsS32 job → IsRect job (clamp_roi job roi)
unfolding clamp_roi
clamp_roi-IsRect job none fits = full_frame-IsRect job fits
clamp_roi-IsRect job (some roi) fits = elim (Bool-cases (is_empty_roi roi)) [
  | inl empty ↦ rw empty (full_frame-IsRect job fits)
  | inr sized ↦ rw sized (clamp_to_frame-IsRect job roi fits)
]

IsRect-InFrame :
    (job : JobDesc) (l t w h : ℕ)
    → l + w ≤ job.width
    → t + h ≤ job.height
    → InFrame job (rect l t w h)
unfolding ◌+ℤ◌
IsRect-InFrame job l t w h p q = ground arith

-- Whatever region is asked for, missing and negative ones included, the clamped region lies in the
-- frame and has no negative field, if the sizes of the frame fit an s32.
clamp_roi-InFrame :
    (job : JobDesc) (roi : Option Roi) → FitsS32 job → InFrame job (clamp_roi job roi)
clamp_roi-InFrame job roi fits =
    let r = clamp_roi-IsRect job roi fits in
    subst (InFrame job) (sym r.is_rect)
      (IsRect-InFrame job r.left r.top r.width r.height r.right_in r.bottom_in)
