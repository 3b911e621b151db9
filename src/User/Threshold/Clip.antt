-- ===== src/User/Threshold/Clip.antt =====
-- The edges of the reference against the clamped region of the kernel.
use vpipe.Base.{
  ℕ, ◌-◌, ◌^◌, ◌≤◌, ◌<◌, ◌≡◌, ◌∙◌, ◌||◌, Bool, true, false, arith, ℤ, pos, negsuc, pos_part, leb_ℤ,
  some, inl, inr, Bool-cases,
}
use vpipe.Cv.{Roi, JobDesc, is_empty_roi, clamp_roi}
use vpipe.Cv.Clamp.{FitsS32, rect, start_of, end_of, end_of-le, start_of-le-end}
use vpipe.Cv.Region.{clamp_roi-sized, clamp_roi-unsized}
use vpipe.User.Threshold.{Edges, start_edge, end_edge, edges}

-- The fields of a region are ints.
pub record IsInt32 (roi : Roi) : Type 0 where
  pub left_fits : pos_part roi.left < 2 ^ 31
  pub top_fits : pos_part roi.top < 2 ^ 31
  pub width_fits : pos_part roi.width < 2 ^ 31
  pub height_fits : pos_part roi.height < 2 ^ 31

start_edge-eq : (z : ℤ) (n : ℕ) → pos_part z < 2 ^ 31 → start_edge z n ≡ start_of z n
unfolding start_edge start_of
start_edge-eq (pos k) n h = ground arith
start_edge-eq (negsuc k) n h = ground arith

end_edge-eq :
    (z size : ℤ) (n : ℕ)
    → n < 2 ^ 31
    → leb_ℤ size (pos 0) ≡ false
    → pos_part size < 2 ^ 31
    → end_edge (start_of z n) size n ≡ end_of z size n
unfolding end_edge end_of start_of
end_edge-eq z (pos k) n h p q = ground arith
end_edge-eq z (negsuc k) n h p q = ground arith

-- The rectangle between the edges.
abbrev pub edges_rect : Edges → Roi
edges_rect e = rect e.left e.top (e.right - e.left) (e.bottom - e.top)

-- The edges of a region with a positive size.
edges-sized :
    (width height : ℕ) (roi : Roi)
    → width < 2 ^ 31
    → height < 2 ^ 31
    → IsInt32 roi
    → leb_ℤ roi.width (pos 0) ≡ false
    → leb_ℤ roi.height (pos 0) ≡ false
    → edges width height roi.left roi.top roi.width roi.height ≡ record {
      left = start_of roi.left width;
      top = start_of roi.top height;
      right = end_of roi.left roi.width width;
      bottom = end_of roi.top roi.height height;
    }
unfolding edges
edges-sized width height roi hw hh ints w_pos h_pos = rw (
  w_pos,
  h_pos,
  start_edge-eq roi.left width ints.left_fits,
  start_edge-eq roi.top height ints.top_fits,
  end_edge-eq roi.left roi.width width hw w_pos ints.width_fits,
  end_edge-eq roi.top roi.height height hh h_pos ints.height_fits,
)

edges-unsized :
    (width height : ℕ) (roi : Roi)
    → is_empty_roi roi ≡ true
    → edges width height roi.left roi.top roi.width roi.height
      ≡ record { left = 0; top = 0; right = width; bottom = height }
unfolding edges
edges-unsized width height roi empty = rw empty

or-false : (a b : Bool) → (a || b) ≡ false → (a ≡ false) × (b ≡ false)
or-false a b h = ground arith

-- The kernel's clamped region is the rectangle between the edges of the reference.
pub clamp_roi-edges :
    (job : JobDesc) (roi : Roi)
    → FitsS32 job
    → IsInt32 roi
    → clamp_roi job (some roi)
      ≡ edges_rect (edges job.width job.height roi.left roi.top roi.width roi.height)
clamp_roi-edges job roi fits ints = elim (Bool-cases (is_empty_roi roi)) [
  | inl empty ↦
      rw (edges-unsized job.width job.height roi empty)
        (clamp_roi-unsized job (some roi) fits (λ r e. cc) ∙ ground arith)
  | inr sized ↦
      let (w_pos, h_pos) = or-false _ _ sized in
      rw (edges-sized job.width job.height roi fits.width_fits fits.height_fits ints w_pos h_pos)
        (clamp_roi-sized job roi fits sized)
]

-- The edges are in order and lie in the frame.
pub record EdgesFit (width height : ℕ) (e : Edges) : Type 0 where
  pub left_le : e.left ≤ e.right
  pub top_le : e.top ≤ e.bottom
  pub right_in : e.right ≤ width
  pub bottom_in : e.bottom ≤ height

pub edges-EdgesFit :
    (job : JobDesc) (roi : Roi)
    → FitsS32 job
    → IsInt32 roi
    → EdgesFit job.width job.height
        (edges job.width job.height roi.left roi.top roi.width roi.height)
edges-EdgesFit job roi fits ints = elim (Bool-cases (is_empty_roi roi)) [
  | inl empty ↦ rw (edges-unsized job.width job.height roi empty) (record {
    left_le = omega arith;
    top_le = omega arith;
    right_in = omega arith;
    bottom_in = omega arith;
  })
  | inr sized ↦
      let (w_pos, h_pos) = or-false _ _ sized in
      rw (edges-sized job.width job.height roi fits.width_fits fits.height_fits ints w_pos h_pos)
        (record {
          left_le = start_of-le-end roi.left roi.width job.width;
          top_le = start_of-le-end roi.top roi.height job.height;
          right_in = end_of-le roi.left roi.width job.width;
          bottom_in = end_of-le roi.top roi.height job.height;
        })
]
