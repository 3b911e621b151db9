-- ===== src/User/Threshold.antt =====
-- `vpipe_threshold_reference` of user/vpipe-common.c, the userspace reference of the threshold.
pub mod Clip
pub mod Loops
pub mod Agrees
use vpipe.Base.{
  ℕ, ◌+◌, ◌-◌, ◌*◌, ◌%◌, ◌^◌, ◌||◌, Bool, true, false, ℤ, pos, negsuc, leb_ℤ, to_u32, u8, u32, u64,
  ltb, if◌then◌else◌, for_range, Bytes, store, memcpy,
}
use vpipe.Cv.{threshold_pixel}
use vpipe.User.Image.{PgmImage, zeroed}

-- `v < 0 ? 0 : (unsigned int) v > n ? n : (unsigned int) v`
unfoldable pub start_edge : ℤ → ℕ → ℕ
start_edge (pos k) n = if ltb n (u32 k) then n else u32 k
start_edge (negsuc k) n = 0

-- `(unsigned int) size > n - start ? n : start + (unsigned int) size`
unfoldable pub end_edge : ℕ → ℤ → ℕ → ℕ
end_edge start size n =
    if ltb (u32 (n + 2 ^ 32 - start)) (to_u32 size) then n else u32 (start + to_u32 size)

pub record Edges : Type 0 where
  pub left : ℕ
  pub top : ℕ
  pub right : ℕ
  pub bottom : ℕ

unfoldable pub edges : ℕ → ℕ → ℤ → ℤ → ℤ → ℤ → Edges
unfolding start_edge end_edge
edges width height roi_left roi_top roi_width roi_height =
    if leb_ℤ roi_width (pos 0) || leb_ℤ roi_height (pos 0)
    then record { left = 0; top = 0; right = width; bottom = height }
    else record {
      left = start_edge roi_left width;
      top = start_edge roi_top height;
      right = end_edge (start_edge roi_left width) roi_width width;
      bottom = end_edge (start_edge roi_top height) roi_height height;
    }

-- The body of the inner loop.
unfoldable pub ref_pixel : PgmImage → ℕ → ℕ → ℕ → Bytes → Bytes
ref_pixel src threshold y x m =
    let idx = u64 (u64 (y * src.width) + x) in
    store m idx (threshold_pixel (src.pixels idx) threshold)

unfoldable pub ref_row : PgmImage → ℕ → Edges → ℕ → Bytes → Bytes
unfolding ref_pixel for_range
ref_row src threshold e y m = for_range (e.right - e.left) e.left (ref_pixel src threshold y) m

unfoldable pub ref_rows : PgmImage → ℕ → Edges → Bytes → Bytes
unfolding ref_row for_range
ref_rows src threshold e m = for_range (e.bottom - e.top) e.top (ref_row src threshold e) m

-- The threshold is a `uint8_t`. The pair at the end is what `malloc` returned: `false` is a null pointer, and the bytes are what the memory
-- held. The result is whether 0 was returned, and `*dst`.
unfoldable pub threshold_reference : PgmImage → ℕ → ℤ → ℤ → ℤ → ℤ → Bool × Bytes → Bool × PgmImage
unfolding edges ref_rows
threshold_reference src threshold roi_left roi_top roi_width roi_height (false, garbage) =
    (false, zeroed)
threshold_reference src threshold roi_left roi_top roi_width roi_height (true, garbage) =
    let e = edges src.width src.height roi_left roi_top roi_width roi_height in
    let copied = memcpy garbage 0 src.pixels 0 src.size in
    (true, record src { pixels = ref_rows src (u8 threshold) e copied })
