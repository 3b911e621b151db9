-- ===== src/User/Pgm/Diff.antt =====
-- The image that `vpipe_write_diff_pgm` writes.
use vpipe.Base.{
  ℕ, zero, suc, ◌+◌, ◌-◌, ◌<◌, ◌≡◌, ◌↔◌, refl, sym, ap, ◌&&◌, ◌||◌, not, Bool, true, false, Option,
  none, some, arith, ltb, leb, ◌==◌, u8, if◌then◌else◌, for_range, Bytes, some_inj,
}
use vpipe.User.Image.{PgmImage}
use vpipe.User.Pgm.{diff_pixel, diff_image}

-- The absolute difference of two bytes.
abbrev distance : ℕ → ℕ → ℕ
distance a b = if ltb a b then b - a else a - b

diff_loop-at :
    (lhs rhs : PgmImage) (n i : ℕ) (m : Bytes) (k : ℕ)
    → for_range n i (diff_pixel lhs rhs) m k
      ≡ (if leb i k && ltb k (i + n) then u8 (distance (lhs.pixels k) (rhs.pixels k)) else m k)
unfolding for_range diff_pixel
diff_loop-at lhs rhs zero i m k = ground arith
diff_loop-at lhs rhs (suc n) i m k =
    ground (arith, diff_loop-at lhs rhs n (i + 1) (diff_pixel lhs rhs i m) k)

if-none-some :
    (b : Bool) (image diff : PgmImage)
    → (if b then none else some image) ≡ some diff
    → (b ≡ false) × (image ≡ diff)
if-none-some true image diff h = cc
if-none-some false image diff h = (refl, some_inj h)

-- The difference of two images is written exactly if memory is allocated and they have one size, and
-- then a pixel of it is 0 exactly where the images agree.
diff_image-zero :
    (lhs rhs : PgmImage) (fresh : Option Bytes) (diff : PgmImage) (k : ℕ)
    → diff_image lhs rhs fresh ≡ some diff
    → k < lhs.size
    → lhs.pixels k < 256
    → rhs.pixels k < 256
    → (lhs.width ≡ rhs.width)
      × (lhs.height ≡ rhs.height)
      × (diff.pixels k ≡ distance (lhs.pixels k) (rhs.pixels k))
      × (diff.pixels k ≡ 0 ↔ lhs.pixels k ≡ rhs.pixels k)
unfolding diff_image
diff_image-zero lhs rhs none diff k e hk ha hb = cc
diff_image-zero lhs rhs (some garbage) diff k e hk ha hb =
    let image : PgmImage = record lhs {
      pixels = for_range lhs.size 0 (diff_pixel lhs rhs) garbage;
    } in
    let made =
      if-none-some (not (lhs.width == rhs.width) || not (lhs.height == rhs.height)) image diff e in
    let one_size = made.0 in
    let pixel : diff.pixels k ≡ image.pixels k = ap (λ (d : PgmImage). d.pixels k) (sym made.1) in
    ground (arith, one_size, pixel, diff_loop-at lhs rhs lhs.size 0 garbage k)
