-- ===== src/M2m/Buffers.antt =====
-- The sizes of the buffers against the frames that a job reads and writes.
use vpipe.Base.{
  ℕ, ◌+◌, ◌*◌, ◌≤◌, ◌<◌, ◌≡◌, refl, ap, Option, none, some, arith, ltb, if◌then◌else◌, ok, err,
  einval,
}
use vpipe.M2m.{Ctx, QData, QueueType, output, capture, get_q_data, queue_setup, buf_prepare}
use vpipe.M2m.Formats.{Formatted}

-- The format of either queue.
get_q_data-Formatted :
    (ctx : Ctx) (type : QueueType) → Formatted ctx → get_q_data ctx type ≡ ctx.out_q
get_q_data-Formatted ctx output v = refl
get_q_data-Formatted ctx capture v = v.mirrored

offset-lt : (y x w h : ℕ) → y < h → x < w → y * w + x < w * h
offset-lt y x w h hy hx = omega (arith, rows y w h hy)
  where
    rows : (y w h : ℕ) → y < h → y * w + w ≤ w * h
    rows y w h p = grind arith

prepared-le :
    (need size payload : ℕ)
    → (if ltb size need then err einval else ok need) ≡ ok payload
    → (need ≤ size) × (payload ≡ need)
prepared-le need size payload h = ground arith

-- The plane of a buffer that `vpipe_buf_prepare` lets through holds every pixel of a frame of the
-- context, at the offset where a job reads it or writes it, if the context holds one format of the
-- device; and its payload is the frame.
pub buf_prepare-in_bounds :
    (ctx : Ctx) (type : QueueType) (plane_size payload y x : ℕ)
    → Formatted ctx
    → buf_prepare ctx type plane_size ≡ ok payload
    → y < ctx.out_q.height
    → x < ctx.out_q.width
    → (y * ctx.out_q.bytesperline + x < plane_size)
      × (y * ctx.cap_q.bytesperline + x < plane_size)
      × (payload ≡ ctx.out_q.width * ctx.out_q.height)
unfolding buf_prepare
buf_prepare-in_bounds ctx type plane_size payload y x v h hy hx =
    let q = v.is_format in
    let same : ctx.cap_q.bytesperline ≡ ctx.out_q.bytesperline =
      ap (λ (r : QData). r.bytesperline) v.mirrored in
    let size : (get_q_data ctx type).sizeimage ≡ ctx.out_q.sizeimage =
      ap (λ (r : QData). r.sizeimage) (get_q_data-Formatted ctx type v) in
    let prepared = prepared-le (get_q_data ctx type).sizeimage plane_size payload h in
    let inside = offset-lt y x ctx.out_q.width ctx.out_q.height hy hx in
    (
      grind (arith, q.no_padding, q.whole, size, prepared, inside),
      grind (arith, q.no_padding, q.whole, size, same, prepared, inside),
      omega (arith, q.whole, size, prepared),
    )

-- A buffer of the size that `vpipe_queue_setup` answers, or lets through, is prepared without an error,
-- and there are at least two buffers.
buf_prepare-queue_setup :
    (ctx : Ctx) (type : QueueType) (nbufs n size : ℕ) (planes : Option ℕ)
    → queue_setup ctx type nbufs planes ≡ ok (n, size)
    → (2 ≤ n) × (nbufs ≤ n) × (buf_prepare ctx type size ≡ ok (get_q_data ctx type).sizeimage)
unfolding buf_prepare queue_setup
buf_prepare-queue_setup ctx type nbufs n size none h = ground arith
buf_prepare-queue_setup ctx type nbufs n size (some s) h = ground arith
