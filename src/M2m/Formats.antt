-- ===== src/M2m/Formats.antt =====
-- The formats of a context: what its queues hold after any calls, and what that means for the frames.
use vpipe.Base.{
  ℕ, ◌*◌, ◌≤◌, ◌<◌, ◌≡◌, refl, ap, Bool, arith, Bytes, ok, err, ebusy, AllOk-if, AllOk-ok,
}
use vpipe.Cv.{JobDesc}
use vpipe.Cv.Frame.{FrameFits}
use vpipe.Source.{Source}
use vpipe.M2m.{
  QData, PixFormat, Ctx, QueueType, output, capture, get_q_data, fill_pix_format, clamp_u32,
  try_fmt, g_fmt, s_fmt, fresh_ctx, mirror, set_q_data, to_q_data, pix_fmt_grey,
}

-- A format of the device: grey, at most 4096 pixels each way, no padding.
pub record IsFormat (q : QData) : Type 0 where
  pub width_pos : 0 < q.width
  pub width_max : q.width ≤ 4096
  pub height_pos : 0 < q.height
  pub height_max : q.height ≤ 4096
  pub no_padding : q.bytesperline ≡ q.width
  pub whole : q.sizeimage ≡ q.width * q.height
  pub grey : q.pixelformat ≡ pix_fmt_grey

-- Both queues of the context hold one format of the device.
pub record Formatted (ctx : Ctx) : Type 0 where
  pub is_format : IsFormat ctx.out_q
  pub mirrored : ctx.cap_q ≡ ctx.out_q

clamp_u32-bounds : (v : ℕ) → (1 ≤ clamp_u32 v 1 4096) × (clamp_u32 v 1 4096 ≤ 4096)
clamp_u32-bounds v = ground arith

area-bound : (w h : ℕ) → w ≤ 4096 → h ≤ 4096 → w * h ≤ 4096 * 4096
area-bound w h hw hh = grind arith

fill-IsFormat : (width height : ℕ) → IsFormat (to_q_data (fill_pix_format width height))
unfolding fill_pix_format
fill-IsFormat width height =
    let w = clamp_u32-bounds width in
    let h = clamp_u32-bounds height in
    record {
      width_pos = w.0;
      width_max = w.1;
      height_pos = h.0;
      height_max = h.1;
      no_padding = refl;
      whole = omega (arith, area-bound (clamp_u32 width 1 4096) (clamp_u32 height 1 4096) w.1 h.1);
      grey = refl;
    }

pub fresh_ctx-Formatted : (src : Source) → Formatted (fresh_ctx src)
unfolding fresh_ctx
fresh_ctx-Formatted src = record {
  is_format = record {
    width_pos = omega arith;
    width_max = omega arith;
    height_pos = omega arith;
    height_max = omega arith;
    no_padding = refl;
    whole = refl;
    grey = refl;
  };
  mirrored = refl;
}

clamp_u32-twice : (v : ℕ) → clamp_u32 (clamp_u32 v 1 4096) 1 4096 ≡ clamp_u32 v 1 4096
clamp_u32-twice v = ground arith

fill-again :
    (w h : ℕ) → fill_pix_format (clamp_u32 w 1 4096) (clamp_u32 h 1 4096) ≡ fill_pix_format w h
unfolding fill_pix_format
fill-again w h = rw (clamp_u32-twice w, clamp_u32-twice h) refl

-- What a caller of VIDIOC_S_FMT can rely on.
abbrev Agreed : QueueType → Ctx × PixFormat → Type 0
Agreed any (ctx, g) = Formatted ctx × (get_q_data ctx any ≡ to_q_data g) × (g_fmt ctx any ≡ g)

set-Agreed :
    (ctx : Ctx) (type any : QueueType) (f : PixFormat)
    → Agreed any (mirror (set_q_data ctx type (to_q_data (try_fmt f))) type, try_fmt f)
unfolding try_fmt g_fmt
set-Agreed ctx output output f = (
  record { is_format = fill-IsFormat f.width f.height; mirrored = refl },
  refl,
  fill-again f.width f.height,
)
set-Agreed ctx output capture f = (
  record { is_format = fill-IsFormat f.width f.height; mirrored = refl },
  refl,
  fill-again f.width f.height,
)
set-Agreed ctx capture output f = (
  record { is_format = fill-IsFormat f.width f.height; mirrored = refl },
  refl,
  fill-again f.width f.height,
)
set-Agreed ctx capture capture f = (
  record { is_format = fill-IsFormat f.width f.height; mirrored = refl },
  refl,
  fill-again f.width f.height,
)

-- Whatever format is asked for, on either queue, the context holds one format of the device on both
-- queues afterwards, which is also the format that the caller is told, and that a later VIDIOC_G_FMT
-- on either queue reports.
pub s_fmt-Formatted :
    (ctx ctx' : Ctx) (type : QueueType) (busy : Bool) (f g : PixFormat) (any : QueueType)
    → s_fmt ctx type busy f ≡ ok (ctx', g)
    → Formatted ctx' × (get_q_data ctx' any ≡ to_q_data g) × (g_fmt ctx' any ≡ g)
unfolding s_fmt
s_fmt-Formatted ctx ctx' type busy f g any h =
    AllOk-ok (Agreed any)
      (AllOk-if (Agreed any) (err ebusy)
        (ok (mirror (set_q_data ctx type (to_q_data (try_fmt f))) type, try_fmt f)) busy (λ e. tt)
        (λ e. set-Agreed ctx type any f))
      h

-- The frame of a job between two planes of a context that holds one format of the device.
abbrev pub job_of_ctx : Ctx → Bytes → JobDesc
job_of_ctx ctx src = record {
  src = src;
  width = ctx.out_q.width;
  height = ctx.out_q.height;
  src_stride = ctx.out_q.bytesperline;
  dst_stride = ctx.cap_q.bytesperline;
}

pub Formatted-FrameFits : (ctx : Ctx) (src : Bytes) → Formatted ctx → FrameFits (job_of_ctx ctx src)
Formatted-FrameFits ctx src v =
    let q = v.is_format in
    let same : ctx.cap_q.bytesperline ≡ ctx.out_q.bytesperline =
      ap (λ (r : QData). r.bytesperline) v.mirrored in
    let small = area-bound ctx.out_q.height ctx.out_q.width q.height_max q.width_max in
    record {
      sizes = record {
        width_fits = omega (arith, q.width_max);
        height_fits = omega (arith, q.height_max);
      };
      width_le_src = omega (arith, q.no_padding);
      width_le_dst = omega (arith, q.no_padding, same);
      src_fits = grind (arith, q.no_padding, small);
      dst_fits = grind (arith, q.no_padding, small, same);
    }
