-- ===== src/M2m.antt =====
-- kmod/vpipe-m2m.c: the contexts of the mem2mem device, their formats and their controls. What V4L2 and
-- vb2 hand to a callback (whether a queue is busy, the size of a plane, the buffers that are next) is
-- an argument of the definition.
pub mod Formats
pub mod Controls
pub mod Buffers
pub mod Queues
pub mod Device
use vpipe.Base.{
  ℕ, ◌*◌, ◌^◌, ◌%◌, Bool, true, false, Option, none, some, List, [], ◌∷◌, u32, ltb, ◌==◌, min,
  if◌then◌else◌, Result, done, ok, err, einval, ebusy, enomem, ℤ, pos, to_u32, ◌>>=◌, ◌>>◌,
}
use vpipe.Uapi.{
  algo_none, algo_threshold, cid_src_sequence, cid_algo, cid_roi_left, cid_roi_top, cid_roi_width,
  cid_roi_height, cid_threshold,
}
use vpipe.Cv.{Roi}
use vpipe.Source.{Source}

abbrev default_width : ℕ
default_width = 640

abbrev default_height : ℕ
default_height = 480

abbrev default_threshold : ℕ
default_threshold = 127

-- V4L2_PIX_FMT_GREY of linux/videodev2.h.
abbrev pub pix_fmt_grey : ℕ
pix_fmt_grey = 0x5945_5247

-- The direction of a queue, by V4L2_TYPE_IS_OUTPUT of its type.
pub data QueueType : Type 0 where
  output capture : QueueType

-- `struct vpipe_q_data`
pub record QData : Type 0 where
  pub width : ℕ
  pub height : ℕ
  pub bytesperline : ℕ
  pub sizeimage : ℕ
  pub pixelformat : ℕ

-- The fields of `struct v4l2_pix_format` that vary; the rest is constant in `vpipe_fill_pix_format`.
pub record PixFormat : Type 0 where
  pub width : ℕ
  pub height : ℕ
  pub pixelformat : ℕ
  pub bytesperline : ℕ
  pub sizeimage : ℕ

-- `struct vpipe_ctx`, once `vpipe_open` has created its source.
pub record Ctx : Type 0 where
  pub out_q : QData
  pub cap_q : QData
  pub src_sequence : ℕ
  pub algo_id : ℕ
  pub threshold : ℕ
  pub roi : Roi
  pub src : Source

-- `vpipe_get_q_data`
abbrev pub get_q_data : Ctx → QueueType → QData
get_q_data ctx output = ctx.out_q
get_q_data ctx capture = ctx.cap_q

-- `clamp_t(u32, v, lo, hi)`
abbrev pub clamp_u32 : ℕ → ℕ → ℕ → ℕ
clamp_u32 v lo hi = if ltb v lo then lo else if ltb hi v then hi else v

-- `vpipe_fill_pix_format`
unfoldable pub fill_pix_format : ℕ → ℕ → PixFormat
fill_pix_format width height =
    let w = clamp_u32 width 1 4096 in
    let h = clamp_u32 height 1 4096 in
    record {
      width = w;
      height = h;
      pixelformat = pix_fmt_grey;
      bytesperline = w;
      sizeimage = u32 (w * h);
    }

-- `vpipe_enum_fmt`: the format at an index.
unfoldable enum_fmt : ℕ → Result ℕ
enum_fmt index = if index == 0 then ok pix_fmt_grey else err einval

-- `vpipe_g_fmt`
unfoldable pub g_fmt : Ctx → QueueType → PixFormat
unfolding fill_pix_format
g_fmt ctx type = let q = get_q_data ctx type in fill_pix_format q.width q.height

-- `vpipe_try_fmt`
unfoldable pub try_fmt : PixFormat → PixFormat
unfolding fill_pix_format
try_fmt f = fill_pix_format f.width f.height

abbrev pub to_q_data : PixFormat → QData
to_q_data f = record {
  width = f.width;
  height = f.height;
  bytesperline = f.bytesperline;
  sizeimage = f.sizeimage;
  pixelformat = f.pixelformat;
}

abbrev pub set_q_data : Ctx → QueueType → QData → Ctx
set_q_data ctx output q = record ctx { out_q = q }
set_q_data ctx capture q = record ctx { cap_q = q }

-- The other queue takes the format of the one that has been set.
abbrev pub mirror : Ctx → QueueType → Ctx
mirror ctx output = record ctx { cap_q = ctx.out_q }
mirror ctx capture = record ctx { out_q = ctx.cap_q }

-- `vpipe_s_fmt`; `busy` is `vb2_is_busy` of the queue.
unfoldable pub s_fmt : Ctx → QueueType → Bool → PixFormat → Result (Ctx × PixFormat)
unfolding try_fmt
s_fmt ctx type busy f =
    let g = try_fmt f in
    if busy then err ebusy else ok (mirror (set_q_data ctx type (to_q_data g)) type, g)

-- `vpipe_queue_setup`: `planes` is the size of the first plane where the caller gives one. The result
-- is the number of buffers and the size of the plane.
unfoldable pub queue_setup : Ctx → QueueType → ℕ → Option ℕ → Result (ℕ × ℕ)
queue_setup ctx type nbufs none =
    ok ((if ltb nbufs 2 then 2 else nbufs), (get_q_data ctx type).sizeimage)
queue_setup ctx type nbufs (some size) =
    if ltb size (get_q_data ctx type).sizeimage
    then err einval
    else ok ((if ltb nbufs 2 then 2 else nbufs), size)

-- `vpipe_buf_prepare`: the payload of a buffer whose plane has `plane_size` bytes.
unfoldable pub buf_prepare : Ctx → QueueType → ℕ → Result ℕ
buf_prepare ctx type plane_size =
    let size = (get_q_data ctx type).sizeimage in
    if ltb plane_size size then err einval else ok size

-- `vpipe_s_ctrl`: a u32 field takes the s32 value as it stands in 32 bits.
unfoldable pub s_ctrl : Ctx → ℕ → ℤ → Result Ctx
s_ctrl ctx id val =
    if id == cid_src_sequence
    then ok (record ctx { src_sequence = to_u32 val })
    else if id == cid_algo
    then ok (record ctx { algo_id = to_u32 val })
    else if id == cid_roi_left
    then ok (record ctx { roi = record ctx.roi { left = val } })
    else if id == cid_roi_top
    then ok (record ctx { roi = record ctx.roi { top = val } })
    else if id == cid_roi_width
    then ok (record ctx { roi = record ctx.roi { width = val } })
    else if id == cid_roi_height
    then ok (record ctx { roi = record ctx.roi { height = val } })
    else if id == cid_threshold
    then ok (record ctx { threshold = to_u32 val })
    else err einval

-- The range of a `struct v4l2_ctrl_config`.
pub record CtrlConfig : Type 0 where
  pub id : ℕ
  pub min : ℕ
  pub max : ℕ
  pub def : ℕ

abbrev ctrl : ℕ → ℕ → ℕ → ℕ → CtrlConfig
ctrl id min max def = record { id = id; min = min; max = max; def = def }

-- The controls that `vpipe_open` registers, in its order.
abbrev pub controls : List CtrlConfig
controls =
    ctrl cid_src_sequence 0 2_147_483_647 0
    ∷ ctrl cid_algo algo_none algo_threshold algo_none
    ∷ ctrl cid_roi_left 0 4096 0
    ∷ ctrl cid_roi_top 0 4096 0
    ∷ ctrl cid_roi_width 0 4096 default_width
    ∷ ctrl cid_roi_height 0 4096 default_height
    ∷ ctrl cid_threshold 0 255 default_threshold
    ∷ []

-- The context that `vpipe_open` sets up, around a source.
unfoldable pub fresh_ctx : Source → Ctx
fresh_ctx src =
    let q : QData = record {
      width = default_width;
      height = default_height;
      bytesperline = default_width;
      sizeimage = default_width * default_height;
      pixelformat = pix_fmt_grey;
    } in
    record {
      out_q = q;
      cap_q = q;
      src_sequence = 0;
      algo_id = algo_none;
      threshold = default_threshold;
      roi = record {
        left = pos 0;
        top = pos 0;
        width = pos default_width;
        height = pos default_height;
      };
      src = src;
    }
