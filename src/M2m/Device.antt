-- ===== src/M2m/Device.antt =====
-- kmod/vpipe-m2m.c: the buffers, from QBUF over `vpipe_device_run` to DQBUF, the ioctls of the driver
-- and the life of a context. The calls into v4l2-mem2mem that give a buffer back are a list, in the
-- order of the code. `none` for a result is a use after free of an imported framebuffer.
pub mod Life
pub mod Run
pub mod Pixels
pub mod Timeline
use vpipe.Base.{
  ℕ, ◌+◌, ◌-◌, ◌^◌, ◌%◌, ◌&&◌, ◌||◌, ◌==◌, not, Bool, true, false, Option, none, some, List, [],
  ◌∷◌, ◌++◌, u32, u64, has_bit, set_bit, if◌then◌else◌, Bytes, Result, Errno, done, ok, err,
}
use vpipe.Uapi.{MetaEntry, meta_version, meta_f_dropped}
use vpipe.Cv.{Roi, JobDesc, CvResult, cv_process}
use vpipe.Meta.{MetaDev, entry_bytes, publish}
use vpipe.Backend.{FrameDesc, Frame, frame_flag_dropped}
use vpipe.Backend.Vcam.{FbHeap, Plane, own, mapped}
use vpipe.Source.{Source, source_next_frame}
use vpipe.Source.Backends.{plane_bytes, set_plane}
use vpipe.M2m.{Ctx, QueueType, output, capture}
use vpipe.M2m.Formats.{job_of_ctx}

-- `struct vpipe_buffer`, with the fields of its vb2 buffer that the driver reads or writes.
pub record Buffer : Type 0 where
  pub index : ℕ
  pub memory : ℕ
  pub plane : Option Plane
  pub payload : ℕ
  pub flags : ℕ
  pub timestamp : ℕ
  pub sequence : ℕ
  pub src_sequence : ℕ
  pub algo_id : ℕ
  pub threshold : ℕ
  pub roi : Roi
  pub src_desc : FrameDesc
  pub qbuf_ns : ℕ
  pub meta_pending : MetaEntry

-- VB2_BUF_STATE_DONE and VB2_BUF_STATE_ERROR
pub data BufState : Type 0 where
  buf_ok buf_error : BufState

-- The calls into v4l2-mem2mem.
pub data M2mCall : Type 0 where
  buf_queue : Buffer → M2mCall
  src_buf_remove dst_buf_remove : M2mCall
  buf_done : Buffer → BufState → M2mCall
  job_finish : M2mCall

-- The buffer with the controls of the context and the geometry of its format, at the time `now`.
abbrev pub snapshot : ℕ → Ctx → Buffer → Buffer
snapshot now ctx buf = record buf {
  src_sequence = ctx.src_sequence;
  algo_id = ctx.algo_id;
  threshold = ctx.threshold;
  roi = ctx.roi;
  src_desc = record buf.src_desc {
    width = ctx.out_q.width;
    height = ctx.out_q.height;
    stride = ctx.out_q.bytesperline;
  };
  qbuf_ns = now;
}

abbrev pub queued :
    Ctx → Buffer → Option (FbHeap × Frame Source (Option Plane)) → Option (FbHeap × Ctx × Buffer)
queued ctx buf none = none
queued ctx buf (some (h, f)) =
    some (h, record ctx { src = f.priv }, record buf { plane = f.plane; src_desc = f.desc })

-- `vpipe_buf_queue`: the buffer as it is queued. `now` and `later` are the two times that are read;
-- what `vpipe_source_next_frame` returns is not looked at.
unfoldable pub vpipe_buf_queue :
    ℕ → ℕ → FbHeap → Ctx → QueueType → Buffer → Option (FbHeap × Ctx × Buffer)
unfolding source_next_frame
vpipe_buf_queue now later h ctx capture buf = some (h, ctx, buf)
vpipe_buf_queue now later h ctx output buf =
    let b = snapshot now ctx buf in
    queued ctx b (source_next_frame later h ctx.src b.plane b.src_desc)

-- `vpipe_buf_finish`: the buffer and the metadata device afterwards.
unfoldable pub buf_finish : ℕ → MetaDev → QueueType → Buffer → Buffer × MetaDev
unfolding publish
buf_finish now dev output buf = (buf, dev)
buf_finish now dev capture buf = if buf.meta_pending.seq == 0 then (buf, dev) else (
  record buf { meta_pending = record buf.meta_pending { dqbuf_timestamp_ns = now; seq = 0 } },
  publish dev (record buf.meta_pending { dqbuf_timestamp_ns = now }),
)

-- `vpipe_return_all_buffers`: `ready` are the buffers that the calls of `v4l2_m2m_src_buf_remove`, or of
-- `v4l2_m2m_dst_buf_remove`, give until they give none.
unfoldable pub return_all_buffers : QueueType → List Buffer → List M2mCall
return_all_buffers output [] = src_buf_remove ∷ []
return_all_buffers capture [] = dst_buf_remove ∷ []
return_all_buffers output (b ∷ ready) =
    src_buf_remove ∷ buf_done b buf_error ∷ return_all_buffers output ready
return_all_buffers capture (b ∷ ready) =
    dst_buf_remove ∷ buf_done b buf_error ∷ return_all_buffers capture ready

-- What the kernel gives a run: the time, `crc32_le`, the depth of the source queue, the CPU.
pub record RunEnv : Type 0 where
  pub now : ℕ
  pub crc32_le : ℕ → Bytes → ℕ → ℕ
  pub src_bufs_ready : ℕ
  pub cpu_id : ℕ

-- What a run leaves: the memory, the sequence of the device and the calls into v4l2-mem2mem.
pub record Ran : Type 0 where
  pub heap : FbHeap
  pub sequence : ℕ
  pub calls : List M2mCall

-- `~x` on a u32.
abbrev not_u32 : ℕ → ℕ
not_u32 x = u32 (2 ^ 32 - 1 - u32 x)

-- The metadata of a frame, as `vpipe_device_run` fills it in; `dst` are the bytes of the destination.
abbrev run_meta : RunEnv → Ctx → Buffer → Buffer → CvResult → Bytes → ℕ → MetaEntry
run_meta env ctx src_buf dst_buf result dst seq = record {
  version = meta_version;
  entry_size = entry_bytes;
  flags = if has_bit src_buf.src_desc.flags frame_flag_dropped then set_bit 0 meta_f_dropped else 0;
  seq = seq;
  src_v4l2_sequence = src_buf.src_sequence;
  buffer_index = dst_buf.index;
  source_timestamp_ns = src_buf.src_desc.source_timestamp_ns;
  qbuf_timestamp_ns = src_buf.qbuf_ns;
  capture_done_ns = env.now;
  dqbuf_timestamp_ns = 0;
  bytesused = ctx.cap_q.sizeimage;
  crc32 = not_u32 (env.crc32_le (2 ^ 32 - 1) dst ctx.cap_q.sizeimage);
  algo_id = src_buf.algo_id;
  algo_status = result.algo_status;
  roi_left = result.roi.left;
  roi_top = result.roi.top;
  roi_width = result.roi.width;
  roi_height = result.roi.height;
  algo_value0 = result.value0;
  algo_value1 = result.value1;
  source_backend = src_buf.src_desc.backend_id;
  buffer_type = src_buf.memory;
  queue_depth = env.src_bufs_ready;
  cpu_id = env.cpu_id;
}

-- V4L2_BUF_FLAG_TIMECODE of linux/videodev2.h is 1 << 8.
abbrev timecode_of : ℕ → ℕ
timecode_of flags = if has_bit flags 8 then 2 ^ 8 else 0

-- The calls if a plane has no address: both buffers go back as failed.
abbrev no_address : Buffer → Buffer → List M2mCall
no_address src_buf dst_buf =
    src_buf_remove
    ∷ dst_buf_remove
    ∷ buf_done src_buf buf_error
    ∷ buf_done dst_buf buf_error
    ∷ job_finish
    ∷ []

-- The destination of a run that has succeeded.
abbrev pub captured : RunEnv → Ctx → Buffer → Buffer → CvResult → Bytes → ℕ → Plane → Buffer
captured env ctx src_buf dst_buf result dst seq plane = record dst_buf {
  plane = some plane;
  payload = ctx.cap_q.sizeimage;
  timestamp = env.now;
  flags = timecode_of src_buf.flags;
  sequence = u32 seq;
  meta_pending = run_meta env ctx src_buf dst_buf result dst seq;
}

-- The rest of `vpipe_device_run` once the frame has been processed.
abbrev pub run_result :
    RunEnv → ℕ → Ctx → Buffer → Buffer → FbHeap × Plane → Result (Unit {0}) × CvResult × Bytes → Ran
run_result env sequence ctx src_buf dst_buf (h, plane) (err e, result, dst) = record {
  heap = h;
  sequence = sequence;
  calls =
      src_buf_remove
      ∷ dst_buf_remove
      ∷ buf_done src_buf buf_error
      ∷ buf_done (record dst_buf { plane = some plane }) buf_error
      ∷ job_finish
      ∷ [];
}
run_result env sequence ctx src_buf dst_buf (h, plane) (ok _, result, dst) =
    let seq = u64 (sequence + 1) in
    record {
      heap = h;
      sequence = seq;
      calls =
          src_buf_remove
          ∷ dst_buf_remove
          ∷ buf_done src_buf buf_ok
          ∷ buf_done (captured env ctx src_buf dst_buf result dst seq plane) buf_ok
          ∷ job_finish
          ∷ [];
    }

-- The frame is processed: `src` and `dst` are the bytes of the two planes, which do not overlap.
abbrev pub run_job :
    RunEnv → FbHeap → ℕ → Ctx → Buffer → Buffer → Plane → Option Bytes → Option Bytes → Option Ran
run_job env h sequence ctx src_buf dst_buf plane none dst = none
run_job env h sequence ctx src_buf dst_buf plane (some src) none = none
run_job env h sequence ctx src_buf dst_buf plane (some src) (some dst) =
    let r =
      cv_process (job_of_ctx ctx src) src_buf.algo_id src_buf.threshold (some src_buf.roi) dst in
    some (run_result env sequence ctx src_buf dst_buf (set_plane h plane r.2) r)

abbrev pub run_planes :
    RunEnv → FbHeap → ℕ → Ctx → Buffer → Buffer → Option Plane → Option Plane → Option Ran
run_planes env h sequence ctx src_buf dst_buf none dst =
    some (record { heap = h; sequence = sequence; calls = no_address src_buf dst_buf })
run_planes env h sequence ctx src_buf dst_buf (some src) none =
    some (record { heap = h; sequence = sequence; calls = no_address src_buf dst_buf })
run_planes env h sequence ctx src_buf dst_buf (some src) (some dst) =
    run_job env h sequence ctx src_buf dst_buf dst (plane_bytes h src) (plane_bytes h dst)

-- `vpipe_device_run`: the buffers are what `v4l2_m2m_next_src_buf` and `v4l2_m2m_next_dst_buf` give,
-- which the calls that remove a buffer give again.
unfoldable pub device_run : RunEnv → FbHeap → ℕ → Ctx → Option Buffer → Option Buffer → Option Ran
unfolding cv_process
device_run env h sequence ctx none dst_buf =
    some (record { heap = h; sequence = sequence; calls = [] })
device_run env h sequence ctx (some src_buf) none =
    some (record { heap = h; sequence = sequence; calls = [] })
device_run env h sequence ctx (some src_buf) (some dst_buf) =
    run_planes env h sequence ctx src_buf dst_buf src_buf.plane dst_buf.plane

-- `vpipe_job_abort`
abbrev job_abort : List M2mCall
job_abort = job_finish ∷ []
