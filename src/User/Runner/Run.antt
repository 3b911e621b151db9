-- ===== src/User/Runner/Run.antt =====
-- user/vpipe-vcam-runner.c: the state of a measuring run, from the allocation to STREAMON and the export.
pub mod Balance
pub mod Held
pub mod Untouched
use vpipe.Base.{
  ℕ, zero, suc, ◌+◌, ◌*◌, Bool, true, false, Option, none, some, List, [], ◌∷◌, ltb, ◌==◌,
  if◌then◌else◌, Bytes,
}
use vpipe.Uapi.{MetaEntry, cid_algo, algo_none}
use vpipe.M2m.{QueueType, output, capture, pix_fmt_grey}
use vpipe.User.Calls.{
  Kernel, Trace, asked, obtained, Call, Handle, descriptor, file, heap, stream, V4l2Buffer,
  memory_mmap, memory_dmabuf, empty_buffer, unused_buffer, open_device, open_sideband, set_backend,
  request_buffers, set_control, stream_on, export_source, Outcome, next, cleanup, ◌then◌,
  must_succeed, lift,
}
use vpipe.User.Queues.{
  Slots, vpipe_set_format, vpipe_get_sizeimage, vpipe_request_mmap_buffers, vpipe_queue_mmap_buffer,
  queue_all,
}
use vpipe.User.Csv.{vpipe_open_csv}
use vpipe.User.Crc.{CrcTable}
use vpipe.User.Runner.{frame_width, frame_height}

pub data SourceKind : Type 0 where
  src_fixture src_vcam : SourceKind

pub data BufferKind : Type 0 where
  buf_mmap buf_dmabuf : BufferKind

-- VPIPE_MAX_QUEUE_DEPTH, which is also the number of entries of `out_bufs`, `cap_bufs` and `qbuf_ring`.
abbrev pub max_queue_depth : ℕ
max_queue_depth = 32

-- `struct config`
pub record Config : Type 0 where
  pub frames : ℕ
  pub fps : ℕ
  pub queue_depth : ℕ
  pub source : SourceKind
  pub verify_pattern : Bool
  pub device : List ℕ
  pub csv : List ℕ

-- The fields of `struct run_stats` that a run counts. The sum of the occupancies, a double that holds
-- whole numbers, is here in place of the mean.
pub record RunStats : Type 0 where
  pub ok : Bool
  pub out_inflight : ℕ
  pub meta_available : Bool
  pub occ_sum : ℕ
  pub occ_max : ℕ
  pub dropped : ℕ
  pub csum_checked : ℕ
  pub csum_pass : ℕ
  pub verify_checked : ℕ
  pub verify_pass : ℕ

-- What is printed for a frame; the columns of the metadata are those of the row, or 0.
pub record CsvRow : Type 0 where
  pub frame : ℕ
  pub us_qbuf_ns : ℕ
  pub us_dqbuf_ns : ℕ
  pub us_latency_ns : ℕ
  pub entry : Option MetaEntry
  pub crc32_user : ℕ
  pub dropped : Bool

-- The variables of `run_one`. Of the arrays `out_bufs`, `cap_bufs` and `qbuf_ring` only the first
-- `max_queue_depth` entries are variables of the code: a run with a deeper queue, or with more buffers granted
-- than asked for, writes past them, which is not modelled. A row is in `rows`, the latest first, with its element of `lat`.
pub record Run : Type 0 where
  pub trace : Trace
  pub lat : Option ℕ
  pub fd : Option ℕ
  pub fp : Option ℕ
  pub meta_fd : Option ℕ
  pub src_fd : Option ℕ
  pub out_streaming : Bool
  pub cap_streaming : Bool
  pub out_bufs : Slots
  pub cap_bufs : Slots
  pub out_sizeimage : ℕ
  pub submitted : ℕ
  pub completed : ℕ
  pub next_ns : ℕ
  pub qbuf_ring : ℕ → ℕ
  pub crc : CrcTable
  pub t_dq : ℕ
  pub cap_dq : V4l2Buffer
  pub out_dq : V4l2Buffer
  pub rows : List CsvRow
  pub st : RunStats

abbrev no_stats : RunStats
no_stats = record {
  ok = false;
  out_inflight = 0;
  meta_available = false;
  occ_sum = 0;
  occ_max = 0;
  dropped = 0;
  csum_checked = 0;
  csum_pass = 0;
  verify_checked = 0;
  verify_pass = 0;
}

-- The depth of the OUTPUT pipeline.
abbrev depth_of : BufferKind → ℕ → ℕ
depth_of buf_mmap out_inflight = out_inflight
depth_of buf_dmabuf out_inflight = 1

abbrev clamp_depth : ℕ → ℕ → ℕ
clamp_depth queue_depth depth =
    let most = if ltb queue_depth depth then queue_depth else depth in
    if ltb most 1 then 1 else most

abbrev pub out_depth : Config → BufferKind → ℕ → ℕ
out_depth cfg buffer out_inflight = clamp_depth cfg.queue_depth (depth_of buffer out_inflight)

-- The variables at the start. The table of checksums outlives the run.
abbrev pub start_run : Config → BufferKind → ℕ → CrcTable → Trace → Run
start_run cfg buffer out_inflight crc trace = record {
  trace = trace;
  lat = none;
  fd = none;
  fp = none;
  meta_fd = none;
  src_fd = none;
  out_streaming = false;
  cap_streaming = false;
  out_bufs = λ _. unused_buffer;
  cap_bufs = λ _. unused_buffer;
  out_sizeimage = 0;
  submitted = 0;
  completed = 0;
  next_ns = 0;
  qbuf_ring = λ _. 0;
  crc = crc;
  t_dq = 0;
  cap_dq = empty_buffer memory_mmap 0;
  out_dq = empty_buffer memory_mmap 0;
  rows = [];
  st = record no_stats { out_inflight = out_depth cfg buffer out_inflight };
}

-- The backend ids that the runner knows.
abbrev backend_of : SourceKind → ℕ
backend_of src_fixture = 1
backend_of src_vcam = 3

-- An ioctl on the device that must succeed.
abbrev pub ask : Kernel → Call → Run → Outcome Run
ask kernel call r = must_succeed kernel call r.trace (λ t. record r { trace = t })

abbrev pub device_reply : Run → Trace → Option ℕ → Outcome Run
device_reply r t none = cleanup (record r { trace = t })
device_reply r t (some fd) = next (record r { trace = obtained (descriptor fd) ∷ t; fd = some fd })

abbrev pub open_node : Kernel → Config → Run → Outcome Run
open_node kernel cfg r =
    let after : Trace = asked (open_device cfg.device) ∷ r.trace in
    device_reply r after (kernel.hands_out after)

abbrev pub read_sizeimage : Kernel → Run → Outcome Run
read_sizeimage kernel r =
    let got = vpipe_get_sizeimage kernel r.fd output r.trace in
    if got.1 == 0
    then cleanup (record r { trace = got.0; out_sizeimage = got.1 })
    else next (record r { trace = got.0; out_sizeimage = got.1 })

-- The OUTPUT queue: one imported buffer, or mapped ones.
unfoldable pub request_output : Kernel → Config → BufferKind → Run → Outcome Run
unfolding vpipe_request_mmap_buffers
request_output kernel cfg buf_dmabuf r = ask kernel (request_buffers r.fd output memory_dmabuf 1) r
request_output kernel cfg buf_mmap r =
    lift (λ s. record r { trace = s.0; out_bufs = s.1 })
      (vpipe_request_mmap_buffers kernel r.fd output cfg.queue_depth (r.trace, r.out_bufs))

unfoldable pub request_capture : Kernel → Config → Run → Outcome Run
unfolding vpipe_request_mmap_buffers
request_capture kernel cfg r =
    lift (λ s. record r { trace = s.0; cap_bufs = s.1 })
      (vpipe_request_mmap_buffers kernel r.fd capture cfg.queue_depth (r.trace, r.cap_bufs))

-- `set_algo_none`
abbrev pub set_algo_none : Kernel → Run → Outcome Run
set_algo_none kernel r = ask kernel (set_control r.fd cid_algo algo_none) r

abbrev pub csv_reply : Run → Trace × Option ℕ → Outcome Run
csv_reply r (t, none) = cleanup (record r { trace = t })
csv_reply r (t, some fp) = next (record r { trace = t; fp = some fp })

unfoldable pub open_rows : Kernel → List ℕ → Run → Outcome Run
unfolding vpipe_open_csv
open_rows kernel csv r = csv_reply r (vpipe_open_csv kernel csv r.trace)

-- The sideband is not needed: a run without it has no metadata.
abbrev pub meta_reply : Run → Trace → Option ℕ → Run
meta_reply r t none = record r { trace = t; st = record r.st { meta_available = false } }
meta_reply r t (some fd) = record r {
  trace = obtained (descriptor fd) ∷ t;
  meta_fd = some fd;
  st = record r.st { meta_available = true };
}

abbrev pub open_meta : Kernel → Run → Outcome Run
open_meta kernel r =
    let after : Trace = asked open_sideband ∷ r.trace in
    next (meta_reply r after (kernel.hands_out after))

abbrev pub queue_capture : Kernel → ℕ → Run → Outcome Run
queue_capture kernel i r = ask kernel (vpipe_queue_mmap_buffer r.fd capture memory_mmap i none) r

abbrev pub start_capture : Kernel → Run → Outcome Run
start_capture kernel r =
    let after : Trace = asked (stream_on r.fd capture) ∷ r.trace in
    if kernel.succeeds after
    then next (record r { trace = obtained (stream r.fd capture) ∷ after; cap_streaming = true })
    else cleanup (record r { trace = after })

abbrev pub start_output : Kernel → Run → Outcome Run
start_output kernel r =
    let after : Trace = asked (stream_on r.fd output) ∷ r.trace in
    if kernel.succeeds after
    then next (record r { trace = obtained (stream r.fd output) ∷ after; out_streaming = true })
    else cleanup (record r { trace = after })

-- The descriptor that the export fills in is refused if it is negative.
abbrev pub export_reply : Run → Trace → Option ℕ → Outcome Run
export_reply r t none = cleanup (record r { trace = t })
export_reply r t (some fd) =
    next (record r { trace = obtained (descriptor fd) ∷ t; src_fd = some fd })

abbrev pub export_dmabuf : Kernel → BufferKind → Run → Outcome Run
export_dmabuf kernel buf_mmap r = next r
export_dmabuf kernel buf_dmabuf r =
    let after : Trace = asked (export_source r.fd) ∷ r.trace in
    if kernel.succeeds after
    then export_reply r after (kernel.hands_out after)
    else cleanup (record r { trace = after })

-- What is asked of the device before its queues are requested.
abbrev pub set_up_device : Kernel → Config → Run → Outcome Run
set_up_device kernel cfg r =
    ask kernel (set_backend r.fd (backend_of cfg.source)) r
    then (λ r. ask kernel (vpipe_set_format r.fd output frame_width frame_height pix_fmt_grey) r)
    then (λ r. ask kernel (vpipe_set_format r.fd capture frame_width frame_height pix_fmt_grey) r)
    then read_sizeimage kernel

-- `run_one` from `open` to the export.
unfoldable pub set_up : Kernel → Config → BufferKind → List ℕ → Run → Outcome Run
unfolding queue_all vpipe_open_csv vpipe_request_mmap_buffers
set_up kernel cfg buffer csv r =
    open_node kernel cfg r
    then set_up_device kernel cfg
    then request_output kernel cfg buffer
    then request_capture kernel cfg
    then set_algo_none kernel
    then open_rows kernel csv
    then open_meta kernel
    then queue_all (queue_capture kernel) cfg.queue_depth 0
    then start_capture kernel
    then start_output kernel
    then export_dmabuf kernel buffer
