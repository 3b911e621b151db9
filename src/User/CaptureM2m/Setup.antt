-- ===== src/User/CaptureM2m/Setup.antt =====
-- user/vpipe-capture-m2m.c: its variables, and what comes before the main loop.
use vpipe.Base.{ℕ, Bool, true, false, ◌||◌, Option, none, some, List, [], ◌∷◌, ◌==◌, if◌then◌else◌}
use vpipe.M2m.{QueueType, output, capture, pix_fmt_grey}
use vpipe.User.Calls.{
  Kernel, Trace, asked, obtained, Call, descriptor, stream, V4l2Buffer, memory_mmap, memory_dmabuf,
  empty_buffer, unused_buffer, open_device, request_buffers, stream_on, export_buffer, Outcome,
  next, cleanup, ◌then◌, must_succeed, lift,
}
use vpipe.User.Queues.{
  Slots, put_slot, vpipe_set_format, vpipe_get_sizeimage, vpipe_request_mmap_buffers,
  vpipe_queue_mmap_buffer, queue_all,
}
use vpipe.User.Csv.{vpipe_open_csv}
use vpipe.User.CaptureM2m.Arguments.{Transport, transport_dmabuf, transport_mmap, Settings}

-- BUFFER_COUNT
abbrev pub buffer_count : ℕ
buffer_count = 4

-- What is printed for a frame, without the names of the transport and of the algorithm.
pub record FrameRow : Type 0 where
  pub frame : ℕ
  pub vivid_sequence : ℕ
  pub vpipe_sequence : ℕ
  pub vivid_dq_ns : ℕ
  pub vpipe_dq_ns : ℕ
  pub vpipe_bytesused : ℕ

-- The variables of `main`. The rows are the latest first.
pub record Capture : Type 0 where
  pub trace : Trace
  pub vivid_bufs : Slots
  pub vpipe_out_bufs : Slots
  pub vpipe_bufs : Slots
  pub vivid_streaming : Bool
  pub vpipe_cap_streaming : Bool
  pub vpipe_out_streaming : Bool
  pub fp : Option ℕ
  pub vivid_fd : Option ℕ
  pub vpipe_fd : Option ℕ
  pub vivid_dq : V4l2Buffer
  pub vpipe_dq : V4l2Buffer
  pub vivid_ns : ℕ
  pub vpipe_ns : ℕ
  pub rows : List FrameRow

abbrev pub start_capturing : Capture
start_capturing = record {
  trace = [];
  vivid_bufs = λ _. unused_buffer;
  vpipe_out_bufs = λ _. unused_buffer;
  vpipe_bufs = λ _. unused_buffer;
  vivid_streaming = false;
  vpipe_cap_streaming = false;
  vpipe_out_streaming = false;
  fp = none;
  vivid_fd = none;
  vpipe_fd = none;
  vivid_dq = empty_buffer memory_mmap 0;
  vpipe_dq = empty_buffer memory_mmap 0;
  vivid_ns = 0;
  vpipe_ns = 0;
  rows = [];
}

-- An ioctl that must succeed.
abbrev pub ask_device : Kernel → Call → Capture → Outcome Capture
ask_device kernel call r = must_succeed kernel call r.trace (λ t. record r { trace = t })

abbrev pub vivid_reply : Capture → Trace → Option ℕ → Outcome Capture
vivid_reply r t none = cleanup (record r { trace = t })
vivid_reply r t (some fd) =
    next (record r { trace = obtained (descriptor fd) ∷ t; vivid_fd = some fd })

abbrev pub open_vivid : Kernel → Settings → Capture → Outcome Capture
open_vivid kernel s r =
    let after : Trace = asked (open_device s.vivid) ∷ r.trace in
    vivid_reply r after (kernel.hands_out after)

abbrev pub vpipe_reply : Capture → Trace → Option ℕ → Outcome Capture
vpipe_reply r t none = cleanup (record r { trace = t })
vpipe_reply r t (some fd) =
    next (record r { trace = obtained (descriptor fd) ∷ t; vpipe_fd = some fd })

abbrev pub open_vpipe : Kernel → Settings → Capture → Outcome Capture
open_vpipe kernel s r =
    let after : Trace = asked (open_device s.vpipe) ∷ r.trace in
    vpipe_reply r after (kernel.hands_out after)

abbrev pub set_formats : Kernel → Capture → Outcome Capture
set_formats kernel r =
    ask_device kernel (vpipe_set_format r.vivid_fd capture 640 480 pix_fmt_grey) r
    then (λ r. ask_device kernel (vpipe_set_format r.vpipe_fd output 640 480 pix_fmt_grey) r)
    then (λ r. ask_device kernel (vpipe_set_format r.vpipe_fd capture 640 480 pix_fmt_grey) r)

abbrev pub check_sizes : Kernel → Capture → Outcome Capture
check_sizes kernel r =
    let vivid_size = vpipe_get_sizeimage kernel r.vivid_fd capture r.trace in
    let out_size = vpipe_get_sizeimage kernel r.vpipe_fd output vivid_size.0 in
    if vivid_size.1 == 0 || out_size.1 == 0
    then cleanup (record r { trace = out_size.0 })
    else next (record r { trace = out_size.0 })

unfoldable pub request_vivid : Kernel → Capture → Outcome Capture
unfolding vpipe_request_mmap_buffers
request_vivid kernel r =
    lift (λ s. record r { trace = s.0; vivid_bufs = s.1 })
      (vpipe_request_mmap_buffers kernel r.vivid_fd capture buffer_count (r.trace, r.vivid_bufs))

unfoldable pub request_vpipe : Kernel → Capture → Outcome Capture
unfolding vpipe_request_mmap_buffers
request_vpipe kernel r =
    lift (λ s. record r { trace = s.0; vpipe_bufs = s.1 })
      (vpipe_request_mmap_buffers kernel r.vpipe_fd capture buffer_count (r.trace, r.vpipe_bufs))

-- The OUTPUT queue of vpipe: its buffers are imported, or mapped after a second request.
unfoldable pub request_fed : Kernel → Transport → Capture → Outcome Capture
unfolding vpipe_request_mmap_buffers
request_fed kernel transport_dmabuf r =
    ask_device kernel (request_buffers r.vpipe_fd output memory_dmabuf buffer_count) r
request_fed kernel transport_mmap r =
    ask_device kernel (request_buffers r.vpipe_fd output memory_mmap buffer_count) r then (λ r.
      lift (λ s. record r { trace = s.0; vpipe_out_bufs = s.1 })
        (vpipe_request_mmap_buffers kernel r.vpipe_fd output buffer_count
          (r.trace, r.vpipe_out_bufs)))

abbrev pub file_reply : Capture → Trace × Option ℕ → Outcome Capture
file_reply r (t, none) = cleanup (record r { trace = t })
file_reply r (t, some fp) = next (record r { trace = t; fp = some fp })

unfoldable pub open_frame_rows : Kernel → Settings → Capture → Outcome Capture
unfolding vpipe_open_csv
open_frame_rows kernel s r = file_reply r (vpipe_open_csv kernel s.csv r.trace)

-- `export_dmabuf` of the buffer `i`; a negative descriptor is refused.
abbrev pub export_slot : Capture → ℕ → Trace → Option ℕ → Outcome Capture
export_slot r i t none = cleanup (record r {
  trace = t;
  vivid_bufs = put_slot r.vivid_bufs i (record (r.vivid_bufs i) { dmabuf_fd = none });
})
export_slot r i t (some fd) = next (record r {
  trace = obtained (descriptor fd) ∷ t;
  vivid_bufs = put_slot r.vivid_bufs i (record (r.vivid_bufs i) { dmabuf_fd = some fd });
})

abbrev pub export_vivid : Kernel → Transport → ℕ → Capture → Outcome Capture
export_vivid kernel transport_mmap i r = next r
export_vivid kernel transport_dmabuf i r =
    let after : Trace = asked (export_buffer r.vivid_fd capture i) ∷ r.trace in
    export_slot r i after (if kernel.succeeds after then kernel.hands_out after else none)

-- The body of the loop before STREAMON.
abbrev pub queue_both : Kernel → Settings → ℕ → Capture → Outcome Capture
queue_both kernel s i r =
    export_vivid kernel s.transport i r
    then (λ r. ask_device kernel (vpipe_queue_mmap_buffer r.vivid_fd capture memory_mmap i none) r)
    then (λ r. ask_device kernel (vpipe_queue_mmap_buffer r.vpipe_fd capture memory_mmap i none) r)

-- VIDIOC_STREAMON of a queue; `put` sets the variable that remembers it.
abbrev pub start_stream :
    Kernel → Option ℕ → QueueType → (Capture → Capture) → Capture → Outcome Capture
start_stream kernel fd type put r =
    let after : Trace = asked (stream_on fd type) ∷ r.trace in
    if kernel.succeeds after
    then next (put (record r { trace = obtained (stream fd type) ∷ after }))
    else cleanup (record r { trace = after })

abbrev pub start_vivid : Kernel → Capture → Outcome Capture
start_vivid kernel r =
    start_stream kernel r.vivid_fd capture (λ r. record r { vivid_streaming = true }) r

abbrev pub start_vpipe_capture : Kernel → Capture → Outcome Capture
start_vpipe_capture kernel r =
    start_stream kernel r.vpipe_fd capture (λ r. record r { vpipe_cap_streaming = true }) r

abbrev pub start_vpipe_output : Kernel → Capture → Outcome Capture
start_vpipe_output kernel r =
    start_stream kernel r.vpipe_fd output (λ r. record r { vpipe_out_streaming = true }) r

-- `main` from `open` to the last STREAMON.
unfoldable pub set_up_capture : Kernel → Settings → Capture → Outcome Capture
unfolding request_vivid request_vpipe request_fed open_frame_rows queue_all
set_up_capture kernel s r =
    open_vivid kernel s r
    then open_vpipe kernel s
    then set_formats kernel
    then check_sizes kernel
    then request_vivid kernel
    then request_vpipe kernel
    then request_fed kernel s.transport
    then open_frame_rows kernel s
    then queue_all (queue_both kernel s) buffer_count 0
    then start_vivid kernel
    then start_vpipe_capture kernel
    then start_vpipe_output kernel
