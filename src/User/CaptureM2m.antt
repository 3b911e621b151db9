-- ===== src/User/CaptureM2m.antt =====
-- user/vpipe-capture-m2m.c: frames of a capture device (vivid) go through vpipe, by DMA-BUF or by a copy.
pub mod Arguments
pub mod Setup
pub mod Inside
pub mod Sound
pub mod Prepared
pub mod Copies
pub mod Prints
pub mod Rows
pub mod Held
pub mod Requested
pub mod Started
pub mod Balance
use vpipe.Base.{
  ℕ, zero, suc, ◌+◌, ◌^◌, ◌-◌, Bool, true, false, not, ◌||◌, Option, none, some, List, [], ◌∷◌, ltb,
  leb, ◌==◌, if◌then◌else◌, u32, get_or, length,
}
use vpipe.Uapi.{cid_src_sequence, cid_algo, cid_threshold}
use vpipe.M2m.{QueueType, output, capture}
use vpipe.User.Calls.{
  Kernel, Trace, asked, obtained, returned, Call, stream, V4l2Buffer, V4l2Memory, memory_mmap,
  memory_dmabuf, empty_buffer, read_clock, copy_memory, set_control, queue_buffer, dequeue_buffer,
  Outcome, next, cleanup, ◌then◌, at_cleanup,
}
use vpipe.User.Queues.{vpipe_unmap_buffers, give_descriptor}
use vpipe.User.Runner.Loop.{give_stream, give_file}
use vpipe.User.CaptureM2m.Arguments.{
  Transport, transport_dmabuf, transport_mmap, Settings, parse_settings,
}
use vpipe.User.CaptureM2m.Setup.{
  buffer_count, FrameRow, Capture, start_capturing, ask_device, set_up_capture,
}

-- DQBUF of the capture device, its time, and the test of its index.
abbrev pub dequeue_vivid : Kernel → Capture → Outcome Capture
dequeue_vivid kernel r =
    let after : Trace = asked (dequeue_buffer r.vivid_fd capture memory_mmap) ∷ r.trace in
    let dq = kernel.dequeued after in
    let timed : Trace = asked read_clock ∷ after in
    if kernel.succeeds after
    then (if leb buffer_count dq.index
        then cleanup (record r { trace = timed; vivid_dq = dq; vivid_ns = kernel.number timed })
        else next (record r { trace = timed; vivid_dq = dq; vivid_ns = kernel.number timed }))
    else cleanup (record r { trace = after })

-- `set_ctrl` three times; the value of a control is given by its 32 bits.
abbrev pub set_controls : Kernel → Settings → Capture → Outcome Capture
set_controls kernel s r =
    ask_device kernel (set_control r.vpipe_fd cid_src_sequence (u32 r.vivid_dq.sequence)) r
    then (λ r. ask_device kernel (set_control r.vpipe_fd cid_algo s.algo_id) r)
    then (λ r. ask_device kernel (set_control r.vpipe_fd cid_threshold s.threshold) r)

-- `copy_len`
abbrev pub copy_length : ℕ → ℕ → ℕ → ℕ
copy_length bytesused from to =
    let most = if ltb from bytesused then from else bytesused in if ltb to most then to else most

-- The captured frame as an OUTPUT buffer.
unfoldable pub feed_output : Kernel → Transport → Capture → Outcome Capture
feed_output kernel transport_dmabuf r =
    let i = r.vivid_dq.index in
    ask_device kernel
      (queue_buffer r.vpipe_fd output (record (empty_buffer memory_dmabuf i) {
        plane_fd = (r.vivid_bufs i).dmabuf_fd;
        bytesused = r.vivid_dq.bytesused;
        length = (r.vivid_bufs i).length;
      }))
      r
feed_output kernel transport_mmap r =
    let i = r.vivid_dq.index in
    let from = r.vivid_bufs i in
    let to = r.vpipe_out_bufs i in
    let n = copy_length r.vivid_dq.bytesused from.length to.length in
    ask_device kernel
      (queue_buffer r.vpipe_fd output
        (record (empty_buffer memory_mmap i) { bytesused = n; length = to.length }))
      (record r { trace = asked (copy_memory to.addr from.addr n) ∷ r.trace })

-- DQBUF of the frame that vpipe has processed, and its time.
abbrev pub dequeue_vpipe : Kernel → Capture → Outcome Capture
dequeue_vpipe kernel r =
    let after : Trace = asked (dequeue_buffer r.vpipe_fd capture memory_mmap) ∷ r.trace in
    let timed : Trace = asked read_clock ∷ after in
    if kernel.succeeds after
    then next (record r {
      trace = timed;
      vpipe_dq = kernel.dequeued after;
      vpipe_ns = kernel.number timed;
    })
    else cleanup (record r { trace = after })

abbrev memory_by : Transport → V4l2Memory
memory_by transport_dmabuf = memory_dmabuf
memory_by transport_mmap = memory_mmap

-- The OUTPUT slot is taken back.
abbrev reclaim_output : Kernel → Transport → Capture → Outcome Capture
reclaim_output kernel mode r =
    ask_device kernel (dequeue_buffer r.vpipe_fd output (memory_by mode)) r

-- The row of the frame `i`.
abbrev pub print_row : ℕ → Capture → Outcome Capture
print_row i r = next (record r {
  rows =
      (record {
        frame = i;
        vivid_sequence = r.vivid_dq.sequence;
        vpipe_sequence = r.vpipe_dq.sequence;
        vivid_dq_ns = r.vivid_ns;
        vpipe_dq_ns = r.vpipe_ns;
        vpipe_bytesused = r.vpipe_dq.bytesused;
      })
      ∷ r.rows;
})

-- The CAPTURE buffers go back to their queues.
abbrev pub requeue : Kernel → Capture → Outcome Capture
requeue kernel r =
    ask_device kernel (queue_buffer r.vpipe_fd capture r.vpipe_dq) r
    then (λ r. ask_device kernel (queue_buffer r.vivid_fd capture r.vivid_dq) r)

-- The body of the main loop.
unfoldable pub capture_frame : Kernel → Settings → ℕ → Capture → Outcome Capture
unfolding feed_output
capture_frame kernel s i r =
    dequeue_vivid kernel r
    then set_controls kernel s
    then feed_output kernel s.transport
    then dequeue_vpipe kernel
    then reclaim_output kernel s.transport
    then print_row i
    then requeue kernel

-- The main loop: the frames `i`, `i + 1`, … .
unfoldable pub capture_frames : Kernel → Settings → ℕ → ℕ → Capture → Outcome Capture
unfolding capture_frame
capture_frames kernel s zero i r = next r
capture_frames kernel s (suc n) i r =
    capture_frame kernel s i r then (λ r'. capture_frames kernel s n (i + 1) r')

-- VIDIOC_STREAMOFF, on a device that is open.
abbrev pub stop_stream : Option ℕ → Bool → QueueType → Trace → Trace
stop_stream none streaming type trace = trace
stop_stream (some fd) streaming type trace = give_stream streaming (some fd) type trace

-- The label `cleanup`.
unfoldable pub clean_up_capture : Capture → Trace
unfolding vpipe_unmap_buffers
clean_up_capture r =
    let out_off = stop_stream r.vpipe_fd r.vpipe_out_streaming output r.trace in
    let cap_off = stop_stream r.vpipe_fd r.vpipe_cap_streaming capture out_off in
    let vivid_off = stop_stream r.vivid_fd r.vivid_streaming capture cap_off in
    let closed = give_file r.fp vivid_off in
    let unmapped = vpipe_unmap_buffers r.vpipe_bufs buffer_count (
      vpipe_unmap_buffers r.vpipe_out_bufs buffer_count
        (vpipe_unmap_buffers r.vivid_bufs buffer_count closed)) in
    give_descriptor r.vivid_fd (give_descriptor r.vpipe_fd unmapped)

-- `rc`: 0 once all frames are through.
abbrev exit_code : Outcome Capture → ℕ
exit_code (next r) = 0
exit_code (cleanup r) = 1

-- `main` up to the label.
unfoldable pub capture_all : Kernel → Settings → Outcome Capture
unfolding set_up_capture capture_frames
capture_all kernel s =
    set_up_capture kernel s start_capturing then capture_frames kernel s s.frames 0

-- The whole of it behind the arguments: what is left, and the exit code.
unfoldable pub run_capture : Kernel → Settings → Capture × ℕ
unfolding capture_all clean_up_capture
run_capture kernel s =
    let o = capture_all kernel s in
    let last = at_cleanup o in (record last { trace = clean_up_capture last }, exit_code o)

abbrev pub run_parsed_settings : Kernel → Option Settings → Capture × ℕ
run_parsed_settings kernel none = (start_capturing, 1)
run_parsed_settings kernel (some s) = run_capture kernel s

-- `main`
unfoldable pub capture_m2m_main : Kernel → Settings → List (List ℕ) → Capture × ℕ
unfolding parse_settings run_capture
capture_m2m_main kernel s argv = run_parsed_settings kernel (parse_settings s argv)
