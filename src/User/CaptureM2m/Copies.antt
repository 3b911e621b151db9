-- ===== src/User/CaptureM2m/Copies.antt =====
-- user/vpipe-capture-m2m.c: the whole program copies and queues inside of its buffers.
use vpipe.Base.{
  ℕ, zero, suc, ◌+◌, ◌≤◌, ◌<◌, ◌≡◌, refl, arith, false, true, leb, u32, Bool, Option, none, some,
  List, ◌∷◌,
}
use vpipe.Uapi.{cid_src_sequence, cid_algo, cid_threshold}
use vpipe.M2m.{QueueType, output, capture}
use vpipe.User.Calls.{
  Kernel, Trace, Call, asked, copy_memory, memory_mmap, dequeue_buffer, read_clock, V4l2Buffer,
  set_control, queue_buffer, Outcome, next, cleanup, ◌then◌, at_cleanup, Ends, Ends-then, Ends-if,
  must_succeed-Ends,
}
use vpipe.User.Queues.{Slots, vpipe_unmap_buffers, give_descriptor}
use vpipe.User.Queues.Mapped.{Grants}
use vpipe.User.Quiet.{fills, vpipe_unmap_buffers-keeps, give_descriptor-keeps}
use vpipe.User.Runner.Loop.{give_file}
use vpipe.User.CaptureM2m.{
  dequeue_vivid, set_controls, copy_length, feed_output, dequeue_vpipe, print_row, requeue,
  capture_frame, capture_frames, stop_stream, clean_up_capture, capture_all, run_capture,
  run_parsed_settings, capture_m2m_main,
}
use vpipe.User.CaptureM2m.Arguments.{
  Transport, transport_dmabuf, transport_mmap, Settings, parse_settings,
}
use vpipe.User.CaptureM2m.Setup.{buffer_count, Capture, start_capturing, ask_device}
use vpipe.User.CaptureM2m.Inside.{Covers-cons, Covers-less, FeedsInside, FeedsInside-IsQuiet}
use vpipe.User.CaptureM2m.Sound.{Sound, Fed, Safe, asks-Sound, both, ask_device-Sound}
use vpipe.User.CaptureM2m.Prepared.{set_up_capture-Sound}

copy_length-least :
    (bytesused from to : ℕ)
    → (copy_length bytesused from to ≤ from) × (copy_length bytesused from to ≤ to)
copy_length-least bytesused from to = ground arith

-- A frame was dequeued that has a slot of the arrays.
abbrev Dequeued : Capture → Type 0
Dequeued r = Sound r × (r.vivid_dq.index < buffer_count)

module _ (kernel : Kernel) where
  dequeue_vivid-Sound : (r : Capture) → Sound r → Ends Dequeued Fed (dequeue_vivid kernel r)
  dequeue_vivid-Sound r sound =
      let call : Call = dequeue_buffer r.vivid_fd capture memory_mmap in
      let after : Trace = asked call ∷ r.trace in
      let asked-Sound = asks-Sound r call refl sound in
      let timed-Sound = asks-Sound (record r { trace = after }) read_clock refl asked-Sound in
      let n = (kernel.dequeued after).index in
      Ends-if Dequeued Fed (kernel.succeeds after) _ _
        (λ _.
          Ends-if Dequeued Fed (leb buffer_count n) _ _ (λ _. timed-Sound.0)
            (λ e. (timed-Sound, ground (arith))))
        (λ _. asked-Sound.0)

  ask_device-Dequeued :
      (call : Call) (r : Capture)
      → fills call ≡ false
      → Dequeued r
      → Ends Dequeued Fed (ask_device kernel call r)
  ask_device-Dequeued call r q (sound, small) =
      let after = asks-Sound r call q sound in
      must_succeed-Ends Dequeued Fed kernel call r.trace (λ t. record r { trace = t })
        (after, small) after.0

  set_controls-Dequeued :
      (s : Settings) (r : Capture) → Dequeued r → Ends Dequeued Fed (set_controls kernel s r)
  set_controls-Dequeued s r h =
      Ends-then Dequeued Dequeued Fed
        (ask_device kernel (set_control r.vpipe_fd cid_src_sequence (u32 r.vivid_dq.sequence)) r
          then (λ r. ask_device kernel (set_control r.vpipe_fd cid_algo s.algo_id) r))
        (λ r. ask_device kernel (set_control r.vpipe_fd cid_threshold s.threshold) r)
        (Ends-then Dequeued Dequeued Fed
          (ask_device kernel (set_control r.vpipe_fd cid_src_sequence (u32 r.vivid_dq.sequence)) r)
          (λ r. ask_device kernel (set_control r.vpipe_fd cid_algo s.algo_id) r)
          (ask_device-Dequeued _ r refl h)
          (λ r h. ask_device-Dequeued (set_control r.vpipe_fd cid_algo s.algo_id) r refl h))
        (λ r h. ask_device-Dequeued (set_control r.vpipe_fd cid_threshold s.threshold) r refl h)

  -- The QBUF of a slot of the arrays.
  queue_slot-Sound :
      (r : Capture) (fd : Option ℕ) (b : V4l2Buffer)
      → b.index < buffer_count
      → Sound r
      → Safe (ask_device kernel (queue_buffer fd output b) r)
  unfolding Safe
  queue_slot-Sound r fd b small (h, (from, to)) =
      let event = asked (queue_buffer fd output b) in
      must_succeed-Ends Sound Fed kernel (queue_buffer fd output b) r.trace
        (λ t. record r { trace = t })
        ((small, h), ((λ j. Covers-cons event _ _ _ (from j)), λ j. Covers-cons event _ _ _ (to j)))
        (small, h)

  feed_output-Sound :
      (mode : Transport) (r : Capture) → Dequeued r → Safe (feed_output kernel mode r)
  unfolding feed_output
  feed_output-Sound transport_dmabuf r (sound, small) = queue_slot-Sound r r.vpipe_fd _ small sound
  feed_output-Sound transport_mmap r ((h, (from, to)), small) =
      let i = r.vivid_dq.index in
      let n =
        copy_length r.vivid_dq.bytesused (r.vivid_bufs i).length (r.vpipe_out_bufs i).length in
      let (le, le') = copy_length-least r.vivid_dq.bytesused (r.vivid_bufs i).length _ in
      let event = asked (copy_memory (r.vpipe_out_bufs i).addr (r.vivid_bufs i).addr n) in
      queue_slot-Sound (record r { trace = event ∷ r.trace }) r.vpipe_fd _ small
        (
          ((Covers-less r.trace _ n _ le' (to i), Covers-less r.trace _ n _ le (from i)), h),
          ((λ j. Covers-cons event _ _ _ (from j)), λ j. Covers-cons event _ _ _ (to j)),
        )

  dequeue_vpipe-Sound : (r : Capture) → Sound r → Safe (dequeue_vpipe kernel r)
  unfolding Safe
  dequeue_vpipe-Sound r sound =
      let call : Call = dequeue_buffer r.vpipe_fd capture memory_mmap in
      let after = asks-Sound r call refl sound in
      Ends-if Sound Fed (kernel.succeeds (asked call ∷ r.trace)) _ _
        (λ _. asks-Sound (record r { trace = asked call ∷ r.trace }) read_clock refl after)
        (λ _. after.0)

  print_row-Sound : (i : ℕ) (r : Capture) → Sound r → Safe (print_row i r)
  unfolding Safe
  print_row-Sound i r sound = sound

  requeue-Sound : (r : Capture) → Sound r → Safe (requeue kernel r)
  requeue-Sound r sound =
      both _ _ (ask_device-Sound kernel _ r refl sound) (λ r s. ask_device-Sound kernel _ r refl s)

  feed-Sound :
      (s : Settings) (r : Capture)
      → Sound r
      → Safe (dequeue_vivid kernel r then set_controls kernel s then feed_output kernel s.transport)
  unfolding Safe
  feed-Sound s r sound =
      Ends-then Dequeued Sound Fed (dequeue_vivid kernel r then set_controls kernel s)
        (feed_output kernel s.transport)
        (Ends-then Dequeued Dequeued Fed (dequeue_vivid kernel r) (set_controls kernel s)
          (dequeue_vivid-Sound r sound) (set_controls-Dequeued s))
        (feed_output-Sound s.transport)

  capture_frame-Sound :
      (s : Settings) (i : ℕ) (r : Capture) → Sound r → Safe (capture_frame kernel s i r)
  unfolding capture_frame
  capture_frame-Sound s i r sound =
      both _ _
        (both _ _
          (both _ _ (both _ _ (feed-Sound s r sound) dequeue_vpipe-Sound)
            (λ r h. ask_device-Sound kernel _ r refl h))
          (print_row-Sound i))
        requeue-Sound

  capture_frames-Sound :
      (s : Settings) (n i : ℕ) (r : Capture) → Sound r → Safe (capture_frames kernel s n i r)
  unfolding capture_frames Safe
  capture_frames-Sound s zero i r sound = sound
  capture_frames-Sound s (suc n) i r sound =
      both (capture_frame kernel s i r) (capture_frames kernel s n (i + 1))
        (capture_frame-Sound s i r sound) (λ r h. capture_frames-Sound s n (i + 1) r h)

-- What is given back copies nothing.
stop_stream-Fed :
    (fd : Option ℕ) (streaming : Bool) (type : QueueType) (trace : Trace)
    → FeedsInside trace
    → FeedsInside (stop_stream fd streaming type trace)
stop_stream-Fed none streaming type trace h = h
stop_stream-Fed (some fd) false type trace h = h
stop_stream-Fed (some fd) true type trace h = h

give_file-Fed :
    (fp : Option ℕ) (trace : Trace) → FeedsInside trace → FeedsInside (give_file fp trace)
give_file-Fed none trace h = h
give_file-Fed (some fp) trace h = h

clean_up_capture-Fed : (kernel : Kernel) (r : Capture) → Fed r → FeedsInside (clean_up_capture r)
unfolding clean_up_capture
clean_up_capture-Fed kernel r h = closed r.vivid_fd _ (
    closed r.vpipe_fd _ (
      unmapped r.vpipe_bufs _ (
        unmapped r.vpipe_out_bufs _ (
          unmapped r.vivid_bufs _ (
            give_file-Fed r.fp _ (
              stop_stream-Fed r.vivid_fd r.vivid_streaming capture _ (
                stop_stream-Fed r.vpipe_fd r.vpipe_cap_streaming capture _
                  (stop_stream-Fed r.vpipe_fd r.vpipe_out_streaming output r.trace h))))))))
  where
    closed : (fd : Option ℕ) (t : Trace) → FeedsInside t → FeedsInside (give_descriptor fd t)
    closed = give_descriptor-keeps FeedsInside FeedsInside-IsQuiet kernel

    unmapped :
        (b : Slots) (t : Trace) → FeedsInside t → FeedsInside (vpipe_unmap_buffers b buffer_count t)
    unmapped b t = vpipe_unmap_buffers-keeps FeedsInside FeedsInside-IsQuiet kernel b buffer_count t

label-Fed : (o : Outcome Capture) → Safe o → Fed (at_cleanup o)
unfolding Safe
label-Fed (next r) h = h.0
label-Fed (cleanup r) h = h

run_capture-Fed :
    (kernel : Kernel) (s : Settings)
    → ((fd : Option ℕ) (type : QueueType) → Grants kernel fd type buffer_count)
    → Fed (run_capture kernel s).0
unfolding run_capture capture_all
run_capture-Fed kernel s grants = clean_up_capture-Fed kernel (at_cleanup (capture_all kernel s)) (
    label-Fed (capture_all kernel s) (
      both _ _ (set_up_capture-Sound kernel grants s start_capturing (tt, ((λ j. refl), λ j. refl)))
        (capture_frames-Sound kernel s s.frames 0)))

-- If REQBUFS grants at most the 4 buffers that are asked for, as many as the arrays have entries, and
-- whatever the drivers answer otherwise: each copy of a frame is inside of a mapping that was obtained
-- before, both where it reads and where it writes (or it copies nothing); and each buffer that QUERYBUF asks
-- about, whose mapping is then stored in its entry of an array, and each OUTPUT buffer that is queued has an
-- index below the number of the entries.
pub capture_m2m_main-FeedsInside :
    (kernel : Kernel) (s : Settings) (argv : List (List ℕ))
    → ((fd : Option ℕ) (type : QueueType) → Grants kernel fd type buffer_count)
    → FeedsInside (capture_m2m_main kernel s argv).0.trace
unfolding capture_m2m_main
capture_m2m_main-FeedsInside kernel s argv grants = parsed (parse_settings s argv)
  where
    parsed : (o : Option Settings) → FeedsInside (run_parsed_settings kernel o).0.trace
    parsed none = tt
    parsed (some s') = run_capture-Fed kernel s' grants
