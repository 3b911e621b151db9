-- ===== src/User/CaptureM2m/Balance.antt =====
-- user/vpipe-capture-m2m.c: the program gives back what it has obtained.
use vpipe.Base.{
  ℕ, zero, suc, ◌+◌, ◌≡◌, refl, arith, Bool, true, false, Option, none, some, List, ◌∷◌, leb,
}
use vpipe.M2m.{QueueType, output, capture}
use vpipe.User.Calls.{
  Kernel, Trace, Handle, Call, Outcome, next, cleanup, ◌then◌, asked, memory_mmap, dequeue_buffer,
  Ends, Ends-then, Ends-if, at_cleanup, must_succeed-Ends,
}
use vpipe.User.Calls.Balance.{taken, given_back}
use vpipe.User.Queues.{vpipe_unmap_buffers, give_descriptor}
use vpipe.User.Queues.Mapped.{
  Gives, Grants, buffer_held, give_descriptor-Gives, vpipe_unmap_buffers-Gives, unused-held,
}
use vpipe.User.Runner.Loop.{give_file}
use vpipe.User.Runner.Loop.Balance.{give_file-Gives}
use vpipe.User.CaptureM2m.{
  dequeue_vivid, set_controls, feed_output, dequeue_vpipe, print_row, requeue, capture_frame,
  capture_frames, stop_stream, clean_up_capture, capture_all, run_capture, capture_m2m_main,
  run_parsed_settings,
}
use vpipe.User.CaptureM2m.Arguments.{
  Transport, transport_dmabuf, transport_mmap, Settings, parse_settings,
}
use vpipe.User.CaptureM2m.Setup.{buffer_count, Capture, start_capturing, ask_device}
use vpipe.User.CaptureM2m.Held.{capture_held, Kept, running, Idle10}
use vpipe.User.CaptureM2m.Started.{set_up_capture-Kept}

module _ (weight : Handle → ℕ) where
  abbrev Stays : Outcome Capture → Type 0
  Stays o = Ends (Kept weight) (Kept weight) o

  both :
      (o : Outcome Capture) (step : Capture → Outcome Capture)
      → Stays o
      → ((r : Capture) → Kept weight r → Stays (step r))
      → Stays (o then step)
  both o step ends keep = Ends-then (Kept weight) (Kept weight) (Kept weight) o step ends keep

  module _ (kernel : Kernel) where
    ask_device-Kept : (call : Call) (r : Capture) → Kept weight r → Stays (ask_device kernel call r)
    unfolding capture_held
    ask_device-Kept call r kept =
        must_succeed-Ends (Kept weight) (Kept weight) kernel call r.trace
          (λ t. record r { trace = t }) kept kept

    dequeue_vivid-Kept : (r : Capture) → Kept weight r → Stays (dequeue_vivid kernel r)
    unfolding capture_held
    dequeue_vivid-Kept r kept =
        let after : Trace = asked (dequeue_buffer r.vivid_fd capture memory_mmap) ∷ r.trace in
        Ends-if (Kept weight) (Kept weight) (kernel.succeeds after) _ _
          (λ _.
            Ends-if (Kept weight) (Kept weight) (leb buffer_count (kernel.dequeued after).index) _ _
              (λ _. kept) (λ _. kept))
          (λ _. kept)

    set_controls-Kept :
        (s : Settings) (r : Capture) → Kept weight r → Stays (set_controls kernel s r)
    set_controls-Kept s r kept =
        both _ _ (both _ _ (ask_device-Kept _ r kept) (λ r k. ask_device-Kept _ r k))
          (λ r k. ask_device-Kept _ r k)

    feed_output-Kept :
        (mode : Transport) (r : Capture) → Kept weight r → Stays (feed_output kernel mode r)
    unfolding feed_output capture_held
    feed_output-Kept transport_dmabuf r kept = ask_device-Kept _ r kept
    feed_output-Kept transport_mmap r kept = ask_device-Kept _ (record r { trace = _ }) kept

    dequeue_vpipe-Kept : (r : Capture) → Kept weight r → Stays (dequeue_vpipe kernel r)
    unfolding capture_held
    dequeue_vpipe-Kept r kept =
        Ends-if (Kept weight) (Kept weight)
          (kernel.succeeds (asked (dequeue_buffer r.vpipe_fd capture memory_mmap) ∷ r.trace)) _ _
          (λ _. kept) (λ _. kept)

    print_row-Kept : (i : ℕ) (r : Capture) → Kept weight r → Stays (print_row i r)
    unfolding capture_held
    print_row-Kept i r kept = kept

    requeue-Kept : (r : Capture) → Kept weight r → Stays (requeue kernel r)
    requeue-Kept r kept = both _ _ (ask_device-Kept _ r kept) (λ r kept. ask_device-Kept _ r kept)

    capture_frame-Kept :
        (s : Settings) (i : ℕ) (r : Capture) → Kept weight r → Stays (capture_frame kernel s i r)
    unfolding capture_frame
    capture_frame-Kept s i r kept =
        both _ _
          (both _ _
            (both _ _
              (both _ _
                (both _ _ (both _ _ (dequeue_vivid-Kept r kept) (set_controls-Kept s))
                  (feed_output-Kept s.transport))
                dequeue_vpipe-Kept)
              (λ r kept. ask_device-Kept _ r kept))
            (print_row-Kept i))
          requeue-Kept

    capture_frames-Kept :
        (s : Settings) (n i : ℕ) (r : Capture)
        → Kept weight r
        → Stays (capture_frames kernel s n i r)
    unfolding capture_frames
    capture_frames-Kept s zero i r kept = kept
    capture_frames-Kept s (suc n) i r kept =
        both _ _ (capture_frame-Kept s i r kept) (λ r kept. capture_frames-Kept s n (i + 1) r kept)

  stop_stream-Gives :
      (fd : Option ℕ) (streaming : Bool) (type : QueueType) (trace : Trace)
      → Gives weight trace (stop_stream fd streaming type trace) (running weight fd streaming type)
  stop_stream-Gives none streaming type trace = (refl, omega arith)
  stop_stream-Gives (some fd) false type trace = (refl, omega arith)
  stop_stream-Gives (some fd) true type trace = (refl, omega arith)

  clean_up_capture-Gives :
      (r : Capture) → Gives weight r.trace (clean_up_capture r) (capture_held weight r)
  unfolding clean_up_capture capture_held
  clean_up_capture-Gives r =
      let t1 : Trace = stop_stream r.vpipe_fd r.vpipe_out_streaming output r.trace in
      let t2 : Trace = stop_stream r.vpipe_fd r.vpipe_cap_streaming capture t1 in
      let t3 : Trace = stop_stream r.vivid_fd r.vivid_streaming capture t2 in
      let t4 : Trace = give_file r.fp t3 in
      let t5 : Trace = vpipe_unmap_buffers r.vivid_bufs buffer_count t4 in
      let t6 : Trace = vpipe_unmap_buffers r.vpipe_out_bufs buffer_count t5 in
      let t7 : Trace = vpipe_unmap_buffers r.vpipe_bufs buffer_count t6 in
      let t8 : Trace = give_descriptor r.vpipe_fd t7 in
      let (e1, d1) = stop_stream-Gives r.vpipe_fd r.vpipe_out_streaming output r.trace in
      let (e2, d2) = stop_stream-Gives r.vpipe_fd r.vpipe_cap_streaming capture t1 in
      let (e3, d3) = stop_stream-Gives r.vivid_fd r.vivid_streaming capture t2 in
      let (e4, d4) = give_file-Gives weight r.fp t3 in
      let (e5, d5) = vpipe_unmap_buffers-Gives weight r.vivid_bufs buffer_count t4 in
      let (e6, d6) = vpipe_unmap_buffers-Gives weight r.vpipe_out_bufs buffer_count t5 in
      let (e7, d7) = vpipe_unmap_buffers-Gives weight r.vpipe_bufs buffer_count t6 in
      let (e8, d8) = give_descriptor-Gives weight r.vpipe_fd t7 in
      let (e9, d9) = give_descriptor-Gives weight r.vivid_fd t8 in (omega arith, omega arith)

  start-Kept : Kept weight start_capturing × Idle10 weight start_capturing
  unfolding capture_held buffer_held
  start-Kept = (
    omega (arith, unused-held weight buffer_count 0),
    (
      (
        (((((((refl, refl), refl), λ j _. refl), refl), λ j _. refl), λ j _. refl), λ j _. refl),
        refl,
      ),
      refl,
    ),
  )

  label : (o : Outcome Capture) → Stays o → Kept weight (at_cleanup o)
  label (next r) kept = kept
  label (cleanup r) kept = kept

  module _ (kernel : Kernel) where
    run_capture-Balances :
        (s : Settings)
        → ((fd : Option ℕ) (type : QueueType) → Grants kernel fd type buffer_count)
        → taken weight (run_capture kernel s).0.trace
          ≡ given_back weight (run_capture kernel s).0.trace
    unfolding run_capture capture_all
    run_capture-Balances s grants =
        let kept = label (capture_all kernel s) (
          both _ _ (set_up_capture-Kept weight kernel s start_capturing grants start-Kept)
            (capture_frames-Kept kernel s s.frames 0)) in
        let (e, d) = clean_up_capture-Gives (at_cleanup (capture_all kernel s)) in omega arith

-- Every handle that `main` obtains it gives back, as often as it has obtained it, whichever argument is
-- wrong and whichever call fails, if the drivers grant no more buffers than are asked for.
pub capture_m2m_main-Balances :
    (weight : Handle → ℕ) (kernel : Kernel) (s : Settings) (argv : List (List ℕ))
    → ((fd : Option ℕ) (type : QueueType) → Grants kernel fd type buffer_count)
    → taken weight (capture_m2m_main kernel s argv).0.trace
      ≡ given_back weight (capture_m2m_main kernel s argv).0.trace
unfolding capture_m2m_main
capture_m2m_main-Balances weight kernel s argv grants = parsed (parse_settings s argv)
  where
    parsed :
        (o : Option Settings)
        → taken weight (run_parsed_settings kernel o).0.trace
          ≡ given_back weight (run_parsed_settings kernel o).0.trace
    parsed none = refl
    parsed (some s') = run_capture-Balances weight kernel s' grants
