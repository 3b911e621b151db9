-- ===== src/User/Runner/Loop/Balance.antt =====
-- user/vpipe-vcam-runner.c: `run_one` gives back what it has obtained.
use vpipe.Base.{
  ℕ, zero, suc, ◌≡◌, refl, arith, Bool, true, false, Option, none, some, List, [], ◌∷◌, ◌*◌, ◌&&◌,
  ltb, if◌then◌else◌,
}
use vpipe.M2m.{QueueType, output, capture}
use vpipe.User.Calls.{
  Kernel, unused_buffer, Trace, Handle, Outcome, next, cleanup, ◌then◌, Always, Always-then,
  Always-if, at_cleanup, asked, obtained, file, heap, alloc,
}
use vpipe.User.Calls.Balance.{taken, given_back, held}
use vpipe.User.Queues.{vpipe_unmap_buffers, give_descriptor}
use vpipe.User.Queues.Mapped.{
  Gives, buffer_held, give_descriptor-Gives, vpipe_unmap_buffers-Gives, unused-held,
}
use vpipe.User.Crc.{CrcTable}
use vpipe.User.Runner.Run.{
  SourceKind, src_fixture, src_vcam, BufferKind, buf_mmap, buf_dmabuf, Config, Run, ask, start_run,
  out_depth,
}
use vpipe.User.Runner.Run.Balance.{Owned, With, Unset8, run_held, outputs_held, stream_held}
use vpipe.User.Runner.Run.Held.{GrantsAll, set_up-Owned}
use vpipe.User.Runner.Submit.{
  pace, note_time, fill_output, queue_output, submit_output, count_submitted, prefill, interval_ns,
}
use vpipe.User.Runner.Loop.{
  note_occupancy, dequeue_capture, read_meta, check_frame, requeue_capture, dequeue_output,
  resubmit, one_frame, drain, give_stream, give_file, give_heap, give_outputs, clean_up, mark_ok,
  measure, run_allocated, run_one,
}

read_meta-Gives :
    (weight : Handle → ℕ) (kernel : Kernel) (fd : Option ℕ) (trace : Trace)
    → Gives weight trace (read_meta kernel fd trace).0 0
read_meta-Gives weight kernel none trace = (refl, omega arith)
read_meta-Gives weight kernel (some fd) trace = (refl, omega arith)

module _ (weight : Handle → ℕ) (cfg : Config) (kernel : Kernel) where
  note_time-Owned :
      (buffer : BufferKind) (n interval : ℕ) (r : Run)
      → Owned weight cfg buffer r
      → Owned weight cfg buffer (note_time kernel cfg n (pace kernel interval r))
  unfolding run_held
  note_time-Owned buffer n interval r owned = ground arith

  fill_output-Owned :
      (buffer : BufferKind) (source : SourceKind) (n i : ℕ) (r : Run)
      → Owned weight cfg buffer r
      → Owned weight cfg buffer (fill_output kernel source n i r)
  unfolding run_held fill_output
  fill_output-Owned buffer src_vcam n i r owned = owned
  fill_output-Owned buffer src_fixture n i r owned = omega arith

  asked-Owned :
      (buffer : BufferKind) (call : _) (r : Run)
      → Owned weight cfg buffer r
      → Always (Owned weight cfg buffer) (ask kernel call r)
  unfolding run_held
  asked-Owned buffer call r owned = ground arith

  queue_output-Owned :
      (buffer : BufferKind) (n i : ℕ) (r : Run)
      → Owned weight cfg buffer r
      → Always (Owned weight cfg buffer) (queue_output kernel cfg buffer n i r)
  unfolding queue_output
  queue_output-Owned buf_dmabuf n i r owned = asked-Owned buf_dmabuf _ r owned
  queue_output-Owned buf_mmap n i r owned =
      asked-Owned buf_mmap _ (fill_output kernel cfg.source n i r)
        (fill_output-Owned buf_mmap cfg.source n i r owned)

  module _ (buffer : BufferKind) where
    abbrev Own : Run → Type 0
    Own = Owned weight cfg buffer

    both :
        (o : Outcome Run) (step : Run → Outcome Run)
        → Always Own o
        → ((r : Run) → Own r → Always Own (step r))
        → Always Own (o then step)
    both o step all keep = Always-then Own Own o step (λ r h. h) all keep

    count_submitted-Owned : (r : Run) → Own r → Always Own (count_submitted r)
    unfolding run_held
    count_submitted-Owned r owned = owned

    submit_output-Owned :
        (n i : ℕ) (r : Run)
        → Own r
        → Always Own (submit_output kernel cfg buffer n i r then count_submitted)
    unfolding submit_output
    submit_output-Owned n i r owned =
        both _ count_submitted
          (queue_output-Owned buffer n i _ (note_time-Owned buffer n (interval_ns cfg) r owned))
          (λ s h. count_submitted-Owned s h)

    prefill-Owned :
        (depth fuel : ℕ) (r : Run) → Own r → Always Own (prefill kernel cfg buffer depth fuel r)
    unfolding prefill
    prefill-Owned depth zero r owned = owned
    prefill-Owned depth (suc fuel) r owned =
        Always-if Own (ltb r.submitted cfg.frames && ltb r.submitted depth) _ (next r)
          (λ _.
            both _ (λ s. prefill kernel cfg buffer depth fuel s)
              (submit_output-Owned r.submitted r.submitted r owned)
              (λ s h. prefill-Owned depth fuel s h))
          (λ _. owned)

    dequeue_capture-Owned :
        (r : Run) → Own r → Always Own (dequeue_capture kernel cfg (note_occupancy r))
    unfolding run_held
    dequeue_capture-Owned r owned = ground arith

    check_frame-Owned : (r : Run) → Own r → Own (check_frame kernel cfg r)
    unfolding check_frame run_held
    check_frame-Owned r owned =
        let (e, e') = read_meta-Gives weight kernel r.meta_fd r.trace in omega arith

    dequeue_output-Owned : (r : Run) → Own r → Always Own (dequeue_output kernel buffer r)
    unfolding run_held
    dequeue_output-Owned r owned = ground arith

    resubmit-Owned : (r : Run) → Own r → Always Own (resubmit kernel cfg buffer r)
    unfolding resubmit
    resubmit-Owned r owned =
        Always-if Own (ltb r.submitted cfg.frames) _ (next r)
          (λ _. submit_output-Owned r.submitted r.out_dq.index r owned) (λ _. owned)

    one_frame-Owned : (r : Run) → Own r → Always Own (one_frame kernel cfg buffer r)
    unfolding one_frame
    one_frame-Owned r owned =
        both _ (resubmit kernel cfg buffer)
          (both _ (dequeue_output kernel buffer)
            (both _ (λ s. requeue_capture kernel (check_frame kernel cfg s))
              (dequeue_capture-Owned r owned)
              (λ s h. asked-Owned buffer _ (check_frame kernel cfg s) (check_frame-Owned s h)))
            (λ s h. dequeue_output-Owned s h))
          (λ s h. resubmit-Owned s h)

    drain-Owned : (fuel : ℕ) (r : Run) → Own r → Always Own (drain kernel cfg buffer fuel r)
    unfolding drain
    drain-Owned zero r owned = owned
    drain-Owned (suc fuel) r owned =
        Always-if Own (ltb r.completed cfg.frames) _ (next r)
          (λ _.
            both _ (λ s. drain kernel cfg buffer fuel s) (one_frame-Owned r owned)
              (λ s h. drain-Owned fuel s h))
          (λ _. owned)

-- What is given back at the label, one kind after the other.
module _ (weight : Handle → ℕ) where
  give_stream-Gives :
      (cfg : Config) (buffer : BufferKind) (streaming : Bool) (fd : Option ℕ) (type : QueueType)
      (trace : Trace)
      → Gives weight trace
          (give_stream streaming fd type trace)
          (stream_held weight cfg buffer streaming fd type)
  give_stream-Gives cfg buffer false fd type trace = (refl, omega arith)
  give_stream-Gives cfg buffer true fd type trace = (refl, omega arith)

  pub give_file-Gives :
      (fp : Option ℕ) (trace : Trace)
      → Gives weight trace (give_file fp trace) (held weight file fp)
  give_file-Gives none trace = (refl, omega arith)
  give_file-Gives (some fp) trace = (refl, omega arith)

  give_heap-Gives :
      (a : Option ℕ) (trace : Trace) → Gives weight trace (give_heap a trace) (held weight heap a)
  give_heap-Gives none trace = (refl, omega arith)
  give_heap-Gives (some a) trace = (refl, omega arith)

  give_outputs-Gives :
      (cfg : Config) (buffer : BufferKind) (r : Run) (trace : Trace)
      → Gives weight trace
          (give_outputs cfg buffer r trace)
          (outputs_held weight cfg buffer buffer r.out_bufs)
  unfolding give_outputs
  give_outputs-Gives cfg buf_dmabuf r trace = (refl, omega arith)
  give_outputs-Gives cfg buf_mmap r trace =
      vpipe_unmap_buffers-Gives weight r.out_bufs cfg.queue_depth trace

  clean_up-Gives :
      (cfg : Config) (buffer : BufferKind) (r : Run)
      → Gives weight r.trace (clean_up cfg buffer r) (run_held weight cfg buffer r)
  unfolding clean_up run_held
  clean_up-Gives cfg buffer r =
      let t1 : Trace = give_stream r.out_streaming r.fd output r.trace in
      let t2 : Trace = give_stream r.cap_streaming r.fd capture t1 in
      let t3 : Trace = give_file r.fp t2 in
      let t4 : Trace = give_descriptor r.meta_fd t3 in
      let t5 : Trace = give_descriptor r.src_fd t4 in
      let t6 : Trace = give_outputs cfg buffer r t5 in
      let t7 : Trace = vpipe_unmap_buffers r.cap_bufs cfg.queue_depth t6 in
      let t8 : Trace = give_descriptor r.fd t7 in
      let (e1, d1) = give_stream-Gives cfg buffer r.out_streaming r.fd output r.trace in
      let (e2, d2) = give_stream-Gives cfg buffer r.cap_streaming r.fd capture t1 in
      let (e3, d3) = give_file-Gives r.fp t2 in
      let (e4, d4) = give_descriptor-Gives weight r.meta_fd t3 in
      let (e5, d5) = give_descriptor-Gives weight r.src_fd t4 in
      let (e6, d6) = give_outputs-Gives cfg buffer r t5 in
      let (e7, d7) = vpipe_unmap_buffers-Gives weight r.cap_bufs cfg.queue_depth t6 in
      let (e8, d8) = give_descriptor-Gives weight r.fd t7 in
      let (e9, d9) = give_heap-Gives r.lat t8 in (omega arith, omega arith)

module _ (weight : Handle → ℕ) (kernel : Kernel) (cfg : Config) where
  outputs-unused :
      (buffer : BufferKind) → outputs_held weight cfg buffer buffer (λ _. unused_buffer) ≡ 0
  outputs-unused buf_mmap = unused-held weight cfg.queue_depth 0
  outputs-unused buf_dmabuf = refl

  measure-Owned :
      (buffer : BufferKind) (csv : List ℕ) (depth : ℕ) (r : Run)
      → GrantsAll kernel cfg.queue_depth
      → With weight cfg buffer (Unset8 weight cfg buffer) r
      → Always (Owned weight cfg buffer) (measure kernel cfg buffer csv depth r)
  unfolding measure run_held
  measure-Owned buffer csv depth r grants h =
      both weight cfg kernel buffer _ mark_ok
        (both weight cfg kernel buffer _ (drain kernel cfg buffer cfg.frames)
          (both weight cfg kernel buffer _ (prefill kernel cfg buffer depth depth)
            (set_up-Owned weight cfg buffer kernel csv grants r h)
            (λ s h. prefill-Owned weight cfg kernel buffer depth depth s h))
          (λ s h. drain-Owned weight cfg kernel buffer cfg.frames s h))
        (λ s h. mark_ok-Owned s h)
    where
      mark_ok-Owned :
          (s : Run) → Owned weight cfg buffer s → Always (Owned weight cfg buffer) (mark_ok s)
      mark_ok-Owned s h = h

  Always-label : (P : Run → Type 0) (o : Outcome Run) → Always P o → P (at_cleanup o)
  Always-label P (next s) h = h
  Always-label P (cleanup s) h = h

  start-Owned :
      (buffer : BufferKind) (out_inflight : ℕ) (crc : CrcTable) (lat : ℕ)
      → With weight cfg buffer
          (Unset8 weight cfg buffer)
          (record (start_run cfg buffer out_inflight crc
            (obtained (heap lat) ∷ asked (alloc (cfg.frames * 8)) ∷ [])) { lat = some lat })
  unfolding run_held buffer_held
  start-Owned buffer out_inflight crc lat = (
    omega (arith, outputs-unused buffer, unused-held weight cfg.queue_depth 0),
    ((((((((refl, refl), refl), refl), refl), λ j h. refl), λ j h. refl)), refl),
  )

  run_allocated-Balances :
      (buffer : BufferKind) (csv : List ℕ) (out_inflight : ℕ) (crc : CrcTable) (lat : Option ℕ)
      → GrantsAll kernel cfg.queue_depth
      → taken weight
          (run_allocated kernel cfg buffer csv
            (out_depth cfg buffer out_inflight)
            (start_run cfg buffer out_inflight crc (asked (alloc (cfg.frames * 8)) ∷ []))
            lat).trace
        ≡ given_back weight
            (run_allocated kernel cfg buffer csv
              (out_depth cfg buffer out_inflight)
              (start_run cfg buffer out_inflight crc (asked (alloc (cfg.frames * 8)) ∷ []))
              lat).trace
  unfolding run_allocated
  run_allocated-Balances buffer csv out_inflight crc none grants = refl
  run_allocated-Balances buffer csv out_inflight crc (some lat) grants =
      let depth : ℕ = out_depth cfg buffer out_inflight in
      let begun : Run =
        record (start_run cfg buffer out_inflight crc
          (obtained (heap lat) ∷ asked (alloc (cfg.frames * 8)) ∷ [])) { lat = some lat } in
      let last : Run = at_cleanup (measure kernel cfg buffer csv depth begun) in
      let owned : Owned weight cfg buffer last =
        Always-label (Owned weight cfg buffer) (measure kernel cfg buffer csv depth begun)
          (measure-Owned buffer csv depth begun grants (start-Owned buffer out_inflight crc lat)) in
      let (e, d) = clean_up-Gives weight cfg buffer last in omega arith

-- Every handle that `run_one` obtains (a descriptor, a file, a block, a mapping, a stream) it gives back,
-- as often as it has obtained it: whichever call fails, if the driver grants no more buffers than are
-- asked for.
pub run_one-Balances :
    (weight : Handle → ℕ) (kernel : Kernel) (cfg : Config) (buffer : BufferKind) (csv : List ℕ)
    (out_inflight : ℕ) (crc : CrcTable)
    → GrantsAll kernel cfg.queue_depth
    → taken weight (run_one kernel cfg buffer csv out_inflight crc).trace
      ≡ given_back weight (run_one kernel cfg buffer csv out_inflight crc).trace
unfolding run_one
run_one-Balances weight kernel cfg buffer csv out_inflight crc grants =
    run_allocated-Balances weight kernel cfg buffer csv out_inflight crc
      (kernel.hands_out (asked (alloc (cfg.frames * 8)) ∷ [])) grants
