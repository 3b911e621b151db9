-- ===== src/User/Runner/Loop/Finishes.antt =====
-- user/vpipe-vcam-runner.c: a run whose calls succeed does not reach the label early.
use vpipe.Base.{
  ℕ, zero, suc, ◌+◌, ◌≡◌, ◌&&◌, Option, none, some, List, ◌∷◌, ltb, if◌then◌else◌, ne→==,
}
use vpipe.M2m.{output, capture}
use vpipe.User.Calls.{
  Kernel, Trace, Call, asked, get_format, memory_mmap, open_device, stream_on, export_source,
  dequeue_buffer, Outcome, next, cleanup, ◌then◌, Ends-if, lift,
}
use vpipe.User.Queues.{queue_all}
use vpipe.User.Csv.{vpipe_open_csv}
use vpipe.User.Runner.Run.{
  BufferKind, buf_mmap, buf_dmabuf, Config, Run, ask, open_node, read_sizeimage, request_output,
  request_capture, set_algo_none, csv_reply, open_rows, open_meta, queue_capture, start_capture,
  start_output, export_dmabuf, set_up_device, set_up,
}
use vpipe.User.Runner.Submit.{fill_output, queue_output, submit_output, count_submitted, prefill}
use vpipe.User.Runner.Loop.{
  note_occupancy, dequeue_capture, check_frame, requeue_capture, dequeue_output, memory_of,
  resubmit, one_frame, drain, mark_ok, measure,
}
use vpipe.User.Runner.Loop.Goes.{
  Answers, Goes, Goes-then, must_succeed-Goes, vpipe_request_mmap_buffers-Goes,
  vpipe_open_csv-opens, gt→leb,
}

module _ (kernel : Kernel) (cfg : Config) (answers : Answers kernel cfg.queue_depth) where
  ask-Goes : (call : Call) (r : Run) → Goes (ask kernel call r)
  ask-Goes call r =
      must_succeed-Goes kernel cfg.queue_depth answers call r.trace (λ t. record r { trace = t })

  both :
      (o : Outcome Run) (step : Run → Outcome Run)
      → Goes o
      → ((r : Run) → Goes (step r))
      → Goes (o then step)
  both o step goes on = Goes-then o step goes on

  open_node-Goes : (r : Run) → Goes (open_node kernel cfg r)
  open_node-Goes r =
      let (fd, e) = answers.hands_out (asked (open_device cfg.device) ∷ r.trace) in rw e tt

  read_sizeimage-Goes : (r : Run) → Goes (read_sizeimage kernel r)
  read_sizeimage-Goes r =
      rw
        (
          answers.succeeds (asked (get_format r.fd output) ∷ r.trace),
          ne→== _ 0 (answers.sized (asked (get_format r.fd output) ∷ r.trace)),
        )
        tt

  set_up_device-Goes : (r : Run) → Goes (set_up_device kernel cfg r)
  set_up_device-Goes r =
      both _ (read_sizeimage kernel)
        (both _ _ (both _ _ (ask-Goes _ r) (λ r. ask-Goes _ r)) (λ r. ask-Goes _ r))
        read_sizeimage-Goes

  lift-Goes : {A : Type 0} (put : A → Run) (o : Outcome A) → Goes o → Goes (lift put o)
  lift-Goes put (next a) goes = tt
  lift-Goes put (cleanup a) goes = goes

  request_output-Goes : (buffer : BufferKind) (r : Run) → Goes (request_output kernel cfg buffer r)
  unfolding request_output
  request_output-Goes buf_dmabuf r = ask-Goes _ r
  request_output-Goes buf_mmap r =
      lift-Goes _ _ (
        vpipe_request_mmap_buffers-Goes kernel cfg.queue_depth answers r.fd output cfg.queue_depth
          _)

  request_capture-Goes : (r : Run) → Goes (request_capture kernel cfg r)
  unfolding request_capture
  request_capture-Goes r = lift-Goes _ _ (
      vpipe_request_mmap_buffers-Goes kernel cfg.queue_depth answers r.fd capture cfg.queue_depth _)

  open_rows-Goes : (csv : List ℕ) (r : Run) → Goes (open_rows kernel csv r)
  unfolding open_rows
  open_rows-Goes csv r =
      let (fp, e) = vpipe_open_csv-opens kernel cfg.queue_depth answers csv r.trace in
      reply (vpipe_open_csv kernel csv r.trace).0 (vpipe_open_csv kernel csv r.trace).1 fp e
    where
      reply : (t : Trace) (got : Option ℕ) (fp : ℕ) → got ≡ some fp → Goes (csv_reply r (t, got))
      reply t none fp e = cc
      reply t (some n) fp e = tt

  queue_all-Goes : (n i : ℕ) (r : Run) → Goes (queue_all (queue_capture kernel) n i r)
  unfolding queue_all
  queue_all-Goes zero i r = tt
  queue_all-Goes (suc n) i r =
      both (queue_capture kernel i r) (queue_all (queue_capture kernel) n (i + 1)) (ask-Goes _ r)
        (queue_all-Goes n (i + 1))

  start_capture-Goes : (r : Run) → Goes (start_capture kernel r)
  start_capture-Goes r = rw (answers.succeeds (asked (stream_on r.fd capture) ∷ r.trace)) tt

  start_output-Goes : (r : Run) → Goes (start_output kernel r)
  start_output-Goes r = rw (answers.succeeds (asked (stream_on r.fd output) ∷ r.trace)) tt

  export_dmabuf-Goes : (buffer : BufferKind) (r : Run) → Goes (export_dmabuf kernel buffer r)
  export_dmabuf-Goes buf_mmap r = tt
  export_dmabuf-Goes buf_dmabuf r =
      let after : Trace = asked (export_source r.fd) ∷ r.trace in
      let (fd, e) = answers.hands_out after in rw (answers.succeeds after, e) tt

  set_up-Goes :
      (buffer : BufferKind) (csv : List ℕ) (r : Run) → Goes (set_up kernel cfg buffer csv r)
  unfolding set_up
  set_up-Goes buffer csv r =
      both _ (export_dmabuf kernel buffer)
        (both _ (start_output kernel)
          (both _ (start_capture kernel)
            (both _ (queue_all (queue_capture kernel) cfg.queue_depth 0)
              (both _ (open_meta kernel)
                (both _ (open_rows kernel csv)
                  (both _ (set_algo_none kernel)
                    (both _ (request_capture kernel cfg)
                      (both _ (request_output kernel cfg buffer)
                        (both _ (set_up_device kernel cfg) (open_node-Goes r) set_up_device-Goes)
                        (request_output-Goes buffer))
                      request_capture-Goes)
                    (λ r. ask-Goes _ r))
                  (open_rows-Goes csv))
                (λ r. tt))
              (queue_all-Goes cfg.queue_depth 0))
            start_capture-Goes)
          start_output-Goes)
        (export_dmabuf-Goes buffer)

  submit_output-Goes :
      (buffer : BufferKind) (n i : ℕ) (r : Run)
      → Goes (submit_output kernel cfg buffer n i r then count_submitted)
  unfolding submit_output queue_output
  submit_output-Goes buffer n i r =
      both (submit_output kernel cfg buffer n i r) count_submitted (queued buffer _) (λ r. tt)
    where
      queued : (buffer : BufferKind) (r : Run) → Goes (queue_output kernel cfg buffer n i r)
      queued buf_dmabuf r = ask-Goes _ r
      queued buf_mmap r = ask-Goes _ (fill_output kernel cfg.source n i r)

  prefill-Goes :
      (buffer : BufferKind) (depth fuel : ℕ) (r : Run)
      → Goes (prefill kernel cfg buffer depth fuel r)
  unfolding prefill
  prefill-Goes buffer depth zero r = tt
  prefill-Goes buffer depth (suc fuel) r =
      Ends-if (λ _. Unit) (λ _. ⊥) (ltb r.submitted cfg.frames && ltb r.submitted depth) _ (next r)
        (λ _.
          both _ (λ s. prefill kernel cfg buffer depth fuel s)
            (submit_output-Goes buffer r.submitted r.submitted r) (prefill-Goes buffer depth fuel))
        (λ _. tt)

  dequeue_capture-Goes : (r : Run) → Goes (dequeue_capture kernel cfg r)
  dequeue_capture-Goes r =
      let after : Trace = asked (dequeue_buffer r.fd capture memory_mmap) ∷ r.trace in
      rw (answers.succeeds after, gt→leb _ _ (answers.indexed after)) tt

  dequeue_output-Goes : (buffer : BufferKind) (r : Run) → Goes (dequeue_output kernel buffer r)
  dequeue_output-Goes buffer r =
      rw (answers.succeeds (asked (dequeue_buffer r.fd output (memory_of buffer)) ∷ r.trace)) tt

  resubmit-Goes : (buffer : BufferKind) (r : Run) → Goes (resubmit kernel cfg buffer r)
  unfolding resubmit
  resubmit-Goes buffer r =
      Ends-if (λ _. Unit) (λ _. ⊥) (ltb r.submitted cfg.frames) _ (next r)
        (λ _. submit_output-Goes buffer r.submitted r.out_dq.index r) (λ _. tt)

  one_frame-Goes : (buffer : BufferKind) (r : Run) → Goes (one_frame kernel cfg buffer r)
  unfolding one_frame
  one_frame-Goes buffer r =
      both _ (resubmit kernel cfg buffer)
        (both _ (dequeue_output kernel buffer)
          (both _ (λ s. requeue_capture kernel (check_frame kernel cfg s))
            (dequeue_capture-Goes (note_occupancy r)) (λ s. ask-Goes _ (check_frame kernel cfg s)))
          (dequeue_output-Goes buffer))
        (resubmit-Goes buffer)

  drain-Goes : (buffer : BufferKind) (fuel : ℕ) (r : Run) → Goes (drain kernel cfg buffer fuel r)
  unfolding drain
  drain-Goes buffer zero r = tt
  drain-Goes buffer (suc fuel) r =
      Ends-if (λ _. Unit) (λ _. ⊥) (ltb r.completed cfg.frames) _ (next r)
        (λ _.
          both (one_frame kernel cfg buffer r) (λ s. drain kernel cfg buffer fuel s)
            (one_frame-Goes buffer r) (drain-Goes buffer fuel))
        (λ _. tt)

  -- No step of a run leads to the label early.
  pub measure-Goes :
      (buffer : BufferKind) (csv : List ℕ) (depth : ℕ) (r : Run)
      → Goes (measure kernel cfg buffer csv depth r)
  unfolding measure
  measure-Goes buffer csv depth r =
      both _ mark_ok
        (both _ (drain kernel cfg buffer cfg.frames)
          (both _ (prefill kernel cfg buffer depth depth) (set_up-Goes buffer csv r)
            (prefill-Goes buffer depth depth))
          (drain-Goes buffer cfg.frames))
        (λ r. tt)
