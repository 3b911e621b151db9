-- ===== src/User/Runner/Run/Untouched.antt =====
-- user/vpipe-vcam-runner.c: the set-up of a run submits nothing and counts nothing.
use vpipe.Base.{
  ℕ, zero, suc, ◌+◌, ◌≡◌, refl, arith, false, Option, none, some, List, [], ◌∷◌, ◌==◌,
  if◌then◌else◌,
}
use vpipe.M2m.{output, capture}
use vpipe.User.Calls.{
  Kernel, Trace, Call, asked, Outcome, ◌then◌, Always, Always-then, Always-if, Always-lift,
  must_succeed-Always, open_device, open_sideband, stream_on, export_source,
}
use vpipe.User.Quiet.{
  IsQuiet, fills, fills-feeds_output, vpipe_request_mmap_buffers-keeps, vpipe_open_csv-keeps,
}
use vpipe.User.Queues.{vpipe_get_sizeimage, vpipe_request_mmap_buffers, queue_all}
use vpipe.User.Csv.{vpipe_open_csv}
use vpipe.User.Runner.Run.{
  BufferKind, buf_mmap, buf_dmabuf, Config, Run, RunStats, ask, device_reply, read_sizeimage,
  request_output, request_capture, set_algo_none, csv_reply, open_rows, meta_reply, open_meta,
  queue_capture, start_capture, start_output, export_reply, export_dmabuf, set_up_device, set_up,
}
use vpipe.User.Runner.Times.{outputs}

-- No QBUF of the OUTPUT queue.
abbrev NoOutput : Trace → Type 0
NoOutput trace = outputs trace ≡ 0

NoOutput-IsQuiet : IsQuiet NoOutput
NoOutput-IsQuiet = record {
  asks = λ call trace h e. ground (arith, fills-feeds_output call h);
  gets = λ handle trace e. e;
  gives = λ handle trace e. e;
}

-- The counters are those at the start.
abbrev pub Uncounted : RunStats → Type 0
Uncounted st =
    (st.ok ≡ false)
    × (st.occ_max ≡ 0)
    × (st.dropped ≡ 0)
    × (st.csum_checked ≡ 0)
    × (st.csum_pass ≡ 0)
    × (st.verify_checked ≡ 0)
    × (st.verify_pass ≡ 0)

abbrev Unmeasured : Run → Type 0
Unmeasured r = (r.submitted ≡ 0) × (r.completed ≡ 0) × (r.rows ≡ []) × Uncounted r.st

abbrev pub Untouched : Run → Type 0
Untouched r = NoOutput r.trace × Unmeasured r

module _ (kernel : Kernel) (cfg : Config) where
  ask-Untouched :
      (call : Call) (r : Run)
      → fills call ≡ false
      → Untouched r
      → Always Untouched (ask kernel call r)
  ask-Untouched call r quiet (e, u) =
      must_succeed-Always Untouched kernel call r.trace (λ t. record r { trace = t })
        (NoOutput-IsQuiet.asks call r.trace quiet e, u)

  device_reply-Untouched :
      (r : Run) (fd : Option ℕ)
      → Untouched r
      → Always Untouched (device_reply r (asked (open_device cfg.device) ∷ r.trace) fd)
  device_reply-Untouched r none u = u
  device_reply-Untouched r (some fd) u = u

  read_sizeimage-Untouched : (r : Run) → Untouched r → Always Untouched (read_sizeimage kernel r)
  read_sizeimage-Untouched r u =
      Always-if Untouched ((vpipe_get_sizeimage kernel r.fd output r.trace).1 == 0) _ _ (λ _. u)
        (λ _. u)

  request_output-Untouched :
      (buffer : BufferKind) (r : Run)
      → Untouched r
      → Always Untouched (request_output kernel cfg buffer r)
  unfolding request_output
  request_output-Untouched buf_dmabuf r u = ask-Untouched _ r refl u
  request_output-Untouched buf_mmap r (e, u) =
      Always-lift (λ s. NoOutput s.0) Untouched (λ s. record r { trace = s.0; out_bufs = s.1 })
        (vpipe_request_mmap_buffers kernel r.fd output cfg.queue_depth (r.trace, r.out_bufs))
        (λ s e'. (e', u))
        (vpipe_request_mmap_buffers-keeps NoOutput NoOutput-IsQuiet kernel r.fd output
          cfg.queue_depth _ (λ before k t h e. e) e)

  request_capture-Untouched :
      (r : Run) → Untouched r → Always Untouched (request_capture kernel cfg r)
  unfolding request_capture
  request_capture-Untouched r (e, u) =
      Always-lift (λ s. NoOutput s.0) Untouched (λ s. record r { trace = s.0; cap_bufs = s.1 })
        (vpipe_request_mmap_buffers kernel r.fd capture cfg.queue_depth (r.trace, r.cap_bufs))
        (λ s e'. (e', u))
        (vpipe_request_mmap_buffers-keeps NoOutput NoOutput-IsQuiet kernel r.fd capture
          cfg.queue_depth _ (λ before k t h e. e) e)

  open_rows-Untouched :
      (csv : List ℕ) (r : Run) → Untouched r → Always Untouched (open_rows kernel csv r)
  unfolding open_rows
  open_rows-Untouched csv r (e, u) =
      reply (vpipe_open_csv kernel csv r.trace).0 (vpipe_open_csv kernel csv r.trace).1
        (vpipe_open_csv-keeps NoOutput NoOutput-IsQuiet kernel csv r.trace e)
    where
      reply :
          (trace : Trace) (fp : Option ℕ)
          → NoOutput trace
          → Always Untouched (csv_reply r (trace, fp))
      reply trace none e = (e, u)
      reply trace (some fp) e = (e, u)

  meta_reply-Untouched :
      (r : Run) (fd : Option ℕ)
      → Untouched r
      → Untouched (meta_reply r (asked open_sideband ∷ r.trace) fd)
  meta_reply-Untouched r none u = u
  meta_reply-Untouched r (some fd) u = u

  queue_all-Untouched :
      (n i : ℕ) (r : Run) → Untouched r → Always Untouched (queue_all (queue_capture kernel) n i r)
  unfolding queue_all
  queue_all-Untouched zero i r u = u
  queue_all-Untouched (suc n) i r u =
      Always-then Untouched Untouched (queue_capture kernel i r)
        (queue_all (queue_capture kernel) n (i + 1)) (λ r u. u) (ask-Untouched _ r refl u)
        (λ r u. queue_all-Untouched n (i + 1) r u)

  start_capture-Untouched : (r : Run) → Untouched r → Always Untouched (start_capture kernel r)
  start_capture-Untouched r u =
      Always-if Untouched (kernel.succeeds (asked (stream_on r.fd capture) ∷ r.trace)) _ _ (λ _. u)
        (λ _. u)

  start_output-Untouched : (r : Run) → Untouched r → Always Untouched (start_output kernel r)
  start_output-Untouched r u =
      Always-if Untouched (kernel.succeeds (asked (stream_on r.fd output) ∷ r.trace)) _ _ (λ _. u)
        (λ _. u)

  export_dmabuf-Untouched :
      (buffer : BufferKind) (r : Run)
      → Untouched r
      → Always Untouched (export_dmabuf kernel buffer r)
  export_dmabuf-Untouched buf_mmap r u = u
  export_dmabuf-Untouched buf_dmabuf r u =
      Always-if Untouched (kernel.succeeds (asked (export_source r.fd) ∷ r.trace)) _ _
        (λ _. reply _) (λ _. u)
    where
      reply :
          (fd : Option ℕ)
          → Always Untouched (export_reply r (asked (export_source r.fd) ∷ r.trace) fd)
      reply none = u
      reply (some fd) = u

  both :
      (o : Outcome Run) (step : Run → Outcome Run)
      → Always Untouched o
      → ((r : Run) → Untouched r → Always Untouched (step r))
      → Always Untouched (o then step)
  both o step all keep = Always-then Untouched Untouched o step (λ r u. u) all keep

  set_up_device-Untouched : (r : Run) → Untouched r → Always Untouched (set_up_device kernel cfg r)
  set_up_device-Untouched r u =
      both _ (read_sizeimage kernel)
        (both _ _ (both _ _ (ask-Untouched _ r refl u) (λ r u. ask-Untouched _ r refl u))
          (λ r u. ask-Untouched _ r refl u))
        (λ r u. read_sizeimage-Untouched r u)

  pub set_up-Untouched :
      (buffer : BufferKind) (csv : List ℕ) (r : Run)
      → Untouched r
      → Always Untouched (set_up kernel cfg buffer csv r)
  unfolding set_up
  set_up-Untouched buffer csv r u =
      both _ (export_dmabuf kernel buffer)
        (both _ (start_output kernel)
          (both _ (start_capture kernel)
            (both _ (queue_all (queue_capture kernel) cfg.queue_depth 0)
              (both _ (open_meta kernel)
                (both _ (open_rows kernel csv)
                  (both _ (set_algo_none kernel)
                    (both _ (request_capture kernel cfg)
                      (both _ (request_output kernel cfg buffer)
                        (both _ (set_up_device kernel cfg) (device_reply-Untouched r _ u)
                          (λ r u. set_up_device-Untouched r u))
                        (λ r u. request_output-Untouched buffer r u))
                      (λ r u. request_capture-Untouched r u))
                    (λ r u. ask-Untouched _ r refl u))
                  (λ r u. open_rows-Untouched csv r u))
                (λ r u. meta_reply-Untouched r _ u))
              (λ r u. queue_all-Untouched cfg.queue_depth 0 r u))
            (λ r u. start_capture-Untouched r u))
          (λ r u. start_output-Untouched r u))
        (λ r u. export_dmabuf-Untouched buffer r u)
