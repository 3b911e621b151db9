-- ===== src/User/Runner/Run/Balance.antt =====
-- user/vpipe-vcam-runner.c: what a run holds while it is set up.
use vpipe.Base.{
  ℕ, zero, suc, ◌+◌, ◌≤◌, ◌≡◌, Bool, true, false, Option, none, some, List, ◌∷◌, arith,
}
use vpipe.M2m.{QueueType, output, capture}
use vpipe.User.Calls.{
  Kernel, MmapBuffer, Trace, Handle, Call, asked, descriptor, file, heap, stream, Always,
  Always-then, Always-lift, get_format, unused_buffer, open_sideband,
}
use vpipe.User.Calls.Balance.{taken, given_back, held}
use vpipe.User.Queues.{Slots, vpipe_get_sizeimage, vpipe_request_mmap_buffers, queue_all}
use vpipe.User.Queues.Mapped.{
  slots_held, buffer_held, Accounts, Grants, unused-held, vpipe_request_mmap_buffers-Accounts,
}
use vpipe.User.Csv.{vpipe_open_csv}
use vpipe.User.Csv.Balance.{vpipe_open_csv-Holds}
use vpipe.User.Runner.Run.{
  BufferKind, buf_mmap, buf_dmabuf, Config, Run, ask, device_reply, read_sizeimage, request_output,
  request_capture, csv_reply, open_rows, meta_reply, queue_capture, start_capture, start_output,
  export_dmabuf,
}

module _ (weight : Handle → ℕ) (cfg : Config) (buffer : BufferKind) where
  abbrev pub stream_held : Bool → Option ℕ → QueueType → ℕ
  stream_held true fd type = weight (stream fd type)
  stream_held false fd type = 0

  abbrev pub outputs_held : BufferKind → Slots → ℕ
  outputs_held buf_mmap buffers = slots_held weight cfg.queue_depth buffers
  outputs_held buf_dmabuf buffers = 0

  -- What the variables of a run hold.
  unfoldable pub run_held : Run → ℕ
  run_held r =
      held weight heap r.lat
      + held weight descriptor r.fd
      + outputs_held buffer r.out_bufs
      + slots_held weight cfg.queue_depth r.cap_bufs
      + held weight file r.fp
      + held weight descriptor r.meta_fd
      + stream_held r.cap_streaming r.fd capture
      + stream_held r.out_streaming r.fd output
      + held weight descriptor r.src_fd

  -- What is not given back is held by a variable.
  abbrev pub Owned : Run → Type 0
  Owned r = taken weight r.trace ≡ given_back weight r.trace + run_held r

  abbrev Free : (ℕ → MmapBuffer) → Type 0
  Free buffers = (j : ℕ) → 0 ≤ j → buffer_held weight (buffers j) ≡ 0

  -- The variables that are not yet set, from the last one on.
  abbrev pub Unset1 : Run → Type 0
  Unset1 r = r.src_fd ≡ none

  abbrev pub Unset2 : Run → Type 0
  Unset2 r = Unset1 r × (r.out_streaming ≡ false)

  abbrev pub Unset3 : Run → Type 0
  Unset3 r = Unset2 r × (r.cap_streaming ≡ false)

  abbrev pub Unset4 : Run → Type 0
  Unset4 r = Unset3 r × (r.meta_fd ≡ none)

  abbrev pub Unset5 : Run → Type 0
  Unset5 r = Unset4 r × (r.fp ≡ none)

  abbrev pub Unset6 : Run → Type 0
  Unset6 r = Unset5 r × Free r.cap_bufs

  abbrev pub Unset7 : Run → Type 0
  Unset7 r = Unset6 r × Free r.out_bufs

  abbrev pub Unset8 : Run → Type 0
  Unset8 r = Unset7 r × (r.fd ≡ none)

  -- Such facts, which do not depend on the calls.
  abbrev pub Stays : (Run → Type 0) → Type 0
  Stays Facts = (r : Run) (trace : Trace) → Facts r → Facts (record r { trace = trace })

  abbrev pub With : (Run → Type 0) → Run → Type 0
  With Facts r = Owned r × Facts r

  module _ (kernel : Kernel) where
    pub ask-Owned :
        (Facts : Run → Type 0) (call : Call) (r : Run)
        → Stays Facts
        → With Facts r
        → Always (With Facts) (ask kernel call r)
    unfolding run_held
    ask-Owned Facts call r stays (owned, facts) =
        let kept : Facts (record r { trace = asked call ∷ r.trace }) =
          stays r (asked call ∷ r.trace) facts in
        ground arith

    pub device_reply-Owned :
        (r : Run) (call : Call) (fd : Option ℕ)
        → With Unset8 r
        → Always (With Unset7) (device_reply r (asked call ∷ r.trace) fd)
    unfolding run_held
    device_reply-Owned r call none (owned, (facts, unset)) = (omega arith, facts)
    device_reply-Owned r call (some fd) (owned, (facts, unset)) = (ground arith, facts)

    pub read_sizeimage-Owned :
        (Facts : Run → Type 0) (r : Run)
        → ((r : Run) (t : Trace) (n : ℕ)
            → Facts r
            → Facts (record r { trace = t; out_sizeimage = n }))
        → With Facts r
        → Always (With Facts) (read_sizeimage kernel r)
    unfolding run_held
    read_sizeimage-Owned Facts r stays (owned, facts) =
        let kept : Facts _ =
          stays r (asked (get_format r.fd output) ∷ r.trace)
            (vpipe_get_sizeimage kernel r.fd output r.trace).1 facts in
        ground arith

    pub request_capture-Owned :
        (r : Run)
        → Grants kernel r.fd capture cfg.queue_depth
        → With Unset6 r
        → Always (With Unset5) (request_capture kernel cfg r)
    unfolding request_capture run_held
    request_capture-Owned r grants (owned, (facts, free)) =
        Always-lift (Accounts weight cfg.queue_depth rest cfg.queue_depth) (With Unset5)
          (λ s. record r { trace = s.0; cap_bufs = s.1 })
          (vpipe_request_mmap_buffers kernel r.fd capture cfg.queue_depth (r.trace, r.cap_bufs))
          (λ s (accounts, _). (omega (arith, unused-held weight cfg.queue_depth 0), facts))
          (vpipe_request_mmap_buffers-Accounts weight kernel r.fd capture cfg.queue_depth rest
            (r.trace, r.cap_bufs) grants
            (omega (arith, unused-held weight cfg.queue_depth 0), free))
      where
        rest : ℕ
        rest = run_held (record r { cap_bufs = λ _. unused_buffer })

    pub csv_reply-Owned :
        (r : Run) (trace : Trace) (fp : Option ℕ)
        → taken weight trace ≡ given_back weight trace + (run_held r + held weight file fp)
        → Unset5 r
        → Always (With Unset4) (csv_reply r (trace, fp))
    unfolding run_held
    csv_reply-Owned r trace none owned (facts, unset) = (omega arith, facts)
    csv_reply-Owned r trace (some fp) owned (facts, unset) = (ground arith, facts)

    pub open_rows-Owned :
        (csv : List ℕ) (r : Run) → With Unset5 r → Always (With Unset4) (open_rows kernel csv r)
    unfolding open_rows
    open_rows-Owned csv r (owned, facts) =
        csv_reply-Owned r (vpipe_open_csv kernel csv r.trace).0
          (vpipe_open_csv kernel csv r.trace).1
          (vpipe_open_csv-Holds weight (run_held r) kernel csv r.trace owned) facts

    pub meta_reply-Owned :
        (r : Run) (fd : Option ℕ)
        → With Unset4 r
        → With Unset3 (meta_reply r (asked open_sideband ∷ r.trace) fd)
    unfolding run_held
    meta_reply-Owned r none (owned, (facts, unset)) = (omega arith, facts)
    meta_reply-Owned r (some fd) (owned, (facts, unset)) = (ground arith, facts)

    pub queue_all-Owned :
        (n i : ℕ) (r : Run)
        → With Unset3 r
        → Always (With Unset3) (queue_all (queue_capture kernel) n i r)
    unfolding queue_all
    queue_all-Owned zero i r h = h
    queue_all-Owned (suc n) i r h =
        Always-then (With Unset3) (With Unset3) (queue_capture kernel i r)
          (queue_all (queue_capture kernel) n (i + 1)) (λ r h. h)
          (ask-Owned Unset3 _ r (λ r t u. u) h) (λ r h. queue_all-Owned n (i + 1) r h)

    pub start_capture-Owned :
        (r : Run) → With Unset3 r → Always (With Unset2) (start_capture kernel r)
    unfolding run_held
    start_capture-Owned r (owned, (facts, unset)) = ground arith

    pub start_output-Owned :
        (r : Run) → With Unset2 r → Always (With Unset1) (start_output kernel r)
    unfolding run_held
    start_output-Owned r (owned, (facts, unset)) = ground arith

module _ (weight : Handle → ℕ) (cfg : Config) (kernel : Kernel) where
  -- A queue that is requested holds what is mapped.
  pub request_output-Owned :
      (buffer : BufferKind) (r : Run)
      → Grants kernel r.fd output cfg.queue_depth
      → With weight cfg buffer (Unset7 weight cfg buffer) r
      → Always
          (With weight cfg buffer (Unset6 weight cfg buffer))
          (request_output kernel cfg buffer r)
  unfolding request_output run_held
  request_output-Owned buf_dmabuf r grants (owned, (facts, free)) =
      ask-Owned weight cfg buf_dmabuf kernel (Unset6 weight cfg buf_dmabuf) _ r (λ r t u. u)
        (owned, facts)
  request_output-Owned buf_mmap r grants (owned, (facts, free)) =
      Always-lift (Accounts weight cfg.queue_depth rest cfg.queue_depth)
        (With weight cfg buf_mmap (Unset6 weight cfg buf_mmap))
        (λ s. record r { trace = s.0; out_bufs = s.1 })
        (vpipe_request_mmap_buffers kernel r.fd output cfg.queue_depth (r.trace, r.out_bufs))
        (λ s (accounts, _). (omega (arith, unused-held weight cfg.queue_depth 0), facts))
        (vpipe_request_mmap_buffers-Accounts weight kernel r.fd output cfg.queue_depth rest
          (r.trace, r.out_bufs) grants (omega (arith, unused-held weight cfg.queue_depth 0), free))
    where
      rest : ℕ
      rest = run_held weight cfg buf_mmap (record r { out_bufs = λ _. unused_buffer })

  pub export_dmabuf-Owned :
      (buffer : BufferKind) (r : Run)
      → With weight cfg buffer (Unset1 weight cfg buffer) r
      → Always (Owned weight cfg buffer) (export_dmabuf kernel buffer r)
  unfolding run_held
  export_dmabuf-Owned buf_mmap r (owned, unset) = owned
  export_dmabuf-Owned buf_dmabuf r (owned, unset) = ground (arith)
