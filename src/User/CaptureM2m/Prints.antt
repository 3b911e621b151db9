-- ===== src/User/CaptureM2m/Prints.antt =====
-- user/vpipe-capture-m2m.c: the steps that print no row.
use vpipe.Base.{ℕ, zero, suc, ◌+◌, ◌≡◌, arith, Option, none, some, List, ◌∷◌}
use vpipe.User.Calls.{
  Kernel, Trace, Call, asked, open_device, Outcome, next, cleanup, ◌then◌, lift, Always,
  Always-then, must_succeed-Always,
}
use vpipe.User.Queues.{Slots, queue_all}
use vpipe.User.Csv.{vpipe_open_csv}
use vpipe.User.CaptureM2m.{
  dequeue_vivid, set_controls, feed_output, dequeue_vpipe, reclaim_output, requeue,
}
use vpipe.User.CaptureM2m.Arguments.{Transport, transport_dmabuf, transport_mmap, Settings}
use vpipe.User.CaptureM2m.Setup.{
  buffer_count, FrameRow, Capture, ask_device, vivid_reply, open_vivid, vpipe_reply, open_vpipe,
  set_formats, check_sizes, request_vivid, request_vpipe, request_fed, file_reply, open_frame_rows,
  export_vivid, queue_both, start_vivid, start_vpipe_capture, start_vpipe_output, set_up_capture,
}

-- Steps that print no row.
unfoldable pub Prints : List FrameRow → Outcome Capture → Type 0
Prints rows o = Always (λ r. r.rows ≡ rows) o

module _ (rows : List FrameRow) where
  abbrev Has : Capture → Type 0
  Has r = r.rows ≡ rows

  pub both :
      (o : Outcome Capture) (step : Capture → Outcome Capture)
      → Prints rows o
      → ((r : Capture) → Has r → Prints rows (step r))
      → Prints rows (o then step)
  unfolding Prints
  both o step all keep = Always-then Has Has o step (λ r h. h) all keep

  lift-Prints :
      (put : Trace × Slots → Capture) (o : Outcome (Trace × Slots))
      → ((s : Trace × Slots) → Has (put s))
      → Prints rows (lift put o)
  unfolding Prints
  lift-Prints put (next s) h = h s
  lift-Prints put (cleanup s) h = h s

  module _ (kernel : Kernel) where
    ask_device-Prints : (call : Call) (r : Capture) → Has r → Prints rows (ask_device kernel call r)
    unfolding Prints
    ask_device-Prints call r h =
        must_succeed-Always Has kernel call r.trace (λ t. record r { trace = t }) h

    open_vivid-Prints : (s : Settings) (r : Capture) → Has r → Prints rows (open_vivid kernel s r)
    unfolding Prints
    open_vivid-Prints s r h = reply (kernel.hands_out _)
      where
        reply :
            (fd : Option ℕ) → Prints rows (vivid_reply r (asked (open_device s.vivid) ∷ r.trace) fd)
        reply none = h
        reply (some fd) = h

    open_vpipe-Prints : (s : Settings) (r : Capture) → Has r → Prints rows (open_vpipe kernel s r)
    unfolding Prints
    open_vpipe-Prints s r h = reply (kernel.hands_out _)
      where
        reply :
            (fd : Option ℕ) → Prints rows (vpipe_reply r (asked (open_device s.vpipe) ∷ r.trace) fd)
        reply none = h
        reply (some fd) = h

    set_formats-Prints : (r : Capture) → Has r → Prints rows (set_formats kernel r)
    set_formats-Prints r h =
        both _ _ (both _ _ (ask_device-Prints _ r h) (λ r h. ask_device-Prints _ r h))
          (λ r h. ask_device-Prints _ r h)

    check_sizes-Prints : (r : Capture) → Has r → Prints rows (check_sizes kernel r)
    unfolding Prints
    check_sizes-Prints r h = ground arith

    request_vivid-Prints : (r : Capture) → Has r → Prints rows (request_vivid kernel r)
    unfolding request_vivid
    request_vivid-Prints r h = lift-Prints _ _ (λ s. h)

    request_vpipe-Prints : (r : Capture) → Has r → Prints rows (request_vpipe kernel r)
    unfolding request_vpipe
    request_vpipe-Prints r h = lift-Prints _ _ (λ s. h)

    request_fed-Prints :
        (mode : Transport) (r : Capture) → Has r → Prints rows (request_fed kernel mode r)
    unfolding request_fed
    request_fed-Prints transport_dmabuf r h = ask_device-Prints _ r h
    request_fed-Prints transport_mmap r h =
        both _ _ (ask_device-Prints _ r h) (λ r h. lift-Prints _ _ (λ s. h))

    open_frame_rows-Prints :
        (s : Settings) (r : Capture) → Has r → Prints rows (open_frame_rows kernel s r)
    unfolding open_frame_rows Prints
    open_frame_rows-Prints s r h =
        reply (vpipe_open_csv kernel s.csv r.trace).0 (vpipe_open_csv kernel s.csv r.trace).1
      where
        reply : (trace : Trace) (fp : Option ℕ) → Prints rows (file_reply r (trace, fp))
        reply trace none = h
        reply trace (some fp) = h

    export_vivid-Prints :
        (mode : Transport) (i : ℕ) (r : Capture)
        → Has r
        → Prints rows (export_vivid kernel mode i r)
    unfolding Prints
    export_vivid-Prints transport_mmap i r h = h
    export_vivid-Prints transport_dmabuf i r h = ground arith

    queue_both-Prints :
        (s : Settings) (i : ℕ) (r : Capture) → Has r → Prints rows (queue_both kernel s i r)
    queue_both-Prints s i r h =
        both _ _ (both _ _ (export_vivid-Prints s.transport i r h) (λ r h. ask_device-Prints _ r h))
          (λ r h. ask_device-Prints _ r h)

    queue_all-Prints :
        (s : Settings) (n i : ℕ) (r : Capture)
        → Has r
        → Prints rows (queue_all (queue_both kernel s) n i r)
    unfolding queue_all Prints
    queue_all-Prints s zero i r h = h
    queue_all-Prints s (suc n) i r h =
        both (queue_both kernel s i r) (queue_all (queue_both kernel s) n (i + 1))
          (queue_both-Prints s i r h) (λ r h. queue_all-Prints s n (i + 1) r h)

    start_vivid-Prints : (r : Capture) → Has r → Prints rows (start_vivid kernel r)
    unfolding Prints
    start_vivid-Prints r h = ground arith

    start_vpipe_capture-Prints : (r : Capture) → Has r → Prints rows (start_vpipe_capture kernel r)
    unfolding Prints
    start_vpipe_capture-Prints r h = ground arith

    start_vpipe_output-Prints : (r : Capture) → Has r → Prints rows (start_vpipe_output kernel r)
    unfolding Prints
    start_vpipe_output-Prints r h = ground arith

    pub set_up_capture-Prints :
        (s : Settings) (r : Capture) → Has r → Prints rows (set_up_capture kernel s r)
    unfolding set_up_capture
    set_up_capture-Prints s r h =
        both _ _
          (both _ _
            (both _ _
              (both _ _ (both _ _ requested (open_frame_rows-Prints s))
                (queue_all-Prints s buffer_count 0))
              start_vivid-Prints)
            start_vpipe_capture-Prints)
          start_vpipe_output-Prints
      where
        requested : Prints rows (
            open_vivid kernel s r
            then open_vpipe kernel s
            then set_formats kernel
            then check_sizes kernel
            then request_vivid kernel
            then request_vpipe kernel
            then request_fed kernel s.transport)
        requested =
            both _ _
              (both _ _
                (both _ _
                  (both _ _
                    (both _ _ (both _ _ (open_vivid-Prints s r h) (open_vpipe-Prints s))
                      set_formats-Prints)
                    check_sizes-Prints)
                  request_vivid-Prints)
                request_vpipe-Prints)
              (request_fed-Prints s.transport)

    dequeue_vivid-Prints : (r : Capture) → Has r → Prints rows (dequeue_vivid kernel r)
    unfolding Prints
    dequeue_vivid-Prints r h = ground arith

    dequeue_vpipe-Prints : (r : Capture) → Has r → Prints rows (dequeue_vpipe kernel r)
    unfolding Prints
    dequeue_vpipe-Prints r h = ground arith

    set_controls-Prints :
        (s : Settings) (r : Capture) → Has r → Prints rows (set_controls kernel s r)
    set_controls-Prints s r h =
        both _ _ (both _ _ (ask_device-Prints _ r h) (λ r h. ask_device-Prints _ r h))
          (λ r h. ask_device-Prints _ r h)

    feed_output-Prints :
        (mode : Transport) (r : Capture) → Has r → Prints rows (feed_output kernel mode r)
    unfolding feed_output
    feed_output-Prints transport_dmabuf r h = ask_device-Prints _ r h
    feed_output-Prints transport_mmap r h = ask_device-Prints _ (record r { trace = _ }) h

    pub requeue-Prints : (r : Capture) → Has r → Prints rows (requeue kernel r)
    requeue-Prints r h = both _ _ (ask_device-Prints _ r h) (λ r h. ask_device-Prints _ r h)

    pub processed-Prints :
        (s : Settings) (r : Capture)
        → Has r
        → Prints rows (
            dequeue_vivid kernel r
            then set_controls kernel s
            then feed_output kernel s.transport
            then dequeue_vpipe kernel
            then reclaim_output kernel s.transport)
    processed-Prints s r h =
        both _ _
          (both _ _
            (both _ _ (both _ _ (dequeue_vivid-Prints r h) (set_controls-Prints s))
              (feed_output-Prints s.transport))
            dequeue_vpipe-Prints)
          (λ r h. ask_device-Prints _ r h)
