-- ===== src/User/CaptureM2m/Requested.antt =====
-- user/vpipe-capture-m2m.c: what is held once its buffers are requested.
use vpipe.Base.{ℕ, ◌≡◌, ◌≢◌, ap, false, ◌||◌, ◌==◌, Option, none, some, ◌∷◌, arith}
use vpipe.M2m.{QueueType, output, capture}
use vpipe.User.Calls.{
  Kernel, Handle, Call, asked, descriptor, Always-both, Ends, Ends-then, Ends-lift, Ends-if, lift,
  unused_buffer,
}
use vpipe.User.Calls.Balance.{held}
use vpipe.User.Queues.{vpipe_get_sizeimage, vpipe_request_mmap_buffers}
use vpipe.User.Queues.Mapped.{
  Accounts, Grants, Unexported, unused-held, vpipe_request_mmap_buffers-Accounts,
  vpipe_request_mmap_buffers-Unexported,
}
use vpipe.User.CaptureM2m.Arguments.{Transport, transport_dmabuf, transport_mmap}
use vpipe.User.CaptureM2m.Setup.{
  buffer_count, Capture, vivid_reply, vpipe_reply, set_formats, check_sizes, request_vivid,
  request_vpipe, request_fed,
}
use vpipe.User.CaptureM2m.Held.{
  capture_held, Kept, running-off, is_some, Idle5, Idle6, Idle7, Idle8, Idle9, Idle10, With,
  ask_device-With,
}

module _ (weight : Handle → ℕ) (kernel : Kernel) where
  pub vivid_reply-With :
      (r : Capture) (call : Call) (fd : Option ℕ)
      → Kept weight r
      → Idle10 weight r
      → Ends
          (λ r. (Kept weight) r × (Idle9 weight r × (r.vivid_fd ≢ none)))
          (Kept weight)
          (vivid_reply r (asked call ∷ r.trace) fd)
  unfolding capture_held
  vivid_reply-With r call none kept (facts, unset) = kept
  vivid_reply-With r call (some fd) kept (facts, unset) = (
    omega (
      arith,
      ap (held weight descriptor) unset,
      running-off weight r.vivid_fd r.vivid_streaming capture (idle3 facts),
      running-off weight (some fd) r.vivid_streaming capture (idle3 facts),
    ),
    (facts, is_some weight fd),
  )
    where
      idle3 : Idle9 weight r → r.vivid_streaming ≡ false
      idle3 ((((((((a, b), c), d), e), f), g), h), i) = c

  pub vpipe_reply-With :
      (r : Capture) (call : Call) (fd : Option ℕ)
      → Kept weight r
      → Idle9 weight r × (r.vivid_fd ≢ none)
      → Ends (With weight (Idle8 weight)) (Kept weight) (vpipe_reply r (asked call ∷ r.trace) fd)
  unfolding capture_held
  vpipe_reply-With r call none kept facts = kept
  vpipe_reply-With r call (some fd) kept ((facts, unset), opened) = (
    omega (
      arith,
      ap (held weight descriptor) unset,
      running-off weight r.vpipe_fd r.vpipe_cap_streaming capture (idle2 facts),
      running-off weight (some fd) r.vpipe_cap_streaming capture (idle2 facts),
      running-off weight r.vpipe_fd r.vpipe_out_streaming output (idle1 facts),
      running-off weight (some fd) r.vpipe_out_streaming output (idle1 facts),
    ),
    (facts, (opened, is_some weight fd)),
  )
    where
      idle2 : Idle8 weight r → r.vpipe_cap_streaming ≡ false
      idle2 (((((((a, b), c), d), e), f), g), h) = b

      idle1 : Idle8 weight r → r.vpipe_out_streaming ≡ false
      idle1 (((((((a, b), c), d), e), f), g), h) = a

  pub set_formats-With :
      (r : Capture)
      → With weight (Idle8 weight) r
      → Ends (With weight (Idle8 weight)) (Kept weight) (set_formats kernel r)
  set_formats-With r h =
      Ends-then (With weight (Idle8 weight)) (With weight (Idle8 weight)) (Kept weight) _ _
        (Ends-then (With weight (Idle8 weight)) (With weight (Idle8 weight)) (Kept weight) _ _
          (ask_device-With weight kernel (Idle8 weight) _ r (λ t f. f) h)
          (λ r h. ask_device-With weight kernel (Idle8 weight) _ r (λ t f. f) h))
        (λ r h. ask_device-With weight kernel (Idle8 weight) _ r (λ t f. f) h)

  pub check_sizes-With :
      (r : Capture)
      → With weight (Idle8 weight) r
      → Ends (With weight (Idle8 weight)) (Kept weight) (check_sizes kernel r)
  unfolding capture_held
  check_sizes-With r (kept, facts) =
      let vivid_size = vpipe_get_sizeimage kernel r.vivid_fd capture r.trace in
      let out_size = vpipe_get_sizeimage kernel r.vpipe_fd output vivid_size.0 in
      Ends-if (With weight (Idle8 weight)) (Kept weight) (vivid_size.1 == 0 || out_size.1 == 0) _ _
        (λ _. kept) (λ _. (kept, facts))

  pub request_vivid-With :
      (r : Capture)
      → Grants kernel r.vivid_fd capture buffer_count
      → With weight (Idle8 weight) r
      → Ends (With weight (Idle7 weight)) (Kept weight) (request_vivid kernel r)
  unfolding request_vivid capture_held
  request_vivid-With r grants (kept, ((((((((a, b), c), d), e), f), g), free), opened)) =
      Ends-lift
        (λ s.
          Accounts weight buffer_count rest buffer_count s × Unexported kernel r.vivid_fd capture s)
        (With weight (Idle7 weight)) (Kept weight) (λ s. record r { trace = s.0; vivid_bufs = s.1 })
        _
        (λ s ((accounts, _), fresh). (
          omega (arith, unused-held weight buffer_count 0),
          ((((((((a, b), c), λ j _. fresh j), e), f), g)), opened),
        ))
        (λ s ((accounts, _), fresh). omega (arith, unused-held weight buffer_count 0))
        (Always-both (Accounts weight buffer_count rest buffer_count)
          (Unexported kernel r.vivid_fd capture)
          (vpipe_request_mmap_buffers kernel r.vivid_fd capture buffer_count
            (r.trace, r.vivid_bufs))
          (vpipe_request_mmap_buffers-Accounts weight kernel r.vivid_fd capture buffer_count rest
            (r.trace, r.vivid_bufs) grants (omega (arith, unused-held weight buffer_count 0), free))
          (vpipe_request_mmap_buffers-Unexported kernel r.vivid_fd capture buffer_count
            (r.trace, r.vivid_bufs) (λ j. d j (omega arith))))
    where
      rest : ℕ
      rest = capture_held weight (record r { vivid_bufs = λ _. unused_buffer })

  pub request_vpipe-With :
      (r : Capture)
      → Grants kernel r.vpipe_fd capture buffer_count
      → With weight (Idle7 weight) r
      → Ends (With weight (Idle6 weight)) (Kept weight) (request_vpipe kernel r)
  unfolding request_vpipe capture_held
  request_vpipe-With r grants (kept, ((facts, free), opened)) =
      Ends-lift (Accounts weight buffer_count rest buffer_count) (With weight (Idle6 weight))
        (Kept weight) (λ s. record r { trace = s.0; vpipe_bufs = s.1 }) _
        (λ s (accounts, _). (omega (arith, unused-held weight buffer_count 0), (facts, opened)))
        (λ s (accounts, _). omega (arith, unused-held weight buffer_count 0))
        (vpipe_request_mmap_buffers-Accounts weight kernel r.vpipe_fd capture buffer_count rest
          (r.trace, r.vpipe_bufs) grants (omega (arith, unused-held weight buffer_count 0), free))
    where
      rest : ℕ
      rest = capture_held weight (record r { vpipe_bufs = λ _. unused_buffer })

  map_fed-With :
      (r : Capture)
      → Grants kernel r.vpipe_fd output buffer_count
      → With weight (Idle6 weight) r
      → Ends (With weight (Idle5 weight)) (Kept weight) (
          lift
            (λ s. record r { trace = s.0; vpipe_out_bufs = s.1 })
            (vpipe_request_mmap_buffers kernel r.vpipe_fd output buffer_count
              (r.trace, r.vpipe_out_bufs)))
  unfolding capture_held
  map_fed-With r grants (kept, ((facts, free), opened)) =
      Ends-lift (Accounts weight buffer_count rest buffer_count) (With weight (Idle5 weight))
        (Kept weight) (λ s. record r { trace = s.0; vpipe_out_bufs = s.1 }) _
        (λ s (accounts, _). (omega (arith, unused-held weight buffer_count 0), (facts, opened)))
        (λ s (accounts, _). omega (arith, unused-held weight buffer_count 0))
        (vpipe_request_mmap_buffers-Accounts weight kernel r.vpipe_fd output buffer_count rest
          (r.trace, r.vpipe_out_bufs) grants
          (omega (arith, unused-held weight buffer_count 0), free))
    where
      rest : ℕ
      rest = capture_held weight (record r { vpipe_out_bufs = λ _. unused_buffer })

  pub request_fed-With :
      (mode : Transport) (r : Capture)
      → ((fd : Option ℕ) (type : QueueType) → Grants kernel fd type buffer_count)
      → With weight (Idle6 weight) r
      → Ends (With weight (Idle5 weight)) (Kept weight) (request_fed kernel mode r)
  unfolding request_fed
  request_fed-With transport_dmabuf r grants (kept, ((facts, free), opened)) =
      ask_device-With weight kernel (Idle5 weight) _ r (λ t f. f) (kept, (facts, opened))
  request_fed-With transport_mmap r grants h =
      Ends-then (With weight (Idle6 weight)) (With weight (Idle5 weight)) (Kept weight) _ _
        (ask_device-With weight kernel (Idle6 weight) _ r (λ t f. f) h)
        (λ r h. map_fed-With r (grants r.vpipe_fd output) h)
