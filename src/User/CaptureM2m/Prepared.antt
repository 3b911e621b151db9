-- ===== src/User/CaptureM2m/Prepared.antt =====
-- user/vpipe-capture-m2m.c: it is set up with buffers that are mapped.
use vpipe.Base.{ℕ, zero, suc, ◌+◌, refl, arith, true, ◌||◌, ◌==◌, Option, none, some, ◌∷◌}
use vpipe.M2m.{QueueType, output, capture}
use vpipe.User.Calls.{
  Kernel, Trace, Call, asked, obtained, descriptor, stream, get_format, stream_on, export_buffer,
  open_device, ◌then◌, Ends-if,
}
use vpipe.User.Queues.{vpipe_get_sizeimage, vpipe_request_mmap_buffers, queue_all}
use vpipe.User.Queues.Mapped.{Grants}
use vpipe.User.Quiet.{vpipe_request_mmap_buffers-keeps, vpipe_open_csv-keeps}
use vpipe.User.Csv.{vpipe_open_csv}
use vpipe.User.CaptureM2m.Arguments.{Transport, transport_dmabuf, transport_mmap, Settings}
use vpipe.User.CaptureM2m.Setup.{
  buffer_count, Capture, vivid_reply, open_vivid, vpipe_reply, open_vpipe, set_formats, check_sizes,
  request_vivid, request_vpipe, request_fed, file_reply, open_frame_rows, export_slot, export_vivid,
  queue_both, start_stream, start_vivid, start_vpipe_capture, start_vpipe_output, set_up_capture,
}
use vpipe.User.CaptureM2m.Inside.{Backed, put-Backed, vpipe_request_mmap_buffers-Backed}
use vpipe.User.CaptureM2m.Sound.{
  AllInside, AllInside-IsQuiet, query-AllInside, Sound, Fed, Safe, asks-Sound, gets-Sound, both,
  kept_lift, any_end, ask_device-Sound,
}

module _ (kernel : Kernel)
    (grants : (fd : Option ℕ) (type : QueueType) → Grants kernel fd type buffer_count) where
  vivid_reply-Sound : (r : Capture) (fd : Option ℕ) → Sound r → Safe (vivid_reply r r.trace fd)
  unfolding Safe
  vivid_reply-Sound r none sound = sound.0
  vivid_reply-Sound r (some fd) sound = gets-Sound r (descriptor fd) sound

  vpipe_reply-Sound : (r : Capture) (fd : Option ℕ) → Sound r → Safe (vpipe_reply r r.trace fd)
  unfolding Safe
  vpipe_reply-Sound r none sound = sound.0
  vpipe_reply-Sound r (some fd) sound = gets-Sound r (descriptor fd) sound

  open_vivid-Sound : (s : Settings) (r : Capture) → Sound r → Safe (open_vivid kernel s r)
  open_vivid-Sound s r sound =
      let after : Trace = asked (open_device s.vivid) ∷ r.trace in
      vivid_reply-Sound (record r { trace = after }) (kernel.hands_out after)
        (asks-Sound r (open_device s.vivid) refl sound)

  open_vpipe-Sound : (s : Settings) (r : Capture) → Sound r → Safe (open_vpipe kernel s r)
  open_vpipe-Sound s r sound =
      let after : Trace = asked (open_device s.vpipe) ∷ r.trace in
      vpipe_reply-Sound (record r { trace = after }) (kernel.hands_out after)
        (asks-Sound r (open_device s.vpipe) refl sound)

  set_formats-Sound : (r : Capture) → Sound r → Safe (set_formats kernel r)
  set_formats-Sound r sound =
      both _ _
        (both _ _ (ask_device-Sound kernel _ r refl sound)
          (λ r s. ask_device-Sound kernel _ r refl s))
        (λ r s. ask_device-Sound kernel _ r refl s)

  check_sizes-Sound : (r : Capture) → Sound r → Safe (check_sizes kernel r)
  unfolding Safe
  check_sizes-Sound r sound =
      let first : Call = get_format r.vivid_fd capture in
      let second : Call = get_format r.vpipe_fd output in
      let after =
        asks-Sound (record r { trace = asked first ∷ r.trace }) second refl
          (asks-Sound r first refl sound) in
      let vivid_size = vpipe_get_sizeimage kernel r.vivid_fd capture r.trace in
      let out_size = vpipe_get_sizeimage kernel r.vpipe_fd output vivid_size.0 in
      Ends-if Sound Fed (vivid_size.1 == 0 || out_size.1 == 0) _ _ (λ _. after.0) (λ _. after)

  request_vivid-Sound : (r : Capture) → Sound r → Safe (request_vivid kernel r)
  unfolding request_vivid
  request_vivid-Sound r (h, (a, b)) =
      kept_lift (λ s. record r { trace = s.0; vivid_bufs = s.1 })
        (vpipe_request_mmap_buffers kernel r.vivid_fd capture buffer_count (r.trace, r.vivid_bufs))
        (λ s. AllInside (λ _. r.vpipe_out_bufs 0) r.vpipe_out_bufs s.0) (λ s. Backed s.0 s.1)
        (λ s (h, (_, b)) a. (h, (a, b))) (λ s (h, _). h)
        (vpipe_request_mmap_buffers-keeps _
          (AllInside-IsQuiet (λ _. r.vpipe_out_bufs 0) r.vpipe_out_bufs) kernel r.vivid_fd capture
          buffer_count _
          (λ before k t le.
            query-AllInside (λ _. r.vpipe_out_bufs 0) r.vpipe_out_bufs r.vivid_fd capture k t
              (omega (arith, grants r.vivid_fd capture before)))
          (h, ((λ j. b 0), b)))
        (vpipe_request_mmap_buffers-Backed kernel r.vivid_fd capture buffer_count _ a)

  request_vpipe-Sound : (r : Capture) → Sound r → Safe (request_vpipe kernel r)
  unfolding request_vpipe
  request_vpipe-Sound r sound =
      kept_lift (λ s. record r { trace = s.0; vpipe_bufs = s.1 })
        (vpipe_request_mmap_buffers kernel r.vpipe_fd capture buffer_count (r.trace, r.vpipe_bufs))
        (λ s. AllInside r.vivid_bufs r.vpipe_out_bufs s.0) (λ s. Unit) (λ s h _. h) (λ s (h, _). h)
        (vpipe_request_mmap_buffers-keeps _ (AllInside-IsQuiet r.vivid_bufs r.vpipe_out_bufs) kernel
          r.vpipe_fd capture buffer_count _
          (λ before k t le.
            query-AllInside r.vivid_bufs r.vpipe_out_bufs r.vpipe_fd capture k t
              (omega (arith, grants r.vpipe_fd capture before)))
          sound)
        (any_end _)

  request_fed-Sound : (mode : Transport) (r : Capture) → Sound r → Safe (request_fed kernel mode r)
  unfolding request_fed
  request_fed-Sound transport_dmabuf r sound = ask_device-Sound kernel _ r refl sound
  request_fed-Sound transport_mmap r sound =
      both _ _ (ask_device-Sound kernel _ r refl sound) (λ r (h, (a, b)).
        kept_lift (λ s. record r { trace = s.0; vpipe_out_bufs = s.1 })
          (vpipe_request_mmap_buffers kernel r.vpipe_fd output buffer_count
            (r.trace, r.vpipe_out_bufs))
          (λ s. AllInside r.vivid_bufs (λ _. r.vivid_bufs 0) s.0) (λ s. Backed s.0 s.1)
          (λ s (h, (a, _)) b. (h, (a, b))) (λ s (h, _). h)
          (vpipe_request_mmap_buffers-keeps _ (AllInside-IsQuiet r.vivid_bufs (λ _. r.vivid_bufs 0))
            kernel r.vpipe_fd output buffer_count _
            (λ before k t le.
              query-AllInside r.vivid_bufs (λ _. r.vivid_bufs 0) r.vpipe_fd output k t
                (omega (arith, grants r.vpipe_fd output before)))
            (h, (a, λ j. a 0)))
          (vpipe_request_mmap_buffers-Backed kernel r.vpipe_fd output buffer_count _ b))

  open_frame_rows-Sound : (s : Settings) (r : Capture) → Sound r → Safe (open_frame_rows kernel s r)
  unfolding Safe open_frame_rows
  open_frame_rows-Sound s r sound =
      reply (vpipe_open_csv kernel s.csv r.trace).0 (vpipe_open_csv kernel s.csv r.trace).1 (
        vpipe_open_csv-keeps _ (AllInside-IsQuiet r.vivid_bufs r.vpipe_out_bufs) kernel s.csv
          r.trace sound)
    where
      reply :
          (trace : Trace) (fp : Option ℕ)
          → AllInside r.vivid_bufs r.vpipe_out_bufs trace
          → Safe (file_reply r (trace, fp))
      reply trace none h = h.0
      reply trace (some fp) h = h

  export_slot-Sound :
      (r : Capture) (i : ℕ) (fd : Option ℕ) → Sound r → Safe (export_slot r i r.trace fd)
  unfolding Safe
  export_slot-Sound r i none sound = sound.0
  export_slot-Sound r i (some fd) sound =
      let (h, (a, b)) = gets-Sound r (descriptor fd) sound in
      let trace : Trace = obtained (descriptor fd) ∷ r.trace in
      (h, (put-Backed kernel r.vivid_fd capture trace r.vivid_bufs i _ (a i) a, b))

  export_vivid-Sound :
      (mode : Transport) (i : ℕ) (r : Capture) → Sound r → Safe (export_vivid kernel mode i r)
  unfolding Safe
  export_vivid-Sound transport_mmap i r sound = sound
  export_vivid-Sound transport_dmabuf i r sound =
      let call : Call = export_buffer r.vivid_fd capture i in
      export_slot-Sound (record r { trace = asked call ∷ r.trace }) i _
        (asks-Sound r call refl sound)

  queue_both-Sound : (s : Settings) (i : ℕ) (r : Capture) → Sound r → Safe (queue_both kernel s i r)
  queue_both-Sound s i r sound =
      both _ _
        (both _ _ (export_vivid-Sound s.transport i r sound)
          (λ r s. ask_device-Sound kernel _ r refl s))
        (λ r s. ask_device-Sound kernel _ r refl s)

  queue_all-Sound :
      (s : Settings) (n i : ℕ) (r : Capture)
      → Sound r
      → Safe (queue_all (queue_both kernel s) n i r)
  unfolding queue_all Safe
  queue_all-Sound s zero i r sound = sound
  queue_all-Sound s (suc n) i r sound =
      both (queue_both kernel s i r) (queue_all (queue_both kernel s) n (i + 1))
        (queue_both-Sound s i r sound) (λ r h. queue_all-Sound s n (i + 1) r h)

  start_stream-Sound :
      (fd : Option ℕ) (type : QueueType) (put : Capture → Capture) (r : Capture)
      → ((r : Capture) → Sound r → Sound (put r))
      → Sound r
      → Safe (start_stream kernel fd type put r)
  unfolding Safe
  start_stream-Sound fd type put r stays sound =
      let call : Call = stream_on fd type in
      let after = asks-Sound r call refl sound in
      Ends-if Sound Fed (kernel.succeeds (asked call ∷ r.trace)) _ _
        (λ _.
          stays _ (gets-Sound (record r { trace = asked call ∷ r.trace }) (stream fd type) after))
        (λ _. after.0)

  start_vivid-Sound : (r : Capture) → Sound r → Safe (start_vivid kernel r)
  start_vivid-Sound r sound =
      start_stream-Sound r.vivid_fd capture (λ r. record r { vivid_streaming = true }) r (λ r h. h)
        sound

  start_vpipe_capture-Sound : (r : Capture) → Sound r → Safe (start_vpipe_capture kernel r)
  start_vpipe_capture-Sound r sound =
      start_stream-Sound r.vpipe_fd capture (λ r. record r { vpipe_cap_streaming = true }) r
        (λ r h. h) sound

  start_vpipe_output-Sound : (r : Capture) → Sound r → Safe (start_vpipe_output kernel r)
  start_vpipe_output-Sound r sound =
      start_stream-Sound r.vpipe_fd output (λ r. record r { vpipe_out_streaming = true }) r
        (λ r h. h) sound

  pub set_up_capture-Sound :
      (s : Settings) (r : Capture) → Sound r → Safe (set_up_capture kernel s r)
  unfolding set_up_capture
  set_up_capture-Sound s r sound =
      both _ _
        (both _ _
          (both _ _
            (both _ _ (both _ _ requested (open_frame_rows-Sound s))
              (queue_all-Sound s buffer_count 0))
            start_vivid-Sound)
          start_vpipe_capture-Sound)
        start_vpipe_output-Sound
    where
      requested : Safe (
          open_vivid kernel s r
          then open_vpipe kernel s
          then set_formats kernel
          then check_sizes kernel
          then request_vivid kernel
          then request_vpipe kernel
          then request_fed kernel s.transport)
      requested =
          both _ _
            (both _ _
              (both _ _
                (both _ _
                  (both _ _ (both _ _ (open_vivid-Sound s r sound) (open_vpipe-Sound s))
                    set_formats-Sound)
                  check_sizes-Sound)
                request_vivid-Sound)
              request_vpipe-Sound)
            (request_fed-Sound s.transport)
