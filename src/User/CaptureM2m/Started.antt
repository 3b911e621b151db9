-- ===== src/User/CaptureM2m/Started.antt =====
-- user/vpipe-capture-m2m.c: what is held once its queues are started.
use vpipe.Base.{
  ℕ, zero, suc, ◌+◌, ◌≤◌, ◌<◌, ◌≡◌, ◌≢◌, ap, ◌∙◌, Option, none, some, ◌∷◌, arith, if◌then◌else◌,
}
use vpipe.M2m.{QueueType, output, capture}
use vpipe.User.Calls.{
  Kernel, MmapBuffer, Trace, Handle, Call, asked, descriptor, file, Outcome, ◌then◌, Ends,
  Ends-then, Ends-if, open_device, stream_on, export_buffer,
}
use vpipe.User.Calls.Balance.{taken, given_back, held}
use vpipe.User.Queues.{put_slot, queue_all}
use vpipe.User.Queues.Mapped.{slots_held, buffer_held, Grants, slots_cost-put, put_slot-other}
use vpipe.User.Csv.{vpipe_open_csv}
use vpipe.User.Csv.Balance.{vpipe_open_csv-Holds}
use vpipe.User.CaptureM2m.Arguments.{Transport, transport_dmabuf, transport_mmap, Settings}
use vpipe.User.CaptureM2m.Setup.{
  buffer_count, Capture, set_formats, check_sizes, request_vivid, request_vpipe, request_fed,
  file_reply, open_frame_rows, export_slot, export_vivid, queue_both, start_vivid,
  start_vpipe_capture, start_vpipe_output, set_up_capture, open_vivid, open_vpipe,
}
use vpipe.User.CaptureM2m.Held.{
  capture_held, Kept, running-open, running-off, Idle1, Idle2, Idle3, Idle4, Idle5, Idle6, Idle7,
  Idle8, Idle9, Idle10, With, ask_device-With,
}
use vpipe.User.CaptureM2m.Requested.{
  vivid_reply-With, vpipe_reply-With, set_formats-With, check_sizes-With, request_vivid-With,
  request_vpipe-With, request_fed-With,
}

module _ (weight : Handle → ℕ) (kernel : Kernel) where
  open_frame_rows-With :
      (s : Settings) (r : Capture)
      → With weight (Idle5 weight) r
      → Ends (With weight (Idle4 weight 0)) (Kept weight) (open_frame_rows kernel s r)
  unfolding open_frame_rows capture_held
  open_frame_rows-With s r (kept, ((facts, unset), opened)) =
      reply (vpipe_open_csv kernel s.csv r.trace).0 (vpipe_open_csv kernel s.csv r.trace).1
        (vpipe_open_csv-Holds weight (capture_held weight r) kernel s.csv r.trace kept)
    where
      reply :
          (trace : Trace) (fp : Option ℕ)
          → taken weight trace
            ≡ given_back weight trace + (capture_held weight r + held weight file fp)
          → Ends (With weight (Idle4 weight 0)) (Kept weight) (file_reply r (trace, fp))
      reply trace none h = omega arith
      reply trace (some fp) h = (omega (arith, ap (held weight file) unset), (facts, opened))

  export_slot-With :
      (r : Capture) (i : ℕ) (call : Call) (fd : Option ℕ)
      → i < buffer_count
      → With weight (Idle4 weight i) r
      → Ends
          (With weight (Idle4 weight (i + 1)))
          (Kept weight)
          (export_slot r i (asked call ∷ r.trace) fd)
  unfolding capture_held buffer_held
  export_slot-With r i call fd small (kept, ((facts, fresh), opened)) = exported fd
    where
      slot : MmapBuffer
      slot = r.vivid_bufs i

      spent :
          (b : MmapBuffer)
          → slots_held weight buffer_count (put_slot r.vivid_bufs i b) + buffer_held weight slot
            ≡ slots_held weight buffer_count r.vivid_bufs + buffer_held weight b
      spent b =
          slots_cost-put (buffer_held weight) buffer_count 0 i r.vivid_bufs b (omega arith) small

      later : (b : MmapBuffer) (j : ℕ) → i + 1 ≤ j → (put_slot r.vivid_bufs i b j).dmabuf_fd ≡ none
      later b j h =
          ap (λ b'. b'.dmabuf_fd) (put_slot-other r.vivid_bufs i j b (omega arith))
          ∙ fresh j (omega arith)

      bare : held weight descriptor slot.dmabuf_fd ≡ 0
      bare = ap (held weight descriptor) (fresh i (omega arith))

      exported :
          (fd : Option ℕ)
          → Ends
              (With weight (Idle4 weight (i + 1)))
              (Kept weight)
              (export_slot r i (asked call ∷ r.trace) fd)
      exported none = omega (arith, spent (record slot { dmabuf_fd = none }), bare)
      exported (some fd) = (
        omega (arith, spent (record slot { dmabuf_fd = some fd }), bare),
        ((facts, later _), opened),
      )

  queue_both-With :
      (s : Settings) (i : ℕ) (r : Capture)
      → i < buffer_count
      → With weight (Idle4 weight i) r
      → Ends (With weight (Idle4 weight (i + 1))) (Kept weight) (queue_both kernel s i r)
  queue_both-With s i r small h =
      Ends-then (With weight (Idle4 weight (i + 1))) (With weight (Idle4 weight (i + 1)))
        (Kept weight) _ _
        (Ends-then (With weight (Idle4 weight (i + 1))) (With weight (Idle4 weight (i + 1)))
          (Kept weight) (export_vivid kernel s.transport i r) _ (export_vivid-With s.transport)
          (λ r h. ask_device-With weight kernel (Idle4 weight (i + 1)) _ r (λ t f. f) h))
        (λ r h. ask_device-With weight kernel (Idle4 weight (i + 1)) _ r (λ t f. f) h)
    where
      export_vivid-With :
          (mode : Transport)
          → Ends (With weight (Idle4 weight (i + 1))) (Kept weight) (export_vivid kernel mode i r)
      export_vivid-With transport_mmap = (h.0, ((h.1.0.0, λ j k. h.1.0.1 j (omega arith)), h.1.1))
      export_vivid-With transport_dmabuf =
          export_slot-With r i (export_buffer r.vivid_fd capture i) _ small h

  queue_all-With :
      (s : Settings) (n i : ℕ) (r : Capture)
      → i + n ≤ buffer_count
      → With weight (Idle4 weight i) r
      → Ends (With weight (Idle3 weight)) (Kept weight) (queue_all (queue_both kernel s) n i r)
  unfolding queue_all
  queue_all-With s zero i r small (kept, ((facts, fresh), opened)) = (kept, (facts, opened))
  queue_all-With s (suc n) i r small h =
      Ends-then (With weight (Idle4 weight (i + 1))) (With weight (Idle3 weight)) (Kept weight)
        (queue_both kernel s i r) (queue_all (queue_both kernel s) n (i + 1))
        (queue_both-With s i r (omega arith) h)
        (λ r h. queue_all-With s n (i + 1) r (omega arith) h)

  start_vivid-With :
      (r : Capture)
      → With weight (Idle3 weight) r
      → Ends (With weight (Idle2 weight)) (Kept weight) (start_vivid kernel r)
  unfolding capture_held
  start_vivid-With r (kept, ((facts, unset), opened)) =
      Ends-if (With weight (Idle2 weight)) (Kept weight)
        (kernel.succeeds (asked (stream_on r.vivid_fd capture) ∷ r.trace)) _ _
        (λ _. (
          omega (
            arith,
            running-off weight r.vivid_fd r.vivid_streaming capture unset,
            running-open weight r.vivid_fd capture opened.0,
          ),
          (facts, opened),
        ))
        (λ _. kept)

  start_vpipe_capture-With :
      (r : Capture)
      → With weight (Idle2 weight) r
      → Ends (With weight (Idle1 weight)) (Kept weight) (start_vpipe_capture kernel r)
  unfolding capture_held
  start_vpipe_capture-With r (kept, ((facts, unset), opened)) =
      Ends-if (With weight (Idle1 weight)) (Kept weight)
        (kernel.succeeds (asked (stream_on r.vpipe_fd capture) ∷ r.trace)) _ _
        (λ _. (
          omega (
            arith,
            running-off weight r.vpipe_fd r.vpipe_cap_streaming capture unset,
            running-open weight r.vpipe_fd capture opened.1,
          ),
          (facts, opened),
        ))
        (λ _. kept)

  start_vpipe_output-With :
      (r : Capture)
      → With weight (Idle1 weight) r
      → Ends (Kept weight) (Kept weight) (start_vpipe_output kernel r)
  unfolding capture_held
  start_vpipe_output-With r (kept, (unset, opened)) =
      Ends-if (Kept weight) (Kept weight)
        (kernel.succeeds (asked (stream_on r.vpipe_fd output) ∷ r.trace)) _ _
        (λ _. omega (
          arith,
          running-off weight r.vpipe_fd r.vpipe_out_streaming output unset,
          running-open weight r.vpipe_fd output opened.1,
        ))
        (λ _. kept)

  -- One step after the others, with what is not yet set before and after it.
  chain :
      (Facts Facts' : Capture → Type 0) (o : Outcome Capture) (step : Capture → Outcome Capture)
      → Ends (With weight Facts) (Kept weight) o
      → ((r : Capture) → With weight Facts r → Ends (With weight Facts') (Kept weight) (step r))
      → Ends (With weight Facts') (Kept weight) (o then step)
  chain Facts Facts' o step ends keep =
      Ends-then (With weight Facts) (With weight Facts') (Kept weight) o step ends keep

  open_both-With :
      (s : Settings) (r : Capture)
      → Kept weight r × Idle10 weight r
      → Ends
          (With weight (Idle8 weight))
          (Kept weight)
          (open_vivid kernel s r then open_vpipe kernel s)
  open_both-With s r (kept, facts) =
      Ends-then (λ r. Kept weight r × (Idle9 weight r × (r.vivid_fd ≢ none)))
        (With weight (Idle8 weight)) (Kept weight) _ (open_vpipe kernel s)
        (vivid_reply-With weight kernel r (open_device s.vivid) _ kept facts)
        (λ r (kept, facts). vpipe_reply-With weight kernel r (open_device s.vpipe) _ kept facts)

  pub set_up_capture-Kept :
      (s : Settings) (r : Capture)
      → ((fd : Option ℕ) (type : QueueType) → Grants kernel fd type buffer_count)
      → Kept weight r × Idle10 weight r
      → Ends (Kept weight) (Kept weight) (set_up_capture kernel s r)
  unfolding set_up_capture
  set_up_capture-Kept s r grants h =
      Ends-then (With weight (Idle1 weight)) (Kept weight) (Kept weight) _ _
        (chain (Idle2 weight) (Idle1 weight) _ _
          (chain (Idle3 weight) (Idle2 weight) _ _
            (chain (Idle4 weight 0) (Idle3 weight) _ _
              (chain (Idle5 weight) (Idle4 weight 0) _ _ (requested_all) (open_frame_rows-With s))
              (λ r. queue_all-With s buffer_count 0 r (omega arith)))
            start_vivid-With)
          start_vpipe_capture-With)
        start_vpipe_output-With
    where
      formatted : Ends (With weight (Idle8 weight)) (Kept weight) (
          open_vivid kernel s r
          then open_vpipe kernel s
          then set_formats kernel
          then check_sizes kernel)
      formatted =
          chain (Idle8 weight) (Idle8 weight) _ _
            (chain (Idle8 weight) (Idle8 weight) _ _ (open_both-With s r h)
              (set_formats-With weight kernel))
            (check_sizes-With weight kernel)

      requested_all : Ends (With weight (Idle5 weight)) (Kept weight) (
          open_vivid kernel s r
          then open_vpipe kernel s
          then set_formats kernel
          then check_sizes kernel
          then request_vivid kernel
          then request_vpipe kernel
          then request_fed kernel s.transport)
      requested_all =
          chain (Idle6 weight) (Idle5 weight) _ _
            (chain (Idle7 weight) (Idle6 weight) _ _
              (chain (Idle8 weight) (Idle7 weight) _ _ formatted
                (λ r. request_vivid-With weight kernel r (grants r.vivid_fd capture)))
              (λ r. request_vpipe-With weight kernel r (grants r.vpipe_fd capture)))
            (λ r. request_fed-With weight kernel s.transport r grants)
