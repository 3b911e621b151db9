-- ===== src/User/Runner/Loop/Measured.antt =====
-- user/vpipe-vcam-runner.c: the main loop measures every frame once.
use vpipe.Base.{
  ℕ, zero, suc, ◌+◌, ◌-◌, ◌%◌, ◌^◌, ◌≤◌, ◌<◌, ◌≡◌, refl, sym, ap, subst, ◌∙◌, arith, true, false,
  ◌&&◌, Option, none, some, ◌∷◌, inl, inr, min, ltb, leb, ltb→lt, if◌then◌else◌, u32, u64, Bytes,
}
use vpipe.M2m.{output, capture}
use vpipe.User.Calls.{
  Kernel, Trace, V4l2Buffer, asked, read_clock, dequeue_buffer, memory_mmap, next, ◌then◌, Ends,
  Ends-then, Ends-if, Ends-weaken, must_succeed-Ends,
}
use vpipe.User.Crc.{CrcTable, vpipe_crc32}
use vpipe.User.Runner.{verify_gradient}
use vpipe.User.Runner.Run.{BufferKind, Config, Run}
use vpipe.User.Runner.Submit.{submit_output, count_submitted, prefill, memory_at}
use vpipe.User.Runner.Times.{outputs, sent_at}
use vpipe.User.Runner.Loop.{
  note_occupancy, dequeue_capture, read_meta, is_dropped, frame_row, check_frame, requeue_capture,
  dequeue_output, memory_of, resubmit, one_frame, drain,
}
use vpipe.User.Runner.Loop.Rows.{Rows, Counts-row, counters-others}
use vpipe.User.Runner.Loop.Slots.{Keeps}
use vpipe.Uapi.{MetaEntry}
use vpipe.User.Runner.Loop.Flow.{InFlight, Flow, NotOk, submit_output-Flow}

read_meta-same :
    (kernel : Kernel) (fd : Option ℕ) (trace : Trace)
    → (outputs (read_meta kernel fd trace).0 ≡ outputs trace)
      × (sent_at kernel (read_meta kernel fd trace).0 ≡ sent_at kernel trace)
read_meta-same kernel none trace = (refl, refl)
read_meta-same kernel (some fd) trace = (refl, refl)

module _ (kernel : Kernel) (cfg : Config) (depth : ℕ) (fits : cfg.frames < 2 ^ 32) where
  abbrev Flows : Run → Type 0
  Flows = Flow kernel cfg depth

  abbrev Failed : Run → Type 0
  Failed = NotOk kernel cfg depth

  -- Unless every frame has been submitted, the pipeline is full.
  abbrev Full : Run → Type 0
  Full r = r.submitted < cfg.frames → r.submitted ≡ r.completed + depth

  abbrev pub Filled : Run → Type 0
  Filled r = Flows r × Full r × (r.completed ≡ 0)

  abbrev Flow-after : Run → Run → Type 0
  Flow-after r s = Flows s × (s.submitted ≡ r.submitted + 1) × (s.completed ≡ r.completed)

  full :
      (r : Run)
      → Flows r
      → r.completed ≡ 0
      → (ltb r.submitted cfg.frames && ltb r.submitted depth) ≡ false
      → Full r
  full r flow none_yet stop more =
      let (back, ahead, all) : InFlight kernel cfg depth r = flow.0 in ground arith

  pub prefill-Flow :
      (buffer : BufferKind) (fuel : ℕ) (r : Run)
      → Flows r
      → r.completed ≡ 0
      → depth ≤ r.submitted + fuel
      → Ends Filled Failed (prefill kernel cfg buffer depth fuel r)
  unfolding prefill
  prefill-Flow buffer zero r flow none_yet enough =
      (flow, λ more. omega (arith, flow.0.1), none_yet)
  prefill-Flow buffer (suc fuel) r flow none_yet enough =
      Ends-if Filled Failed (ltb r.submitted cfg.frames && ltb r.submitted depth) _ (next r)
        (λ room.
          Ends-then (Flow-after r) Filled Failed
            (submit_output kernel cfg buffer r.submitted r.submitted r then count_submitted)
            (λ s. prefill kernel cfg buffer depth fuel s)
            (submit_output-Flow kernel cfg depth fits buffer r.submitted r flow (ground arith)
              (ground arith))
            (λ s (flow', sent, done).
              prefill-Flow buffer fuel s flow' (done ∙ none_yet) (omega arith)))
        (λ stop. (flow, full r flow none_yet stop, none_yet))

  module _ (shallow : depth ≤ cfg.queue_depth) where
    -- The variables of the DQBUF are those of the last two calls: the DQBUF and the clock.
    abbrev Fresh : Run → Type 0
    Fresh s =
        (t : Trace) × (s.trace ≡ asked read_clock ∷ t)
        × (s.cap_dq ≡ kernel.dequeued t)
        × (s.t_dq ≡ kernel.number s.trace)

    -- The state after a frame has been dequeued and looked at.
    abbrev Dequeued : Run → Run → Type 0
    Dequeued r s =
        Flows s
        × (s.st.occ_max ≡ min cfg.frames depth)
        × Fresh s
        × (s.submitted ≡ r.submitted)
        × (s.completed ≡ r.completed)

    abbrev Checked : Run → Run → Type 0
    Checked r s = Flows s × (s.submitted ≡ r.submitted) × (s.completed ≡ r.completed + 1)

    note_occupancy-most :
        (r : Run)
        → Flows r
        → Full r
        → r.completed < cfg.frames
        → (note_occupancy r).st.occ_max ≡ min cfg.frames depth
    note_occupancy-most r ((back, ahead, all), counted, keeps, rows, lines, counts, most, failed)
          filled more =
        elim most [ inl none_yet ↦ ground arith | inr e ↦ ground arith ]

    note_occupancy-Flow :
        (r : Run)
        → Flows r
        → (note_occupancy r).st.occ_max ≡ min cfg.frames depth
        → Flows (note_occupancy r)
    note_occupancy-Flow r ((back, ahead, all), counted, keeps, rows, lines, counts, most, failed)
          peak =
        ((back, ahead, all), counted, keeps, rows, lines, counts, inr peak, failed)

    dequeue_capture-Flow :
        (r : Run)
        → Flows r
        → Full r
        → r.completed < cfg.frames
        → Ends (Dequeued r) Failed (dequeue_capture kernel cfg (note_occupancy r))
    dequeue_capture-Flow r flow filled more =
        let peak : (note_occupancy r).st.occ_max ≡ min cfg.frames depth =
          note_occupancy-most r flow filled more in
        let noted : Flows (note_occupancy r) = note_occupancy-Flow r flow peak in
        let after : Trace = asked (dequeue_buffer r.fd capture memory_mmap) ∷ r.trace in
        Ends-if (Dequeued r) Failed (kernel.succeeds after) _ _
          (λ _.
            Ends-if (Dequeued r) Failed (leb cfg.queue_depth (kernel.dequeued after).index) _ _
              (λ _. flow.7) (λ _. (noted, peak, (after, refl, refl, refl), refl, refl)))
          (λ _. flow.7)

    check_frame-Flow :
        (r : Run)
        → Flows r
        → r.st.occ_max ≡ min cfg.frames depth
        → Fresh r
        → r.completed < r.submitted
        → Checked r (check_frame kernel cfg r)
    unfolding check_frame
    check_frame-Flow r ((back, ahead, all), counted, keeps, rows, lines, counts, most, failed) peak
          (before, now, buffer, clock) open_ =
        let (same_outputs, same_sent) = read_meta-same kernel r.meta_fd r.trace in
        let got : Trace × Option MetaEntry = read_meta kernel r.meta_fd r.trace in
        let wrap : u32 (r.completed + 1) ≡ r.completed + 1 = omega arith in
        let frame : Bytes = memory_at kernel r.trace (r.cap_bufs r.cap_dq.index).addr in
        let sum : CrcTable × ℕ = vpipe_crc32 r.crc frame r.cap_dq.bytesused in
        let sent : ℕ → ℕ = sent_at kernel got.0 in
        let own : r.qbuf_ring (r.completed % cfg.queue_depth) ≡ sent r.completed =
          keeps r.completed open_ (omega arith)
          ∙ ap (λ (f : ℕ → ℕ). f r.completed) (sym same_sent) in
        let seen_time : r.t_dq ≡ kernel.number (asked read_clock ∷ before) =
          clock ∙ ap kernel.number now in
        let seen_frame : frame
            ≡ memory_at kernel (asked read_clock ∷ before)
                (r.cap_bufs (kernel.dequeued before).index).addr =
          ap (λ t. memory_at kernel t (r.cap_bufs r.cap_dq.index).addr) now
          ∙ ap
              (λ (q : V4l2Buffer).
                memory_at kernel (asked read_clock ∷ before) (r.cap_bufs q.index).addr)
              buffer in
        let (most_kept, failed_kept) =
          counters-others cfg (is_dropped got.1) (verify_gradient frame) got.1 sum.1 r.st in
        (
          (
            (omega arith, omega arith, all),
            same_outputs ∙ counted,
            subst (λ f. Keeps cfg.queue_depth r.qbuf_ring f r.submitted) (sym same_sent) keeps,
            (
              sym lines,
              own,
              ap (λ t. u64 (r.t_dq + 2 ^ 64 - t % 2 ^ 64)) own,
              refl,
              subst (λ f. Rows f r.rows) (sym same_sent) rows,
            ),
            omega arith,
            Counts-row kernel r.cap_bufs cfg r.rows (frame_row cfg r got.1 sum.1) frame r.st
                (omega arith) (before, seen_time, seen_frame) counts,
            inr (most_kept ∙ peak),
            failed_kept ∙ failed,
          ),
          refl,
          wrap,
        )

    abbrev After : Run → Run → Type 0
    After r s = Flows s × Full s × (s.completed ≡ r.completed + 1)

    -- The last part of a round: `p` is the state at its start.
    resubmit-Flow :
        (buffer : BufferKind) (p r : Run)
        → Full p
        → Checked p r
        → Ends (After p) Failed (resubmit kernel cfg buffer r)
    unfolding resubmit
    resubmit-Flow buffer p r filled (flow, sent, done) =
        Ends-if (After p) Failed (ltb r.submitted cfg.frames)
          (submit_output kernel cfg buffer r.submitted r.out_dq.index r then count_submitted)
          (next r)
          (λ more.
            Ends-weaken (Flow-after r) (After p) Failed _
              (λ s (flow', sent', done'). (flow', λ _. omega arith, done' ∙ done))
              (submit_output-Flow kernel cfg depth fits buffer r.out_dq.index r flow
                (ltb→lt r.submitted cfg.frames more) (room more)))
          (λ stop. (flow, λ more. absurd (refute stop more), done))
      where
        room : ltb r.submitted cfg.frames ≡ true → r.submitted < r.completed + depth
        room more = omega (arith, filled, ltb→lt r.submitted cfg.frames more)

        refute : ltb r.submitted cfg.frames ≡ false → r.submitted < cfg.frames → ⊥
        refute stop more = ground arith

    -- A frame that is not yet measured has been submitted.
    ahead : (r : Run) → Full r → r.completed < cfg.frames → 0 < depth → r.completed < r.submitted
    ahead r filled more deep = ground arith

    one_frame-Flow :
        (buffer : BufferKind) (r : Run)
        → Flows r
        → Full r
        → r.completed < cfg.frames
        → 0 < depth
        → Ends (After r) Failed (one_frame kernel cfg buffer r)
    unfolding one_frame
    one_frame-Flow buffer r flow filled more deep =
        Ends-then (Checked r) (After r) Failed _ (resubmit kernel cfg buffer)
          (Ends-then (Checked r) (Checked r) Failed _ (dequeue_output kernel buffer)
            (Ends-then (Dequeued r) (Checked r) Failed _
              (λ s. requeue_capture kernel (check_frame kernel cfg s))
              (dequeue_capture-Flow r flow filled more) (λ s h. requeued s h))
            (λ s h. drained s h))
          (λ s h. resubmit-Flow buffer r s filled h)
      where
        waiting_before : r.completed < r.submitted
        waiting_before = ahead r filled more deep

        requeued :
            (s : Run)
            → Dequeued r s
            → Ends (Checked r) Failed (requeue_capture kernel (check_frame kernel cfg s))
        requeued s (flow', peak, fresh, sent, done) =
            let waiting : s.completed < s.submitted = omega (arith, waiting_before) in
            let (checked, sent', done') = check_frame-Flow s flow' peak fresh waiting in
            must_succeed-Ends (Checked r) Failed kernel _ (check_frame kernel cfg s).trace
              (λ t. record (check_frame kernel cfg s) { trace = t })
              (checked, sent' ∙ sent, done' ∙ ap (λ n. n + 1) done) checked.7

        drained : (s : Run) → Checked r s → Ends (Checked r) Failed (dequeue_output kernel buffer s)
        drained s h =
            Ends-if (Checked r) Failed
              (kernel.succeeds (asked (dequeue_buffer s.fd output (memory_of buffer)) ∷ s.trace)) _
              _ (λ _. h) (λ _. h.0.7)

    -- The main loop ends: with as many rounds as frames, each frame has been measured.
    pub drain-Flow :
        (buffer : BufferKind) (fuel : ℕ) (r : Run)
        → 0 < depth
        → Flows r
        → Full r
        → cfg.frames ≤ r.completed + fuel
        → Ends (λ s. Flows s × (s.completed ≡ cfg.frames)) Failed (drain kernel cfg buffer fuel r)
    unfolding drain
    drain-Flow buffer zero r deep flow filled enough = (flow, omega (arith, flow.0.0, flow.0.2))
    drain-Flow buffer (suc fuel) r deep flow filled enough =
        Ends-if (λ s. Flows s × (s.completed ≡ cfg.frames)) Failed (ltb r.completed cfg.frames) _
          (next r)
          (λ more.
            Ends-then (After r) (λ s. Flows s × (s.completed ≡ cfg.frames)) Failed
              (one_frame kernel cfg buffer r) (λ s. drain kernel cfg buffer fuel s)
              (one_frame-Flow buffer r flow filled (ltb→lt r.completed cfg.frames more) deep)
              (λ s (flow', filled', done).
                drain-Flow buffer fuel s deep flow' filled' (omega arith)))
          (λ stop. (flow, all_done stop (omega (arith, flow.0.0, flow.0.2))))
      where
        all_done :
            ltb r.completed cfg.frames ≡ false → r.completed ≤ cfg.frames → r.completed ≡ cfg.frames
        all_done stop h = ground arith
