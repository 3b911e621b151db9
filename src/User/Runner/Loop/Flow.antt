-- ===== src/User/Runner/Loop/Flow.antt =====
-- user/vpipe-vcam-runner.c: the frames between their submission and their row.
use vpipe.Base.{
  ℕ, ◌+◌, ◌%◌, ◌^◌, ◌≤◌, ◌<◌, ◌≡◌, refl, sym, ap, subst, ◌∙◌, arith, false, Option, ◌∷◌, length,
  ◌==◌, if◌then◌else◌, u32, Bool-cases, ◌⊎◌, inl, inr, ==_iff, ne→==, min,
}
use vpipe.M2m.{output}
use vpipe.User.Calls.{
  Kernel, Trace, Call, V4l2Buffer, asked, read_clock, queue_buffer, Outcome, ◌then◌, Ends,
  Ends-then, must_succeed-Ends,
}
use vpipe.User.Runner.Run.{
  SourceKind, src_fixture, src_vcam, BufferKind, buf_mmap, buf_dmabuf, Config, Run, ask,
}
use vpipe.User.Runner.Submit.{
  pace, note_time, fill_output, queue_output, submit_output, count_submitted, interval_ns, put_time,
}
use vpipe.User.Runner.Times.{outputs, last_clock, sent_at}
use vpipe.User.Runner.Loop.Slots.{Keeps, put_time-Keeps}
use vpipe.User.Runner.Loop.Rows.{Rows, Rows-later, Counts}

-- A QBUF of the OUTPUT queue is the next one, and leaves the earlier ones.
sent-now :
    (kernel : Kernel) (trace : Trace) (fd : Option ℕ) (b : V4l2Buffer) (i : ℕ)
    → outputs trace ≡ i
    → sent_at kernel (asked (queue_buffer fd output b) ∷ trace) i ≡ last_clock kernel trace
sent-now kernel trace fd b i e = rw ((==_iff (outputs trace) i).1 e) refl

sent-before :
    (kernel : Kernel) (trace : Trace) (fd : Option ℕ) (b : V4l2Buffer) (i : ℕ)
    → i < outputs trace
    → sent_at kernel (asked (queue_buffer fd output b) ∷ trace) i ≡ sent_at kernel trace i
sent-before kernel trace fd b i h = rw (ne→== (outputs trace) i (λ e. omega arith)) refl

module _ (kernel : Kernel) (cfg : Config) (depth : ℕ) where
  -- At most `depth` frames are between the queues.
  abbrev pub InFlight : Run → Type 0
  InFlight r =
      (r.completed ≤ r.submitted) × (r.submitted ≤ r.completed + depth) × (r.submitted ≤ cfg.frames)

  -- The most frames that were in flight: none before the first round, and then the depth, or all of the
  -- frames when they are fewer.
  abbrev pub Peak : Run → Type 0
  Peak r = ((r.completed ≡ 0) × (r.st.occ_max ≡ 0)) ⊎ (r.st.occ_max ≡ min cfg.frames depth)

  -- The submissions that the calls show are counted, and each that may still be looked up has its time in
  -- the ring; each row has the time of its own submission, and the counters count the rows.
  abbrev pub Flow : Run → Type 0
  Flow r =
      InFlight r
      × (outputs r.trace ≡ r.submitted)
      × Keeps cfg.queue_depth r.qbuf_ring (sent_at kernel r.trace) r.submitted
      × Rows (sent_at kernel r.trace) r.rows
      × (length r.rows ≡ r.completed)
      × Counts kernel r.cap_bufs cfg r.rows r.st
      × Peak r
      × (r.st.ok ≡ false)

  abbrev pub NotOk : Run → Type 0
  NotOk r = r.st.ok ≡ false

  pace-Flow : (interval : ℕ) (r : Run) → Flow r → Flow (pace kernel interval r)
  pace-Flow interval r flow = elim (Bool-cases (interval == 0)) [
    | inl e ↦ rw e flow
    | inr e ↦
        rw e (elim (Bool-cases (r.next_ns == 0)) [ inl e' ↦ rw e' flow | inr e' ↦ rw e' flow ])
  ]

  pace_counts :
      (interval : ℕ) (r : Run)
      → ((pace kernel interval r).submitted ≡ r.submitted)
        × ((pace kernel interval r).completed ≡ r.completed)
  pace_counts interval r = ground arith

  -- After a submission that succeeds.
  abbrev Submitted : Run → Run → Type 0
  Submitted r s = Flow s × (s.submitted ≡ r.submitted + 1) × (s.completed ≡ r.completed)

  -- The state after the QBUF: `trace` is that of the calls before it.
  abbrev queued_run : Run → Trace → (ℕ → ℕ) → Call → Run
  queued_run r trace ring call = record r { trace = asked call ∷ trace; qbuf_ring = ring }

  module _ (fits : cfg.frames < 2 ^ 32) where
    queued-Flow :
        (r : Run) (trace : Trace) (fd : Option ℕ) (b : V4l2Buffer) (v : ℕ)
        → Flow r
        → r.submitted < cfg.frames
        → r.submitted < r.completed + depth
        → outputs trace ≡ outputs r.trace
        → sent_at kernel trace ≡ sent_at kernel r.trace
        → last_clock kernel trace ≡ v
        → Ends (Submitted r) NotOk (
            count_submitted (
              queued_run r trace
                (put_time r.qbuf_ring (r.submitted % cfg.queue_depth) v)
                (queue_buffer fd output b)))
    queued-Flow r trace fd b v flow more room same_outputs same_sent clock =
        let ((back, ahead, all), counted, keeps, rows, lines, counts, most, open_) = flow in
        let wrap : u32 (r.submitted + 1) ≡ r.submitted + 1 = omega arith in
        let after : Trace = asked (queue_buffer fd output b) ∷ trace in
        let now : sent_at kernel after r.submitted ≡ v =
          sent-now kernel trace fd b r.submitted (same_outputs ∙ counted) ∙ clock in
        let before : (i : ℕ) → i < r.submitted → sent_at kernel after i ≡ sent_at kernel r.trace i =
          λ i h.
            sent-before kernel trace fd b i (omega arith) ∙ ap (λ (f : ℕ → ℕ). f i) same_sent in
        let ring' : ℕ → ℕ = put_time r.qbuf_ring (r.submitted % cfg.queue_depth) v in
        let kept : Keeps cfg.queue_depth ring' (sent_at kernel after) (r.submitted + 1) =
          put_time-Keeps cfg.queue_depth r.qbuf_ring (sent_at kernel r.trace) (sent_at kernel after)
            r.submitted v keeps now before in
        (
          (
            (omega arith, omega arith, omega arith),
            omega arith,
            subst (Keeps cfg.queue_depth ring' (sent_at kernel after)) (sym wrap) kept,
            Rows-later (sent_at kernel r.trace) (sent_at kernel after) r.rows
                (λ i h. before i (omega arith)) rows,
            lines,
            counts,
            most,
            open_,
          ),
          wrap,
          refl,
        )

    abbrev After : Run → Run → Type 0
    After r s = Ends (Submitted r) NotOk (count_submitted s)

    -- The QBUF after the time of the submission has been noted, and perhaps a buffer filled.
    ask_output-Flow :
        (source : SourceKind) (i n : ℕ) (r : Run) (b : V4l2Buffer)
        → Flow r
        → r.submitted < cfg.frames
        → r.submitted < r.completed + depth
        → Ends (After r) NotOk (
            let filled : Run = fill_output kernel source n i (note_time kernel cfg r.submitted r) in
            ask kernel (queue_buffer filled.fd output b) filled)
    unfolding fill_output
    ask_output-Flow src_vcam i n r b flow more room =
        let before : Trace =
          (fill_output kernel src_vcam n i (note_time kernel cfg r.submitted r)).trace in
        must_succeed-Ends (After r) NotOk kernel (queue_buffer r.fd output b) before
          (λ t. record (note_time kernel cfg r.submitted r) { trace = t })
          (queued-Flow r before r.fd b (kernel.number (asked read_clock ∷ r.trace)) flow more room
            refl refl refl)
          flow.7
    ask_output-Flow src_fixture i n r b flow more room =
        let before : Trace =
          (fill_output kernel src_fixture n i (note_time kernel cfg r.submitted r)).trace in
        must_succeed-Ends (After r) NotOk kernel (queue_buffer r.fd output b) before
          (λ t. record (note_time kernel cfg r.submitted r) { trace = t })
          (queued-Flow r before r.fd b (kernel.number (asked read_clock ∷ r.trace)) flow more room
            refl refl refl)
          flow.7

    both :
        (P P' : Run → Type 0) (o : Outcome Run) (step : Run → Outcome Run)
        → Ends P NotOk o
        → ((s : Run) → P s → Ends P' NotOk (step s))
        → Ends P' NotOk (o then step)
    both P P' o step ends keep = Ends-then P P' NotOk o step ends keep

    queue_output-Flow :
        (buffer : BufferKind) (i n : ℕ) (r : Run)
        → Flow r
        → r.submitted < cfg.frames
        → r.submitted < r.completed + depth
        → Ends
            (After r)
            NotOk
            (queue_output kernel cfg buffer n i (note_time kernel cfg r.submitted r))
    unfolding queue_output fill_output
    queue_output-Flow buf_dmabuf i n r flow more room =
        ask_output-Flow src_vcam i n r _ flow more room
    queue_output-Flow buf_mmap i n r flow more room =
        ask_output-Flow cfg.source i n r _ flow more room

    -- `submit_output` of the next frame, if there is room for it.
    pub submit_output-Flow :
        (buffer : BufferKind) (i : ℕ) (r : Run)
        → Flow r
        → r.submitted < cfg.frames
        → r.submitted < r.completed + depth
        → Ends
            (Submitted r)
            NotOk
            (submit_output kernel cfg buffer r.submitted i r then count_submitted)
    unfolding submit_output
    submit_output-Flow buffer i r flow more room =
        let p : Run = pace kernel (interval_ns cfg) r in
        let (sent, done) = pace_counts (interval_ns cfg) r in
        let queued : Ends (After p) NotOk
            (queue_output kernel cfg buffer p.submitted i (note_time kernel cfg p.submitted p)) =
          queue_output-Flow buffer i p.submitted p (pace-Flow (interval_ns cfg) r flow)
            (omega arith) (omega arith) in
        both (After p) (Submitted r)
          (queue_output kernel cfg buffer r.submitted i (note_time kernel cfg r.submitted p))
          count_submitted
          (subst
            (λ n.
              Ends (After p) NotOk (queue_output kernel cfg buffer n i (note_time kernel cfg n p)))
            sent queued)
          (λ s (flow', sent', done'). (flow', sent' ∙ ap (λ n. n + 1) sent, done' ∙ done))
