-- ===== src/User/Runner/Loop/Complete.antt =====
-- user/vpipe-vcam-runner.c: what a run that is said to be good has measured, and that a run whose calls
-- succeed is good.
use vpipe.Base.{
  ℕ, ◌*◌, ◌^◌, ◌≤◌, ◌<◌, ◌≡◌, refl, sym, ap, subst, fun_ext, ◌∙◌, arith, Bool, true, false, Option,
  none, some, List, [], ◌∷◌, length, if◌then◌else◌, inl, inr, min,
}
use vpipe.M2m.{QueueType, output, capture}
use vpipe.User.Calls.{
  Kernel, Trace, asked, obtained, alloc, heap, Outcome, next, cleanup, ◌then◌, Always, Ends,
  Ends-then, at_cleanup,
}
use vpipe.User.Quiet.{IsQuiet, fills-feeds_output, give_descriptor-keeps, vpipe_unmap_buffers-keeps}
use vpipe.User.Queues.{give_descriptor}
use vpipe.User.Crc.{CrcTable}
use vpipe.User.Runner.Run.{
  BufferKind, buf_mmap, buf_dmabuf, Config, Run, start_run, set_up, out_depth, max_queue_depth,
}
use vpipe.User.Runner.Run.Held.{GrantsAll}
use vpipe.User.Runner.Run.Untouched.{Untouched, Uncounted, set_up-Untouched}
use vpipe.User.Runner.Submit.{prefill}
use vpipe.User.Runner.Times.{sent_at}
use vpipe.User.Runner.Loop.{
  drain, give_stream, give_file, give_heap, give_outputs, clean_up, mark_ok, measure, run_allocated,
  run_one,
}
use vpipe.User.Runner.Loop.Rows.{Rows, Counts}
use vpipe.User.Runner.Loop.Flow.{Flow, Peak}
use vpipe.User.Runner.Loop.Measured.{Filled, prefill-Flow, drain-Flow}
use vpipe.User.Runner.Loop.Goes.{Answers, Goes}
use vpipe.User.Runner.Loop.Finishes.{measure-Goes}

-- Every frame has one row, and its latency is that of its own submission; the counters count the rows and
-- the frames that have the pattern; the most frames in flight are `depth`, or all when they are fewer.
abbrev pub Measured : Kernel → Config → ℕ → Run → Type 0
Measured kernel cfg depth r =
    (length r.rows ≡ cfg.frames)
    × Rows (sent_at kernel r.trace) r.rows
    × Counts kernel r.cap_bufs cfg r.rows r.st
    × (r.st.occ_max ≡ min cfg.frames depth)

depth_positive : (cfg : Config) (buffer : BufferKind) (n : ℕ) → 0 < out_depth cfg buffer n
depth_positive cfg buffer n = ground arith

depth_fits :
    (cfg : Config) (buffer : BufferKind) (n : ℕ)
    → 0 < cfg.queue_depth
    → out_depth cfg buffer n ≤ cfg.queue_depth
depth_fits cfg buffer n h = ground arith

-- The times that are read off the calls are not changed by what is given back.
module _ (kernel : Kernel) (sent : ℕ → ℕ) where
  abbrev SameTimes : Trace → Type 0
  SameTimes trace = sent_at kernel trace ≡ sent

  SameTimes-IsQuiet : IsQuiet SameTimes
  SameTimes-IsQuiet = record {
    asks = λ call trace h e. fun_ext (λ i. rw (fills-feeds_output call h) refl) ∙ e;
    gets = λ handle trace e. e;
    gives = λ handle trace e. e;
  }

  give_stream-SameTimes :
      (streaming : Bool) (fd : Option ℕ) (type : QueueType) (trace : Trace)
      → SameTimes trace
      → SameTimes (give_stream streaming fd type trace)
  give_stream-SameTimes false fd type trace e = e
  give_stream-SameTimes true fd type trace e = e

  give_file-SameTimes :
      (fp : Option ℕ) (trace : Trace) → SameTimes trace → SameTimes (give_file fp trace)
  give_file-SameTimes none trace e = e
  give_file-SameTimes (some fp) trace e = e

  give_heap-SameTimes :
      (a : Option ℕ) (trace : Trace) → SameTimes trace → SameTimes (give_heap a trace)
  give_heap-SameTimes none trace e = e
  give_heap-SameTimes (some a) trace e = e

  give_outputs-SameTimes :
      (cfg : Config) (buffer : BufferKind) (r : Run) (trace : Trace)
      → SameTimes trace
      → SameTimes (give_outputs cfg buffer r trace)
  unfolding give_outputs
  give_outputs-SameTimes cfg buf_dmabuf r trace e = e
  give_outputs-SameTimes cfg buf_mmap r trace e =
      vpipe_unmap_buffers-keeps SameTimes SameTimes-IsQuiet kernel r.out_bufs cfg.queue_depth trace
        e

  clean_up-SameTimes :
      (cfg : Config) (buffer : BufferKind) (r : Run)
      → SameTimes r.trace
      → SameTimes (clean_up cfg buffer r)
  unfolding clean_up
  clean_up-SameTimes cfg buffer r e =
      let closes : (fd : Option ℕ) (trace : Trace)
          → SameTimes trace
          → SameTimes (give_descriptor fd trace) =
        give_descriptor-keeps SameTimes SameTimes-IsQuiet kernel in
      give_heap-SameTimes r.lat _ (
        closes r.fd _ (
          vpipe_unmap_buffers-keeps SameTimes SameTimes-IsQuiet kernel r.cap_bufs cfg.queue_depth _
            (give_outputs-SameTimes cfg buffer r _ (
              closes r.src_fd _ (
                closes r.meta_fd _ (
                  give_file-SameTimes r.fp _ (
                    give_stream-SameTimes r.cap_streaming r.fd capture _
                      (give_stream-SameTimes r.out_streaming r.fd output _ e))))))))

module _ (kernel : Kernel) (cfg : Config) (fits : cfg.frames < 2 ^ 32)
    (slots : 0 < cfg.queue_depth) where
  -- Before the first submission.
  Untouched-Flow : (depth : ℕ) (r : Run) → Untouched r → Flow kernel cfg depth r
  Untouched-Flow depth r (silent, (sent, done, rows, uncounted)) =
      let (failed, most, lost, checked, passed, patterns, matches) : Uncounted r.st = uncounted in
      (
        (omega arith, omega arith, omega arith),
        silent ∙ sym sent,
        λ i h k. absurd (omega arith),
        subst (Rows (sent_at kernel r.trace)) (sym rows) tt,
        ap length rows ∙ sym done,
        subst (λ l. Counts kernel r.cap_bufs cfg l r.st) (sym rows)
            ((lost, checked, passed), (patterns, [], tt, matches)),
        inl (done, most),
        failed,
      )

  Always-Ends :
      (P Q Q' : Run → Type 0) (o : Outcome Run)
      → ((s : Run) → P s → Q s)
      → ((s : Run) → P s → Q' s)
      → Always P o
      → Ends Q Q' o
  Always-Ends P Q Q' (next s) f g all = f s all
  Always-Ends P Q Q' (cleanup s) f g all = g s all

  -- At the label: a run that is good has measured its frames.
  measure-Measured :
      (buffer : BufferKind) (csv : List ℕ) (n : ℕ) (r : Run)
      → Untouched r
      → Ends
          (Measured kernel cfg (out_depth cfg buffer n))
          (λ s. s.st.ok ≡ false)
          (measure kernel cfg buffer csv (out_depth cfg buffer n) r)
  unfolding measure
  measure-Measured buffer csv n r untouched =
      let depth : ℕ = out_depth cfg buffer n in
      Ends-then Drained (Measured kernel cfg depth) (λ s. s.st.ok ≡ false) _ mark_ok
        (Ends-then (Filled kernel cfg depth fits) Drained (λ s. s.st.ok ≡ false) _
          (drain kernel cfg buffer cfg.frames)
          (Ends-then Untouched (Filled kernel cfg depth fits) (λ s. s.st.ok ≡ false) _
            (prefill kernel cfg buffer depth depth)
            (Always-Ends Untouched Untouched (λ s. s.st.ok ≡ false) (set_up kernel cfg buffer csv r)
              (λ s u. u)
              (λ s
                  (
                    silent,
                    (sent, done, rows, (failed, most, lost, checked, passed, patterns, matches)),
                  ).
                failed)
              (set_up-Untouched kernel cfg buffer csv r untouched))
            (λ s u.
              prefill-Flow kernel cfg depth fits buffer depth s (Untouched-Flow depth s u) u.1.1
                (omega arith)))
          (λ s (flow, full, done).
            drain-Flow kernel cfg depth fits (depth_fits cfg buffer n slots) buffer cfg.frames s
              (depth_positive cfg buffer n) flow full (omega arith)))
        (λ s (flow, done). (flow.4 ∙ done, flow.3, flow.5, peak s flow.6 done))
    where
      peak :
          (s : Run)
          → Peak kernel cfg (out_depth cfg buffer n) s
          → s.completed ≡ cfg.frames
          → s.st.occ_max ≡ min cfg.frames (out_depth cfg buffer n)
      peak s (inl (none_yet, most)) done = omega (arith, none_yet, most, done)
      peak s (inr most) done = most

      Drained : Run → Type 0
      Drained s = Flow kernel cfg (out_depth cfg buffer n) s × (s.completed ≡ cfg.frames)

  at_label :
      (depth : ℕ) (o : Outcome Run)
      → Ends (Measured kernel cfg depth) (λ s. s.st.ok ≡ false) o
      → (at_cleanup o).st.ok ≡ true
      → Measured kernel cfg depth (at_cleanup o)
  at_label depth (next s) ends good = ends
  at_label depth (cleanup s) ends good = cc

-- The run once `lat` is allocated.
abbrev allocated_run : Config → BufferKind → ℕ → CrcTable → ℕ → Run
allocated_run cfg buffer n crc a =
    record (start_run cfg buffer n crc (obtained (heap a) ∷ asked (alloc (cfg.frames * 8)) ∷ [])) {
      lat = some a;
    }

untouched :
    (cfg : Config) (buffer : BufferKind) (n : ℕ) (crc : CrcTable) (a : ℕ)
    → Untouched (allocated_run cfg buffer n crc a)
untouched cfg buffer n crc a =
    (refl, (refl, refl, refl, (refl, refl, refl, refl, refl, refl, refl)))

cleaned :
    (cfg : Config) (buffer : BufferKind) (kernel : Kernel) (depth : ℕ) (last : Run)
    → Measured kernel cfg depth last
    → Measured kernel cfg depth (record last { trace = clean_up cfg buffer last })
cleaned cfg buffer kernel depth last (lines, rows, counts, most) = (
  lines,
  subst (λ f. Rows f last.rows)
      (sym (clean_up-SameTimes kernel (sent_at kernel last.trace) cfg buffer last refl)) rows,
  counts,
  most,
)

pub run_one-Measured :
    (kernel : Kernel) (cfg : Config) (buffer : BufferKind) (csv : List ℕ) (n : ℕ) (crc : CrcTable)
    → cfg.frames < 2 ^ 32
    → 0 < cfg.queue_depth
    → cfg.queue_depth ≤ max_queue_depth
    → GrantsAll kernel cfg.queue_depth
    → (run_one kernel cfg buffer csv n crc).st.ok ≡ true
    → Measured kernel cfg (out_depth cfg buffer n) (run_one kernel cfg buffer csv n crc)
unfolding run_one run_allocated
run_one-Measured kernel cfg buffer csv n crc fits slots held grants good =
    allocated (kernel.hands_out (asked (alloc (cfg.frames * 8)) ∷ [])) good
  where
    begun : Run
    begun = start_run cfg buffer n crc (asked (alloc (cfg.frames * 8)) ∷ [])

    allocated :
        (lat : Option ℕ)
        → (run_allocated kernel cfg buffer csv (out_depth cfg buffer n) begun lat).st.ok ≡ true
        → Measured kernel cfg
            (out_depth cfg buffer n)
            (run_allocated kernel cfg buffer csv (out_depth cfg buffer n) begun lat)
    allocated none good = cc
    allocated (some a) good = cleaned cfg buffer kernel (out_depth cfg buffer n) _ (
        at_label kernel cfg fits slots (out_depth cfg buffer n) _
          (measure-Measured kernel cfg fits slots buffer csv n (allocated_run cfg buffer n crc a)
            (untouched cfg buffer n crc a))
          good)

marked : (o : Outcome Run) → Goes (o then mark_ok) → (at_cleanup (o then mark_ok)).st.ok ≡ true
marked (next r) goes = refl
marked (cleanup r) goes = absurd goes

good_run :
    (kernel : Kernel) (cfg : Config) (buffer : BufferKind) (csv : List ℕ) (n : ℕ) (crc : CrcTable)
    → Answers kernel cfg.queue_depth
    → (run_one kernel cfg buffer csv n crc).st.ok ≡ true
unfolding run_one run_allocated measure
good_run kernel cfg buffer csv n crc answers =
    let (a, e) = answers.hands_out (asked (alloc (cfg.frames * 8)) ∷ []) in
    rw e (
      marked _ (
        measure-Goes kernel cfg answers buffer csv (out_depth cfg buffer n)
          (allocated_run cfg buffer n crc a)))

-- The loops of a run end: if its calls all succeed it is good, with a row for every frame, however many
-- they are. They are counted in 32 bits; the queue has at most the 32 buffers of the arrays; and REQBUFS
-- grants no more than it was asked for.
pub run_one-Completes :
    (kernel : Kernel) (cfg : Config) (buffer : BufferKind) (csv : List ℕ) (n : ℕ) (crc : CrcTable)
    → cfg.frames < 2 ^ 32
    → cfg.queue_depth ≤ max_queue_depth
    → GrantsAll kernel cfg.queue_depth
    → Answers kernel cfg.queue_depth
    → ((run_one kernel cfg buffer csv n crc).st.ok ≡ true)
      × (length (run_one kernel cfg buffer csv n crc).rows ≡ cfg.frames)
run_one-Completes kernel cfg buffer csv n crc fits held grants answers =
    let good : (run_one kernel cfg buffer csv n crc).st.ok ≡ true =
      good_run kernel cfg buffer csv n crc answers in
    let index : (kernel.dequeued []).index < cfg.queue_depth = answers.indexed [] in
    (good, (run_one-Measured kernel cfg buffer csv n crc fits (omega arith) held grants good).0)
