-- ===== src/User/Runner/Submit.antt =====
-- user/vpipe-vcam-runner.c: the submission of frames to the OUTPUT queue.
use vpipe.Base.{
  ℕ, zero, suc, ◌+◌, ◌/◌, ◌%◌, ◌^◌, ◌&&◌, Option, none, some, ◌∷◌, ltb, ◌==◌, if◌then◌else◌, u32,
  u64, Bytes,
}
use vpipe.M2m.{output}
use vpipe.User.Calls.{
  Kernel, Trace, asked, Call, memory_mmap, memory_dmabuf, empty_buffer, read_clock, sleep_until,
  write_memory, queue_buffer, Outcome, next, ◌then◌,
}
use vpipe.User.Queues.{vpipe_queue_mmap_buffer}
use vpipe.User.Runner.{runner_fill_gradient}
use vpipe.User.Runner.Run.{
  SourceKind, src_fixture, src_vcam, BufferKind, buf_mmap, buf_dmabuf, Config, Run, ask,
}

-- `pacer.interval_ns`
abbrev pub interval_ns : Config → ℕ
interval_ns cfg = if cfg.fps == 0 then 0 else 10 ^ 9 / cfg.fps

abbrev first_ns : Kernel → Run → Run
first_ns kernel r =
    if r.next_ns == 0
    then (record r {
      trace = asked read_clock ∷ r.trace;
      next_ns = kernel.number (asked read_clock ∷ r.trace);
    })
    else r

abbrev sleep_interval : ℕ → Run → Run
sleep_interval interval r = record r {
  trace = asked (sleep_until r.next_ns) ∷ r.trace;
  next_ns = u64 (r.next_ns + interval);
}

-- `pace`
abbrev pub pace : Kernel → ℕ → Run → Run
pace kernel interval r = if interval == 0 then r else sleep_interval interval (first_ns kernel r)

-- `ring[k] = v`, where `k` is below `max_queue_depth`, the number of entries of the ring: `frame_no % depth`
-- is, if the depth is at most that.
abbrev pub put_time : (ℕ → ℕ) → ℕ → ℕ → ℕ → ℕ
put_time ring k v j = if k == j then v else ring j

-- The time of a submission, by its number.
abbrev pub note_time : Kernel → Config → ℕ → Run → Run
note_time kernel cfg frame_no r = record r {
  trace = asked read_clock ∷ r.trace;
  qbuf_ring =
      put_time r.qbuf_ring (frame_no % cfg.queue_depth)
        (kernel.number (asked read_clock ∷ r.trace));
}

abbrev pub memory_at : Kernel → Trace → Option ℕ → Bytes
memory_at kernel trace none = λ _. 0
memory_at kernel trace (some a) = kernel.contents trace a

-- `fill_gradient` of a mapped buffer, which is done for the fixture source only.
unfoldable pub fill_output : Kernel → SourceKind → ℕ → ℕ → Run → Run
unfolding runner_fill_gradient
fill_output kernel src_vcam frame_no mmap_index r = r
fill_output kernel src_fixture frame_no mmap_index r =
    let addr = (r.out_bufs mmap_index).addr in
    record r {
      trace =
          asked (write_memory addr (runner_fill_gradient frame_no (memory_at kernel r.trace addr)))
          ∷ r.trace;
    }

-- `queue_output_dmabuf`: the call that it makes.
abbrev queue_output_dmabuf : Option ℕ → Option ℕ → ℕ → Call
queue_output_dmabuf fd dmabuf_fd size =
    queue_buffer fd output (record (empty_buffer memory_dmabuf 0) {
      plane_fd = dmabuf_fd;
      bytesused = u32 size;
      length = u32 size;
    })

unfoldable pub queue_output : Kernel → Config → BufferKind → ℕ → ℕ → Run → Outcome Run
unfolding runner_fill_gradient
queue_output kernel cfg buf_dmabuf frame_no mmap_index r =
    ask kernel (queue_output_dmabuf r.fd r.src_fd r.out_sizeimage) r
queue_output kernel cfg buf_mmap frame_no mmap_index r =
    let filled : Run = fill_output kernel cfg.source frame_no mmap_index r in
    ask kernel (vpipe_queue_mmap_buffer filled.fd output memory_mmap mmap_index none) filled

-- `submit_output`
unfoldable pub submit_output : Kernel → Config → BufferKind → ℕ → ℕ → Run → Outcome Run
unfolding runner_fill_gradient
submit_output kernel cfg buffer frame_no mmap_index r =
    queue_output kernel cfg buffer frame_no mmap_index
      (note_time kernel cfg frame_no (pace kernel (interval_ns cfg) r))

abbrev pub count_submitted : Run → Outcome Run
count_submitted r = next (record r { submitted = u32 (r.submitted + 1) })

-- The loop that fills the OUTPUT pipeline, by the submissions that it may still make.
unfoldable pub prefill : Kernel → Config → BufferKind → ℕ → ℕ → Run → Outcome Run
unfolding submit_output
prefill kernel cfg buffer depth zero r = next r
prefill kernel cfg buffer depth (suc fuel) r =
    if ltb r.submitted cfg.frames && ltb r.submitted depth
    then (submit_output kernel cfg buffer r.submitted r.submitted r
        then count_submitted
        then (λ s. prefill kernel cfg buffer depth fuel s))
    else next r
