-- ===== src/User/Runner/Loop.antt =====
-- user/vpipe-vcam-runner.c: the frames of a run, the label `cleanup`, and the whole of `run_one`.
pub mod Balance
pub mod Slots
pub mod Rows
pub mod Flow
pub mod Measured
pub mod Goes
pub mod Finishes
pub mod Complete
use vpipe.Base.{
  ℕ, zero, suc, ◌+◌, ◌-◌, ◌*◌, ◌/◌, ◌%◌, ◌^◌, Bool, true, false, not, ◌&&◌, Option, none, some,
  List, [], ◌∷◌, ltb, leb, ◌==◌, if◌then◌else◌, u32, u64, has_bit, Bytes,
}
use vpipe.Uapi.{MetaEntry, meta_f_dropped}
use vpipe.M2m.{QueueType, output, capture}
use vpipe.User.Calls.{
  Kernel, Trace, asked, obtained, returned, Call, Handle, descriptor, file, heap, stream,
  V4l2Buffer, V4l2Memory, memory_mmap, memory_dmabuf, empty_buffer, alloc, read_clock, sleep_until,
  write_memory, queue_buffer, dequeue_buffer, read_entry, Outcome, next, cleanup, ◌then◌,
  must_succeed, at_cleanup,
}
use vpipe.User.Queues.{vpipe_queue_mmap_buffer, vpipe_unmap_buffers, give_descriptor}
use vpipe.User.Crc.{CrcTable, vpipe_crc32}
use vpipe.User.Runner.{runner_fill_gradient, verify_gradient}
use vpipe.User.Runner.Run.{
  SourceKind, src_fixture, src_vcam, BufferKind, buf_mmap, buf_dmabuf, Config, RunStats, CsvRow,
  Run, ask, start_run, set_up, out_depth,
}
use vpipe.User.Runner.Submit.{put_time, memory_at, submit_output, count_submitted, prefill}

abbrev pub note_occupancy : Run → Run
note_occupancy r =
    let inflight = u32 (r.submitted + 2 ^ 32 - r.completed) in
    record r {
      st = record r.st {
        occ_sum = r.st.occ_sum + inflight;
        occ_max = if ltb r.st.occ_max inflight then inflight else r.st.occ_max;
      };
    }

-- The DQBUF of a captured frame, its time, and the test of its index.
abbrev pub dequeue_capture : Kernel → Config → Run → Outcome Run
dequeue_capture kernel cfg r =
    let after : Trace = asked (dequeue_buffer r.fd capture memory_mmap) ∷ r.trace in
    let dq = kernel.dequeued after in
    let timed : Trace = asked read_clock ∷ after in
    if kernel.succeeds after
    then (if leb cfg.queue_depth dq.index
        then cleanup (record r { trace = timed; cap_dq = dq; t_dq = kernel.number timed })
        else next (record r { trace = timed; cap_dq = dq; t_dq = kernel.number timed }))
    else cleanup (record r { trace = after })

-- `read_meta`: none for a return of -1.
abbrev pub read_meta : Kernel → Option ℕ → Trace → Trace × Option MetaEntry
read_meta kernel none trace = (trace, none)
read_meta kernel (some fd) trace =
    let after : Trace = asked (read_entry (some fd)) ∷ trace in (after, kernel.entry after)

abbrev pub is_dropped : Option MetaEntry → Bool
is_dropped none = false
is_dropped (some m) = has_bit m.flags meta_f_dropped

-- The counters of the row of metadata, if there is one.
abbrev pub count_entry : Option MetaEntry → ℕ → RunStats → RunStats
count_entry none crc_user st = st
count_entry (some m) crc_user st = record st {
  dropped = if is_dropped (some m) then u32 (st.dropped + 1) else st.dropped;
  csum_checked = u32 (st.csum_checked + 1);
  csum_pass = if crc_user == m.crc32 then u32 (st.csum_pass + 1) else st.csum_pass;
}

abbrev pub is_vcam : SourceKind → Bool
is_vcam src_fixture = false
is_vcam src_vcam = true

-- The counters of the pattern.
abbrev pub count_pattern : Config → Bool → Bool → RunStats → RunStats
count_pattern cfg dropped matches st =
    if cfg.verify_pattern && is_vcam cfg.source && not dropped
    then (record st {
      verify_checked = u32 (st.verify_checked + 1);
      verify_pass = if matches then u32 (st.verify_pass + 1) else st.verify_pass;
    })
    else st

-- The row that is printed for the frame `completed`.
abbrev pub frame_row : Config → Run → Option MetaEntry → ℕ → CsvRow
frame_row cfg r entry crc_user =
    let sent = r.qbuf_ring (r.completed % cfg.queue_depth) in
    record {
      frame = r.completed;
      us_qbuf_ns = sent;
      us_dqbuf_ns = r.t_dq;
      us_latency_ns = u64 (r.t_dq + 2 ^ 64 - sent % 2 ^ 64);
      entry = entry;
      crc32_user = crc_user;
      dropped = is_dropped entry;
    }

-- The frame `completed`: its checksum, its row, and the counters.
unfoldable pub check_frame : Kernel → Config → Run → Run
unfolding vpipe_crc32 verify_gradient
check_frame kernel cfg r =
    let frame : Bytes = memory_at kernel r.trace (r.cap_bufs r.cap_dq.index).addr in
    let sum = vpipe_crc32 r.crc frame r.cap_dq.bytesused in
    let got = read_meta kernel r.meta_fd r.trace in
    record r {
      trace = got.0;
      crc = sum.0;
      st =
          count_pattern cfg (is_dropped got.1) (verify_gradient frame)
            (count_entry got.1 sum.1 r.st);
      rows = frame_row cfg r got.1 sum.1 ∷ r.rows;
      completed = u32 (r.completed + 1);
    }

abbrev pub memory_of : BufferKind → V4l2Memory
memory_of buf_mmap = memory_mmap
memory_of buf_dmabuf = memory_dmabuf

abbrev pub requeue_capture : Kernel → Run → Outcome Run
requeue_capture kernel r =
    ask kernel (vpipe_queue_mmap_buffer r.fd capture memory_mmap r.cap_dq.index none) r

abbrev pub dequeue_output : Kernel → BufferKind → Run → Outcome Run
dequeue_output kernel buffer r =
    let after : Trace = asked (dequeue_buffer r.fd output (memory_of buffer)) ∷ r.trace in
    if kernel.succeeds after
    then next (record r { trace = after; out_dq = kernel.dequeued after })
    else cleanup (record r { trace = after })

unfoldable pub resubmit : Kernel → Config → BufferKind → Run → Outcome Run
unfolding submit_output
resubmit kernel cfg buffer r =
    if ltb r.submitted cfg.frames
    then (submit_output kernel cfg buffer r.submitted r.out_dq.index r then count_submitted)
    else next r

-- The body of the main loop.
unfoldable pub one_frame : Kernel → Config → BufferKind → Run → Outcome Run
unfolding check_frame submit_output
one_frame kernel cfg buffer r =
    dequeue_capture kernel cfg (note_occupancy r)
    then (λ s. requeue_capture kernel (check_frame kernel cfg s))
    then dequeue_output kernel buffer
    then resubmit kernel cfg buffer

-- The main loop, by the rounds that it may still make.
unfoldable pub drain : Kernel → Config → BufferKind → ℕ → Run → Outcome Run
unfolding one_frame
drain kernel cfg buffer zero r = next r
drain kernel cfg buffer (suc fuel) r =
    if ltb r.completed cfg.frames
    then (one_frame kernel cfg buffer r then (λ s. drain kernel cfg buffer fuel s))
    else next r

abbrev pub give_stream : Bool → Option ℕ → QueueType → Trace → Trace
give_stream false fd type trace = trace
give_stream true fd type trace = returned (stream fd type) ∷ trace

abbrev pub give_file : Option ℕ → Trace → Trace
give_file none trace = trace
give_file (some fp) trace = returned (file fp) ∷ trace

-- `free`, which does nothing with NULL.
abbrev pub give_heap : Option ℕ → Trace → Trace
give_heap none trace = trace
give_heap (some a) trace = returned (heap a) ∷ trace

unfoldable pub give_outputs : Config → BufferKind → Run → Trace → Trace
unfolding vpipe_unmap_buffers
give_outputs cfg buf_dmabuf r trace = trace
give_outputs cfg buf_mmap r trace = vpipe_unmap_buffers r.out_bufs cfg.queue_depth trace

-- The label `cleanup`.
unfoldable pub clean_up : Config → BufferKind → Run → Trace
unfolding vpipe_unmap_buffers
clean_up cfg buffer r =
    let off =
      give_stream r.cap_streaming r.fd capture (give_stream r.out_streaming r.fd output r.trace) in
    let closed = give_descriptor r.src_fd (give_descriptor r.meta_fd (give_file r.fp off)) in
    let unmapped =
      vpipe_unmap_buffers r.cap_bufs cfg.queue_depth (give_outputs cfg buffer r closed) in
    give_heap r.lat (give_descriptor r.fd unmapped)

-- The run is good once every frame has been measured.
abbrev pub mark_ok : Run → Outcome Run
mark_ok r = next (record r { st = record r.st { ok = true } })

-- `run_one` up to the label.
unfoldable pub measure : Kernel → Config → BufferKind → List ℕ → ℕ → Run → Outcome Run
unfolding set_up prefill drain
measure kernel cfg buffer csv depth r =
    set_up kernel cfg buffer csv r
    then prefill kernel cfg buffer depth depth
    then drain kernel cfg buffer cfg.frames
    then mark_ok

unfoldable pub run_allocated : Kernel → Config → BufferKind → List ℕ → ℕ → Run → Option ℕ → Run
unfolding measure clean_up
run_allocated kernel cfg buffer csv depth r none = r
run_allocated kernel cfg buffer csv depth r (some lat) =
    let last = at_cleanup (
      measure kernel cfg buffer csv depth
        (record r { trace = obtained (heap lat) ∷ r.trace; lat = some lat })) in
    record last { trace = clean_up cfg buffer last }

-- `run_one`
unfoldable pub run_one : Kernel → Config → BufferKind → List ℕ → ℕ → CrcTable → Run
unfolding measure clean_up
run_one kernel cfg buffer csv out_inflight crc =
    let begun : Trace = asked (alloc (cfg.frames * 8)) ∷ [] in
    run_allocated kernel cfg buffer csv (out_depth cfg buffer out_inflight)
      (start_run cfg buffer out_inflight crc begun) (kernel.hands_out begun)
