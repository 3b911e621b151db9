-- ===== src/Lib.antt =====
-- vpipe is a V4L2 mem2mem driver that thresholds GREY frames in the kernel. An OUTPUT buffer is filled
-- by userspace or by a frame source in the kernel, a job copies or thresholds it into a CAPTURE
-- buffer, and a metadata device gives one entry for each frame. This library models the kernel module
-- under kmod/ and, of user/, the common code, the runner that measures and a capture tool.
--
-- The parts, and the files that model them:
--   * kmod/vpipe-cv.c (vpipe_clamp_roi, vpipe_copy_frame, vpipe_threshold_frame, vpipe_cv_process): Cv.
--     A frame is a function from offsets to bytes, offsets are u32 as in the code. Cv/Clamp and
--     Region are about the clamp, Fill, Grid, Frame and Count about the loops, Process about the whole.
--   * kmod/vpipe-meta.c: Meta, a ring of 256 entries. Meta/Log is what it promises, a log of all
--     publications and a cursor for each reader, and Meta/Ring, Read, Session and Poll relate the two.
--   * kmod/vpipe-source.c and the fixture of kmod/vpipe-fixture.c: Source, for any backend, with the
--     backends of the module in Source/Backends.
--   * kmod/vpipe-synthetic.c and kmod/vpipe-vcam.c: Backend/Synthetic and Backend/Vcam. The
--     framebuffers of the latter are a heap of counted cells, since a DMA-BUF export may outlive its
--     source (Backend/Vcam/Dmabuf); Backend/Vcam/System is the step relation of sources and exports.
--   * kmod/vpipe-m2m.c: M2m (formats, buffers, controls, and in M2m/Queues its queues), M2m/Device (QBUF,
--     vpipe_device_run, DQBUF) and M2m/Device/Life (streaming, ioctls, open, release, init, exit). The
--     driver calls the source of the context at QBUF, vpipe_cv_process in the job, and publishes the
--     metadata at DQBUF.
--   * kmod/vpipe.h, kmod/vpipe-internal.h and kmod/vpipe-source.h: Uapi and the records of the above.
--   * user/vpipe-common.c: User/Threshold (vpipe_threshold_reference), User/Pgm (the PGM files), User/Crc
--     (the table-driven CRC-32, and in Crc/Bitwise the polynomial division it stands for), User/Calls
--     (the system calls, their answers and what a trace of calls leaves open), User/Queues (buffers:
--     request, map, queue, unmap) and User/Csv (the file of the measurements).
--   * user/vpipe-vcam-runner.c: User/Runner, with the gradient (Verify, Same), one run (Run), the
--     submission of a frame with its prefill (Submit), the measured loop (Loop), and the options, the
--     comparison of both kinds of buffers and `main` (Options; Options/Chosen has the settings that
--     the options describe). Run/ and Loop/ hold the proofs: Balance counts what
--     is opened and closed, Slots, Flow and Rows follow the frames in flight to the rows written,
--     Goes and Finishes are about a run on a kernel that answers. User/Quiet is about the helpers that
--     feed no OUTPUT queue.
--   * user/vpipe-capture-m2m.c: User/CaptureM2m, with its arguments (Arguments) and what comes before the
--     loop (Setup). Held, Requested, Started and Balance count what it holds; Inside, Sound, Prepared
--     and Copies follow its buffers to the copies that are made between them, Prints and Rows its rows.
-- Base has the types and lemmas that they share, Tests runs the definitions and the theorems on
-- concrete input.
--
-- Machine words are natural numbers with the wrap-around written out (u32, u64); an s32 is an integer.
-- Loops are `for_range`, a recursion on the number of rounds, which is a difference of the bounds, so
-- they need no fuel; a number is printed on fuel, the 10 digits of a 32-bit number. The runner's
-- measured loop recurses on the frames still to come, and its prefill on the queue's depth: each
-- round takes one off, and `run_one` starts them with cfg.frames and the depth.
--
-- What the kernel gives the driver is an argument: whether an allocation succeeds, the time,
-- `crc32_le`, the buffers that v4l2-mem2mem takes next, and the range check of a control,
-- which V4L2 makes before it calls the driver. Errors are values of `Result`. A step that would use
-- freed memory has no result (`none`).
--
-- What the kernel answers to a tool is an argument as well, a function of all the calls so far. The arrays
-- that the tools pass to the common code are functions of the index; the code has 4 entries of each in
-- user/vpipe-capture-m2m.c and 32 in user/vpipe-vcam-runner.c, and what is written past them is not
-- modelled. What is stated of the buffers holds on kernels that grant no more of them than the arrays have.
--
-- Not modelled: locking and wake-ups (each operation is one step, a read sees the device as it is
-- when it takes the lock), printed messages, the tables of operations that are handed to the kernel,
-- and the other capture tools, benchmarks, image tools and scripts. Of the runner, the percentiles
-- and means it prints are left out (floating point and output); a call that vpipe_xioctl repeats on EINTR is
-- one call of the model.
pub mod Base
pub mod Uapi
pub mod Cv
pub mod User
pub mod Tests
pub mod Meta
pub mod Backend
pub mod Source
pub mod M2m
