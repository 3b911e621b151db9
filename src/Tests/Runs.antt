-- ===== src/Tests/Runs.antt =====
-- Tests of QBUF, `vpipe_device_run` and DQBUF of kmod/vpipe-m2m.c on frames of 2 by 2 pixels.
use vpipe.Base.{
  ◌<◌, ◌*◌, ◌+◌, ℕ, ◌≡◌, refl, none, some, [], ◌∷◌, Result, arith, pos, Bytes, clamp_ℤ, ◌+ℤ◌, ◌-ℤ◌,
  to_s32,
}
use vpipe.Uapi.{cid_threshold, algo_threshold}
use vpipe.Cv.{CvResult, cv_process, clamp_roi, clamp_to_frame}
use vpipe.Backend.Vcam.{own}
use vpipe.Source.Backends.{synthetic_ops}
use vpipe.M2m.{buf_prepare, Ctx, QData, capture, s_ctrl, pix_fmt_grey}
use vpipe.M2m.Buffers.{buf_prepare-in_bounds}
use vpipe.M2m.Formats.{Formatted, job_of_ctx}
use vpipe.M2m.Device.{
  Buffer, buf_ok, buf_error, buf_done, src_buf_remove, dst_buf_remove, job_finish, RunEnv, Ran,
  captured, snapshot, device_run,
}
use vpipe.M2m.Device.Run.{Ended, device_run-s_ctrl, device_run-Ended}
use vpipe.M2m.Device.Pixels.{Shown, device_run-pixel}
use vpipe.Tests.Frames.{tiny_src, roi}
use vpipe.Tests.Metadata.{numbered}
use vpipe.Tests.Framebuffers.{desc, empty_heap}
use vpipe.Tests.Contexts.{fixture}

abbrev tiny_q : QData
tiny_q = record {
  width = 2;
  height = 2;
  bytesperline = 2;
  sizeimage = 4;
  pixelformat = pix_fmt_grey;
}

abbrev tiny_ctx : Ctx
tiny_ctx = record {
  out_q = tiny_q;
  cap_q = tiny_q;
  src_sequence = 41;
  algo_id = algo_threshold;
  threshold = 127;
  roi = roi (pos 1) (pos 0) (pos 1) (pos 2);
  src = fixture;
}

tiny_ctx-Formatted : Formatted tiny_ctx
tiny_ctx-Formatted = record {
  is_format = record {
    width_pos = omega arith;
    width_max = omega arith;
    height_pos = omega arith;
    height_max = omega arith;
    no_padding = refl;
    whole = refl;
    grey = refl;
  };
  mirrored = refl;
}

abbrev buffer : ℕ → Bytes → Buffer
buffer index bytes = record {
  index = index;
  memory = 1;
  plane = some (own bytes);
  payload = 0;
  flags = 0;
  timestamp = 0;
  sequence = 0;
  src_sequence = 0;
  algo_id = 0;
  threshold = 0;
  roi = roi (pos 0) (pos 0) (pos 0) (pos 0);
  src_desc = desc;
  qbuf_ns = 0;
  meta_pending = numbered 0;
}

abbrev source_buf : Buffer
source_buf = record (snapshot 7 tiny_ctx (buffer 3 tiny_src)) {
  src_desc = record desc { source_timestamp_ns = 9; backend_id = 1 };
}

abbrev target_buf : Buffer
target_buf = buffer 5 (λ _. 7)

abbrev run_env : RunEnv
run_env = record { now = 11; crc32_le = λ seed bytes n. 0; src_bufs_ready = 0; cpu_id = 2 }

device_run-pixel_example :
    Shown run_env empty_heap 0 tiny_ctx source_buf target_buf 1 255
      (device_run run_env empty_heap 0 tiny_ctx (some source_buf) (some target_buf))
unfolding clamp_roi clamp_to_frame clamp_ℤ ◌+ℤ◌ ◌-ℤ◌ to_s32
device_run-pixel_example =
    device_run-pixel run_env empty_heap 0 tiny_ctx source_buf target_buf tiny_src (λ _. 7) 0 1
      tiny_ctx-Formatted refl refl (omega arith) (omega arith) (omega arith)

abbrev unmapped : Ran
unmapped = record {
  heap = empty_heap;
  sequence = 0;
  calls =
      src_buf_remove
      ∷ dst_buf_remove
      ∷ buf_done source_buf buf_error
      ∷ buf_done (record target_buf { plane = none }) buf_error
      ∷ job_finish
      ∷ [];
}

device_run-Ended_example : Ended 0 source_buf (record target_buf { plane = none }) unmapped
unfolding device_run
device_run-Ended_example =
    device_run-Ended run_env empty_heap 0 tiny_ctx source_buf (record target_buf { plane = none })
      unmapped refl

device_run-s_ctrl_example :
    device_run run_env empty_heap 0
      (record tiny_ctx { threshold = 3 })
      (some source_buf)
      (some target_buf)
    ≡ device_run run_env empty_heap 0 tiny_ctx (some source_buf) (some target_buf)
unfolding s_ctrl
device_run-s_ctrl_example =
    device_run-s_ctrl run_env empty_heap 0 tiny_ctx (record tiny_ctx { threshold = 3 })
      cid_threshold (pos 3) (some source_buf) (some target_buf) refl

abbrev tiny_result : Result (Unit {0}) × CvResult × Bytes
tiny_result = cv_process (job_of_ctx tiny_ctx tiny_src) 1 127 (some tiny_ctx.roi) (λ _. 7)

abbrev tiny_target : Buffer
tiny_target =
    captured run_env tiny_ctx source_buf target_buf tiny_result.1 tiny_result.2 1
      (own tiny_result.2)

abbrev tiny_ran : Ran
tiny_ran = record {
  heap = empty_heap;
  sequence = 1;
  calls =
      src_buf_remove
      ∷ dst_buf_remove
      ∷ buf_done source_buf buf_ok
      ∷ buf_done tiny_target buf_ok
      ∷ job_finish
      ∷ [];
}

abbrev synthetic_ctx : Ctx
synthetic_ctx = record tiny_ctx { src = record fixture { backend_id = 2; ops = synthetic_ops } }

buf_prepare-in_bounds_example : (1 * 2 + 1 < 6) × (1 * 2 + 1 < 6) × (4 ≡ 2 * 2)
unfolding buf_prepare
buf_prepare-in_bounds_example =
    buf_prepare-in_bounds tiny_ctx capture 6 4 1 1 tiny_ctx-Formatted refl (omega arith)
      (omega arith)
