-- ===== src/Tests/Framebuffers.antt =====
-- Tests of kmod/vpipe-vcam.c and kmod/vpipe-synthetic.c: one source, and an export that outlives it.
use vpipe.Base.{ℕ, ◌≡◌, refl, true, none, some, [], ◌∷◌, arith, has_bit, Result, ok, done}
use vpipe.Backend.{FrameDesc, frame_flag_dropped}
use vpipe.Backend.Synthetic.Cadence.{vcam_start-drops_first}
use vpipe.Backend.Vcam.{
  VcamFb, FbHeap, VcamPriv, VcamEnv, own, put_cell, vcam_start, vcam_fb_alloc, vcam_stop, kref_get,
  kref_put, vcam_produce,
}
use vpipe.Backend.Vcam.Dmabuf.{DmaBufs, ExportEnv, vcam_export_dmabuf, export_fb, export_taken}
use vpipe.Backend.Vcam.System.{
  VcamSys, Counted, starts, stops, exports, Reach, here, next, no_framebuffers, Reach-Counted,
}
use vpipe.Backend.Vcam.Safety.{Reach-no_use_after_free}

abbrev env : VcamEnv
env = record {
  vcam_fps = 30;
  vcam_drop_every = 3;
  page = 4096;
  now = 1_000;
  priv_ok = true;
  struct_ok = true;
  memory_ok = true;
}

abbrev pub priv0 : VcamPriv
priv0 = record {
  fb = some 0;
  pattern_offset = 0;
  frames_produced = 0;
  drop_every_n = 3;
  base_ts_ns = 1_000;
  frame_interval_ns = 33_333_333;
}

abbrev fb_with : ℕ → VcamFb
fb_with n = record { refcount = n; vaddr = λ _. 0; size = 4096 }

abbrev pub empty_heap : FbHeap
empty_heap = record { next = 0; cell = λ _. none }

abbrev pub heap1 : FbHeap
heap1 = put_cell (record { next = 1; cell = λ _. none }) 0 (some (fb_with 1))

abbrev pub export_env : ExportEnv
export_env = record { exported = done; fd = ok 5 }

abbrev started : VcamSys
started = record { heap = heap1; owners = 0 ∷ []; bufs = [] }

started-Reach : Reach no_framebuffers started
unfolding vcam_start vcam_fb_alloc
started-Reach = next here (starts env (some 4) priv0 heap1 0 refl refl)

abbrev heap2 : FbHeap
heap2 = put_cell heap1 0 (some (fb_with 2))

abbrev exported : VcamSys
exported = record { heap = heap2; owners = 0 ∷ []; bufs = 0 ∷ [] }

exported-Reach : Reach no_framebuffers exported
unfolding vcam_export_dmabuf export_fb export_taken kref_get
exported-Reach = next started-Reach (exports export_env (some priv0) (ok 5) heap2 (0 ∷ []) refl)

abbrev heap3 : FbHeap
heap3 = put_cell heap2 0 (some (fb_with 1))

-- The export outlives its source.
abbrev outlived : VcamSys
outlived = record { heap = heap3; owners = []; bufs = 0 ∷ [] }

outlived-Reach : Reach no_framebuffers outlived
unfolding vcam_stop kref_put
outlived-Reach = next exported-Reach (stops priv0 0 [] heap3 refl (λ q. refl) refl)

Reach-Counted_example : Counted outlived
Reach-Counted_example = Reach-Counted outlived-Reach

Reach-no_use_after_free_example :
    ((h : FbHeap) × (vcam_stop heap2 (some priv0) ≡ some h))
    × ((t : Result ℕ × FbHeap × DmaBufs) × (vcam_export_dmabuf export_env heap2
            (0 ∷ [])
            (some priv0)
          ≡ some t))
Reach-no_use_after_free_example =
    Reach-no_use_after_free priv0 0 export_env exported-Reach refl (omega arith)

abbrev pub desc : FrameDesc
desc = record {
  source_timestamp_ns = 0;
  sequence = 0;
  backend_id = 0;
  byteused = 0;
  flags = 0;
  width = 2;
  height = 2;
  stride = 2;
}

vcam_start-drops_first_example :
    (stamped : FrameDesc) × (vcam_produce heap1 0 (fb_with 1) priv0 (own (λ _. 9)) desc
      ≡ some (
        heap1,
        record {
          status = done;
          priv = some (record priv0 { frames_produced = 1 });
          plane = some (own (λ _. 9));
          desc = stamped;
        },
      ))
    × (has_bit stamped.flags frame_flag_dropped ≡ true)
unfolding vcam_start vcam_fb_alloc
vcam_start-drops_first_example =
    vcam_start-drops_first env empty_heap heap1 4 0 priv0 (fb_with 1) (own (λ _. 9)) desc refl
      (omega arith)
