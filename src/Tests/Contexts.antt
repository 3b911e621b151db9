-- ===== src/Tests/Contexts.antt =====
-- Tests of the formats and the controls of kmod/vpipe-m2m.c, and of what a context and the module hold.
use vpipe.Base.{
  ok, ◌||◌, [], ◌<◌, ◌≡◌, ◌↔◌, refl, true, false, none, some, arith, err, pos, done, enomem,
}
use vpipe.Uapi.{cid_roi_left}
use vpipe.Cv.{clamp_roi}
use vpipe.Cv.Region.{Contains}
use vpipe.Source.{source_create, source_destroy, Source, null, vcam}
use vpipe.Source.Backends.{synthetic_ops, vcam_ops, fixture_ops}
use vpipe.M2m.{
  Ctx, PixFormat, output, capture, to_q_data, g_fmt, s_fmt, try_fmt, fill_pix_format, s_ctrl,
  fresh_ctx, pix_fmt_grey, mirror, set_q_data,
}
use vpipe.M2m.Formats.{Formatted, s_fmt-Formatted, job_of_ctx}
use vpipe.M2m.Controls.{
  CtxValid, set_control, set_format, Reach, opened, changed, Reach-CtxValid, Reach-selects,
}
use vpipe.M2m.Device.Life.Switch.{Switched, default_ioctl-Switched}
use vpipe.Backend.Vcam.{put_cell, vcam_stop, kref_put}
use vpipe.Tests.Framebuffers.{heap1, priv0, export_env}
use vpipe.M2m.Device.Life.{
  Replied, default_ioctl, vpipe_open, release_actions, vpipe_init, InitEnv, exit_actions,
}
use vpipe.M2m.Device.Life.Balance.{Balances, vpipe_open-Balances, vpipe_init-Balances}
use vpipe.Tests.Sources.{three_backends}

abbrev pub fixture : Source
fixture = record { backend_id = 1; ops = fixture_ops; priv = null; seq = 0 }

-- A format that is too wide, with no height.
abbrev wide : PixFormat
wide = record { width = 5000; height = 0; pixelformat = 0; bytesperline = 0; sizeimage = 0 }

abbrev got : PixFormat
got = record {
  width = 4096;
  height = 1;
  pixelformat = pix_fmt_grey;
  bytesperline = 4096;
  sizeimage = 4096;
}

abbrev wide_ctx : Ctx
wide_ctx = mirror (set_q_data (fresh_ctx fixture) capture (to_q_data got)) capture

s_fmt-Formatted_example :
    Formatted wide_ctx × (wide_ctx.out_q ≡ to_q_data got) × (g_fmt wide_ctx output ≡ got)
unfolding s_fmt try_fmt fill_pix_format
s_fmt-Formatted_example =
    s_fmt-Formatted (fresh_ctx fixture) wide_ctx capture false wide got output refl

abbrev moved_ctx : Ctx
moved_ctx = record wide_ctx { roi = record wide_ctx.roi { left = pos 100 } }

moved-Reach : Reach moved_ctx
unfolding s_fmt try_fmt fill_pix_format s_ctrl
moved-Reach =
    changed (changed (opened fixture) (set_format capture false wide got refl))
      (set_control cid_roi_left 100 refl refl)

Reach-CtxValid_example : CtxValid moved_ctx
Reach-CtxValid_example = Reach-CtxValid moved-Reach

Reach-selects_example :
    Contains (clamp_roi (job_of_ctx moved_ctx (λ _. 0)) (some moved_ctx.roi)) 100 0
    ↔ (Contains moved_ctx.roi 100 0 × (100 < 4096) × (0 < 1))
unfolding fresh_ctx
Reach-selects_example = Reach-selects (λ _. 0) 100 0 moved-Reach (omega arith) (omega arith)

vpipe_open-Balances_example :
    Balances release_actions (vpipe_open three_backends true none (err enomem) true)
vpipe_open-Balances_example = vpipe_open-Balances three_backends true none (err enomem) true

abbrev no_video : InitEnv
no_video = record { meta = done; backends = done; v4l2 = done; m2m = done; video = err enomem }

vpipe_init-Balances_example : Balances exit_actions (vpipe_init no_video)
vpipe_init-Balances_example = vpipe_init-Balances no_video

-- A context whose source is a vcam-derived one that has started, with a framebuffer.
abbrev started_ctx : Ctx
started_ctx = record (fresh_ctx fixture) {
  src = record { backend_id = 3; ops = vcam_ops; priv = vcam priv0; seq = 0 };
}

abbrev switched_ctx : Ctx
switched_ctx = record started_ctx {
  src = record { backend_id = 2; ops = synthetic_ops; priv = null; seq = 0 };
}

abbrev switched : Replied
switched = record { status = ok none; ctx = switched_ctx; heap = put_cell heap1 0 none; bufs = [] }

default_ioctl-Switched_example :
    Switched heap1 started_ctx [] (false || false) (source_create three_backends true 2) switched
unfolding default_ioctl source_create source_destroy vcam_ops vcam_stop kref_put fresh_ctx
default_ioctl-Switched_example =
    default_ioctl-Switched three_backends true export_env heap1 started_ctx [] false false 2
      switched refl
