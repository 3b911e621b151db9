-- ===== src/Backend/Synthetic.antt =====
-- kmod/vpipe-synthetic.c: a backend that fills the buffer with a moving gradient, and that can drop
-- every N-th frame.
pub mod Cadence
use vpipe.Base.{
  ℕ, ◌+◌, ◌%◌, ◌^◌, ◌&&◌, ◌||◌, not, Bool, true, false, Option, none, some, u32, ltb, ◌==◌, set_bit,
  if◌then◌else◌, Bytes, Result, done, ok, err, einval, enomem, efault,
}
use vpipe.Backend.{FrameDesc, Frame, bad_geometry, frame_flag_dropped, fill_gradient}

-- `struct vpipe_synthetic_priv`
pub record SyntheticPriv : Type 0 where
  pub pattern_offset : ℕ
  pub frames_produced : ℕ
  pub drop_every_n : ℕ

-- `synthetic_start`: the new `src->priv`; `drop_every` is the module parameter.
unfoldable pub synthetic_start : ℕ → Bool → Result SyntheticPriv
synthetic_start drop_every allocated =
    if allocated
    then ok (record { pattern_offset = 0; frames_produced = 0; drop_every_n = drop_every })
    else err enomem

-- `synthetic_stop`
unfoldable pub synthetic_stop : Option SyntheticPriv → Option SyntheticPriv
synthetic_stop priv = none

-- `synthetic_reset`
unfoldable pub synthetic_reset : Option SyntheticPriv → Option SyntheticPriv
synthetic_reset none = none
synthetic_reset (some p) = some (record p { pattern_offset = 0; frames_produced = 0 })

-- `synthetic_next_frame` once the checks have passed: the plane has the bytes `m`.
unfoldable pub synthetic_fill :
    SyntheticPriv → Bytes → FrameDesc → Frame SyntheticPriv (Option Bytes)
synthetic_fill p m desc =
    let produced = u32 (p.frames_produced + 1) in
    if ltb 0 p.drop_every_n && produced % p.drop_every_n == 0
    then record {
      status = done;
      priv = record p { frames_produced = produced };
      plane = some m;
      desc = record desc { flags = set_bit desc.flags frame_flag_dropped };
    }
    else record {
      status = done;
      priv = record p { frames_produced = produced; pattern_offset = u32 (p.pattern_offset + 1) };
      plane = some (fill_gradient desc.width desc.height desc.stride p.pattern_offset m);
      desc = desc;
    }

-- `synthetic_next_frame`; no plane is a null address from `vb2_plane_vaddr`, and no private state is a
-- source that has not been started.
unfoldable pub synthetic_next_frame :
    Option SyntheticPriv → Option Bytes → FrameDesc → Frame (Option SyntheticPriv) (Option Bytes)
unfolding synthetic_fill
synthetic_next_frame none plane desc = record {
  status = err einval;
  priv = none;
  plane = plane;
  desc = desc;
}
synthetic_next_frame (some p) none desc = record {
  status = if bad_geometry desc then err einval else err efault;
  priv = some p;
  plane = none;
  desc = desc;
}
synthetic_next_frame (some p) (some m) desc =
    let f = synthetic_fill p m desc in
    if bad_geometry desc
    then record { status = err einval; priv = some p; plane = some m; desc = desc }
    else record { status = f.status; priv = some f.priv; plane = f.plane; desc = f.desc }
