-- ===== src/Backend/Vcam.antt =====
-- kmod/vpipe-vcam.c: a backend with a framebuffer of its own, which it can export as a DMA-BUF. The
-- framebuffer is counted, since an export may outlive the source. `none` where a framebuffer is looked
-- up is a use after free.
pub mod Dmabuf
pub mod Gradient
pub mod Refs
pub mod Lifetime
pub mod Frames
pub mod System
pub mod Safety
pub mod Pages
use vpipe.Base.{
  ℕ, zero, suc, ◌+◌, ◌-◌, ◌*◌, ◌/◌, ◌%◌, ◌^◌, ◌&&◌, Bool, true, false, Option, none, some, List, [],
  ◌∷◌, u8, u32, u64, ltb, ◌==◌, set_bit, if◌then◌else◌, Bytes, store, memcpy, for_range, Result,
  Errno, ◌||◌, done, ok, err, einval, enomem, efault, ◌>>=◌, ◌>>◌,
}
use vpipe.Backend.{FrameDesc, Frame, bad_geometry, frame_flag_dropped, fill_gradient}

-- `struct vcam_fb`
pub record VcamFb : Type 0 where
  pub refcount : ℕ
  pub vaddr : Bytes
  pub size : ℕ

-- The framebuffers by their address; `next` and what follows it is not in use yet.
pub record FbHeap : Type 0 where
  pub next : ℕ
  pub cell : ℕ → Option VcamFb

abbrev pub put_cell : FbHeap → ℕ → Option VcamFb → FbHeap
put_cell h p fb = record h { cell = λ q. if p == q then fb else h.cell q }

-- `struct vpipe_vcam_priv`
pub record VcamPriv : Type 0 where
  pub fb : Option ℕ
  pub pattern_offset : ℕ
  pub frames_produced : ℕ
  pub drop_every_n : ℕ
  pub base_ts_ns : ℕ
  pub frame_interval_ns : ℕ

-- `PAGE_ALIGN(bytes)` for pages of `page` bytes
abbrev pub page_align : ℕ → ℕ → ℕ
page_align page bytes = (bytes + page - 1) / page * page

-- `vcam_fb_alloc`: the results of its two allocations are given. `vmalloc_user` gives zeroed memory.
unfoldable pub vcam_fb_alloc : FbHeap → ℕ → ℕ → Bool → Bool → Option (ℕ × FbHeap)
vcam_fb_alloc h page bytes struct_ok memory_ok =
    if struct_ok && memory_ok
    then some (
      h.next,
      put_cell (record h { next = h.next + 1 }) h.next
          (some (record { refcount = 1; vaddr = λ _. 0; size = page_align page bytes })),
    )
    else none

-- `kref_get`
unfoldable pub kref_get : FbHeap → ℕ → Option FbHeap
kref_get h p = elim (h.cell p) [
  | none ↦ none
  | some fb ↦ some (put_cell h p (some (record fb { refcount = fb.refcount + 1 })))
]

-- `kref_put` with `vcam_fb_release`, which frees the framebuffer at the last reference.
unfoldable pub kref_put : FbHeap → ℕ → Option FbHeap
kref_put h p = elim (h.cell p) [
  | none ↦ none
  | some fb ↦ some (
      put_cell h p
        (if fb.refcount == 1 then none else some (record fb { refcount = fb.refcount - 1 })))
]

-- `vcam_fill_gradient`
unfoldable pub vcam_fill_gradient : ℕ → ℕ → ℕ → ℕ → Bytes → Bytes
vcam_fill_gradient width height stride offset m =
    store (fill_gradient width height stride offset m) 0 (u8 offset)

abbrev nsec_per_sec : ℕ
nsec_per_sec = 1_000_000_000

-- The module parameters, and what the kernel gives a call: the time, and the results of allocations.
pub record VcamEnv : Type 0 where
  pub vcam_fps : ℕ
  pub vcam_drop_every : ℕ
  pub page : ℕ
  pub now : ℕ
  pub priv_ok : Bool
  pub struct_ok : Bool
  pub memory_ok : Bool

-- The private state that `vcam_start` sets up around the framebuffer `p`.
abbrev fresh_priv : VcamEnv → ℕ → VcamPriv
fresh_priv env p = record {
  fb = some p;
  pattern_offset = 0;
  frames_produced = 0;
  drop_every_n = env.vcam_drop_every;
  base_ts_ns = env.now;
  frame_interval_ns = if env.vcam_fps == 0 then 0 else nsec_per_sec / env.vcam_fps;
}

abbrev pub with_fb : VcamEnv → Option (ℕ × FbHeap) → Result (VcamPriv × FbHeap)
with_fb env none = err enomem
with_fb env (some (p, h)) = ok (fresh_priv env p, h)

-- `vcam_start`; `sizeimage` is `ctx->out_q.sizeimage`, and `none` a null context.
unfoldable pub vcam_start : VcamEnv → FbHeap → Option ℕ → Result (VcamPriv × FbHeap)
vcam_start env h none = err einval
vcam_start env h (some sizeimage) =
    if sizeimage == 0
    then err einval
    else if env.priv_ok
    then with_fb env (vcam_fb_alloc h env.page sizeimage env.struct_ok env.memory_ok)
    else err enomem

abbrev pub put_fb : FbHeap → Option ℕ → Option FbHeap
put_fb h none = some h
put_fb h (some p) = kref_put h p

-- `vcam_stop`: the private state is gone afterwards.
unfoldable pub vcam_stop : FbHeap → Option VcamPriv → Option FbHeap
unfolding kref_put
vcam_stop h none = some h
vcam_stop h (some priv) = put_fb h priv.fb

-- `vcam_reset`
unfoldable pub vcam_reset : ℕ → Option VcamPriv → Option VcamPriv
vcam_reset now none = none
vcam_reset now (some priv) =
    some (record priv { pattern_offset = 0; frames_produced = 0; base_ts_ns = now })

-- What the address of a buffer's plane points to: bytes of the buffer's own, or an imported export of
-- the framebuffer at an address.
pub data Plane : Type 0 where
  own : Bytes → Plane
  mapped : ℕ → Plane

-- The copy to an imported framebuffer, `fb` as it is found at the address `q`.
abbrev pub copy_into : FbHeap → ℕ → Option VcamFb → Bytes → ℕ → Option (FbHeap × Plane)
copy_into h q none vaddr frame_bytes = none
copy_into h q (some fb) vaddr frame_bytes =
    some
      (put_cell h q (some (record fb { vaddr = memcpy fb.vaddr 0 vaddr 0 frame_bytes })), mapped q)

-- `if (dst != priv->fb->vaddr) memcpy(dst, priv->fb->vaddr, frame_bytes)`
unfoldable pub copy_out : FbHeap → ℕ → Bytes → ℕ → Plane → Option (FbHeap × Plane)
copy_out h p vaddr frame_bytes (own m) = some (h, own (memcpy m 0 vaddr 0 frame_bytes))
copy_out h p vaddr frame_bytes (mapped q) =
    if p == q then some (h, mapped q) else copy_into h q (h.cell q) vaddr frame_bytes

abbrev pub VcamFrame : Type 0
VcamFrame = FbHeap × Frame (Option VcamPriv) (Option Plane)

-- The returns of `vcam_next_frame` before it touches anything.
abbrev pub refuse : FbHeap → Option VcamPriv → Option Plane → FrameDesc → Errno → Option VcamFrame
refuse h priv plane desc e =
    some (h, record { status = err e; priv = priv; plane = plane; desc = desc })

-- A frame that has been copied to its plane.
abbrev pub with_copy : VcamPriv → FrameDesc → Option (FbHeap × Plane) → Option VcamFrame
with_copy priv desc none = none
with_copy priv desc (some (h, dst)) =
    some (h, record { status = done; priv = some priv; plane = some dst; desc = desc })

-- The part of `vcam_next_frame` after the checks: `p` is the framebuffer's address, and `dst` the
-- plane.
unfoldable pub vcam_produce : FbHeap → ℕ → VcamFb → VcamPriv → Plane → FrameDesc → Option VcamFrame
unfolding vcam_fill_gradient copy_out
vcam_produce h p fb priv dst desc =
    let frame_bytes = u64 (desc.stride * desc.height) in
    let stamp = u64 (priv.base_ts_ns + u64 (priv.frames_produced * priv.frame_interval_ns)) in
    let stamped : FrameDesc = record desc { source_timestamp_ns = stamp } in
    let produced = u32 (priv.frames_produced + 1) in
    let filled =
      vcam_fill_gradient desc.width desc.height desc.stride priv.pattern_offset fb.vaddr in
    if ltb 0 priv.drop_every_n && priv.frames_produced % priv.drop_every_n == 0
    then some (
      h,
      record {
        status = done;
        priv = some (record priv { frames_produced = produced });
        plane = some dst;
        desc = record stamped { flags = set_bit stamped.flags frame_flag_dropped };
      },
    )
    else with_copy
        (record priv { pattern_offset = u32 (priv.pattern_offset + 1); frames_produced = produced })
        (record stamped { byteused = u32 frame_bytes })
        (copy_out (put_cell h p (some (record fb { vaddr = filled }))) p filled frame_bytes dst)

-- `vcam_next_frame` with its framebuffer found.
unfoldable pub vcam_checked :
    FbHeap → ℕ → VcamFb → VcamPriv → Option Plane → FrameDesc → Option VcamFrame
unfolding vcam_produce
vcam_checked h p fb priv none desc =
    if bad_geometry desc || ltb fb.size (u64 (desc.stride * desc.height))
    then refuse h (some priv) none desc einval
    else refuse h (some priv) none desc efault
vcam_checked h p fb priv (some dst) desc =
    if bad_geometry desc || ltb fb.size (u64 (desc.stride * desc.height))
    then refuse h (some priv) (some dst) desc einval
    else vcam_produce h p fb priv dst desc

abbrev pub fb_checked :
    FbHeap → ℕ → Option VcamFb → VcamPriv → Option Plane → FrameDesc → Option VcamFrame
fb_checked h p none priv plane desc = none
fb_checked h p (some fb) priv plane desc = vcam_checked h p fb priv plane desc

abbrev pub fb_found : FbHeap → Option ℕ → VcamPriv → Option Plane → FrameDesc → Option VcamFrame
fb_found h none priv plane desc = refuse h (some priv) plane desc einval
fb_found h (some p) priv plane desc = fb_checked h p (h.cell p) priv plane desc

-- `vcam_next_frame`
unfoldable pub vcam_next_frame :
    FbHeap → Option VcamPriv → Option Plane → FrameDesc → Option VcamFrame
unfolding vcam_checked
vcam_next_frame h none plane desc = refuse h none plane desc einval
vcam_next_frame h (some priv) plane desc = fb_found h priv.fb priv plane desc
