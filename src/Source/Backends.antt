-- ===== src/Source/Backends.antt =====
-- The `struct vpipe_source_ops` of kmod/vpipe-fixture.c, kmod/vpipe-synthetic.c and kmod/vpipe-vcam.c,
-- and their registration by `vpipe_init`.
use vpipe.Base.{ℕ, Option, none, some, Bytes, Result, done, ok, err, ◌>>=◌}
use vpipe.Backend.{FrameDesc, Frame, backend_fixture, backend_synthetic, backend_vcam_derived}
use vpipe.Backend.Synthetic.{
  SyntheticPriv, synthetic_start, synthetic_stop, synthetic_reset, synthetic_next_frame,
}
use vpipe.Backend.Vcam.{
  VcamFb, FbHeap, VcamPriv, VcamFrame, Plane, own, mapped, put_cell, vcam_start, vcam_stop,
  vcam_reset, vcam_next_frame,
}
use vpipe.Backend.Vcam.Dmabuf.{vcam_export_dmabuf}
use vpipe.Source.{
  SourcePriv, null, synthetic, vcam, SourceFrame, SourceOps, BackendOps, source_register,
}

-- The cast of `src->priv` in the synthetic backend, whose sources hold no other state.
abbrev to_synthetic : SourcePriv → Option SyntheticPriv
to_synthetic null = none
to_synthetic (synthetic p) = some p
to_synthetic (vcam p) = none

abbrev of_synthetic : Option SyntheticPriv → SourcePriv
of_synthetic none = null
of_synthetic (some p) = synthetic p

-- The cast of `src->priv` in the vcam-derived backend.
abbrev to_vcam : SourcePriv → Option VcamPriv
to_vcam null = none
to_vcam (synthetic p) = none
to_vcam (vcam p) = some p

abbrev of_vcam : Option VcamPriv → SourcePriv
of_vcam none = null
of_vcam (some p) = vcam p

-- `fixture_next_frame`
unfoldable pub fixture_next_frame :
    FbHeap → SourcePriv → Option Plane → FrameDesc → Option SourceFrame
fixture_next_frame h priv plane desc =
    some (h, record { status = done; priv = priv; plane = plane; desc = desc })

-- `fixture_ops`
unfoldable pub fixture_ops : SourceOps
unfolding fixture_next_frame
fixture_ops = record {
  start = none;
  stop = none;
  reset = none;
  next_frame = some fixture_next_frame;
  export_dmabuf = none;
}

abbrev synthetic_started : FbHeap → Result SyntheticPriv → Result (SourcePriv × FbHeap)
synthetic_started h (err e) = err e
synthetic_started h (ok p) = ok (synthetic p, h)

abbrev fb_bytes : Option VcamFb → Option Bytes
fb_bytes none = none
fb_bytes (some fb) = some fb.vaddr

-- The bytes of a plane; `none` is a use after free.
abbrev pub plane_bytes : FbHeap → Plane → Option Bytes
plane_bytes h (own m) = some m
plane_bytes h (mapped q) = fb_bytes (h.cell q)

abbrev set_fb : FbHeap → ℕ → Option VcamFb → Bytes → FbHeap
set_fb h q none m = h
set_fb h q (some fb) m = put_cell h q (some (record fb { vaddr = m }))

-- The plane once its bytes are `m`.
abbrev pub set_plane : FbHeap → Plane → Bytes → FbHeap × Plane
set_plane h (own _) m = (h, own m)
set_plane h (mapped q) m = (set_fb h q (h.cell q) m, mapped q)

abbrev synthetic_plane : FbHeap → Plane → Option Bytes → FbHeap × Plane
synthetic_plane h plane none = (h, plane)
synthetic_plane h plane (some m) = set_plane h plane m

-- What the synthetic backend leaves, with the plane that its address points to.
abbrev synthetic_on :
    FbHeap → Plane → Frame (Option SyntheticPriv) (Option Bytes) → Option SourceFrame
synthetic_on h plane f =
    let (h', plane') = synthetic_plane h plane f.plane in
    some (
      h',
      record { status = f.status; priv = of_synthetic f.priv; plane = some plane'; desc = f.desc },
    )

abbrev synthetic_bytes : FbHeap → SourcePriv → Plane → Option Bytes → FrameDesc → Option SourceFrame
synthetic_bytes h priv plane none desc = none
synthetic_bytes h priv plane (some m) desc =
    synthetic_on h plane (synthetic_next_frame (to_synthetic priv) (some m) desc)

abbrev no_plane : FbHeap → Frame (Option SyntheticPriv) (Option Bytes) → Option SourceFrame
no_plane h f =
    some (h, record { status = f.status; priv = of_synthetic f.priv; plane = none; desc = f.desc })

-- `synthetic_next_frame` on a buffer: the plane is of its own or an imported framebuffer.
unfoldable pub synthetic_next : FbHeap → SourcePriv → Option Plane → FrameDesc → Option SourceFrame
unfolding synthetic_next_frame
synthetic_next h priv none desc = no_plane h (synthetic_next_frame (to_synthetic priv) none desc)
synthetic_next h priv (some plane) desc = synthetic_bytes h priv plane (plane_bytes h plane) desc

-- `synthetic_ops`
unfoldable pub synthetic_ops : SourceOps
unfolding synthetic_start synthetic_stop synthetic_reset synthetic_next
synthetic_ops = record {
  start = some (λ env h sizeimage.
      synthetic_started h (synthetic_start env.synthetic_drop_every env.vcam_env.priv_ok));
  stop = some (λ h priv. some (of_synthetic (synthetic_stop (to_synthetic priv)), h));
  reset = some (λ now priv. of_synthetic (synthetic_reset (to_synthetic priv)));
  next_frame = some synthetic_next;
  export_dmabuf = none;
}

abbrev vcam_started : Result (VcamPriv × FbHeap) → Result (SourcePriv × FbHeap)
vcam_started (err e) = err e
vcam_started (ok (p, h)) = ok (vcam p, h)

abbrev vcam_stopped : Option FbHeap → Option (SourcePriv × FbHeap)
vcam_stopped none = none
vcam_stopped (some h) = some (null, h)

abbrev vcam_framed : Option VcamFrame → Option SourceFrame
vcam_framed none = none
vcam_framed (some (h, f)) =
    some (h, record { status = f.status; priv = of_vcam f.priv; plane = f.plane; desc = f.desc })

-- `vcam_ops`
unfoldable pub vcam_ops : SourceOps
unfolding vcam_start vcam_stop vcam_reset vcam_next_frame vcam_export_dmabuf
vcam_ops = record {
  start = some (λ env h sizeimage. vcam_started (vcam_start env.vcam_env h (some sizeimage)));
  stop = some (λ h priv. vcam_stopped (vcam_stop h (to_vcam priv)));
  reset = some (λ now priv. of_vcam (vcam_reset now (to_vcam priv)));
  next_frame =
      some (λ h priv plane desc. vcam_framed (vcam_next_frame h (to_vcam priv) plane desc));
  export_dmabuf = some (λ env h bufs priv. vcam_export_dmabuf env h bufs (to_vcam priv));
}

-- The registrations of `vpipe_init`, in its order; it gives up at the first that fails.
unfoldable pub register_all : BackendOps → Result BackendOps
unfolding source_register fixture_ops synthetic_ops vcam_ops
register_all slots = do
  with_fixture ← source_register slots backend_fixture (some fixture_ops)
  with_synthetic ← source_register with_fixture backend_synthetic (some synthetic_ops)
  source_register with_synthetic backend_vcam_derived (some vcam_ops)
