-- ===== src/Source.antt =====
-- kmod/vpipe-source.c: the registry of backends, and the calls that the m2m device makes on the source
-- of a context. kmod/vpipe-fixture.c is the backend that leaves the buffer alone. The name of a
-- backend, which is only printed, is left out. `none` for a result is a use after free in the backend.
pub mod Registry
pub mod Frames
pub mod Backends
use vpipe.Base.{
  ℕ, ◌+◌, ◌^◌, ◌%◌, ◌&&◌, Bool, true, false, Option, none, some, u32, ltb, ◌==◌, if◌then◌else◌,
  Bytes, Result, Errno, done, ok, err, einval, ebusy, enodev, enomem, eopnotsupp, ◌>>◌,
}
use vpipe.Backend.{FrameDesc, Frame, backend_none, backend_max}
use vpipe.Backend.Synthetic.{SyntheticPriv}
use vpipe.Backend.Vcam.{FbHeap, VcamPriv, VcamEnv, Plane}
use vpipe.Backend.Vcam.Dmabuf.{DmaBufs, ExportEnv}

-- What `void *priv` points to.
pub data SourcePriv : Type 0 where
  null : SourcePriv
  synthetic : SyntheticPriv → SourcePriv
  vcam : VcamPriv → SourcePriv

-- What the kernel gives the calls of a start: the module parameters, the time, the allocations.
pub record StartEnv : Type 0 where
  pub synthetic_drop_every : ℕ
  pub vcam_env : VcamEnv

-- What a call of `next_frame` leaves.
abbrev pub SourceFrame : Type 0
SourceFrame = FbHeap × Frame SourcePriv (Option Plane)

-- `struct vpipe_source_ops`: `none` is a null pointer. The context of a start is given by its
-- `out_q.sizeimage`.
pub record SourceOps : Type 0 where
  pub start : Option (StartEnv → FbHeap → ℕ → Result (SourcePriv × FbHeap))
  pub stop : Option (FbHeap → SourcePriv → Option (SourcePriv × FbHeap))
  pub reset : Option (ℕ → SourcePriv → SourcePriv)
  pub next_frame : Option (FbHeap → SourcePriv → Option Plane → FrameDesc → Option SourceFrame)
  pub export_dmabuf :
      Option (ExportEnv → FbHeap → DmaBufs → SourcePriv → Option (Result ℕ × FbHeap × DmaBufs))

-- `struct vpipe_source`
pub record Source : Type 0 where
  pub backend_id : ℕ
  pub ops : SourceOps
  pub priv : SourcePriv
  pub seq : ℕ

-- `vpipe_backend_ops[]`
abbrev pub BackendOps : Type 0
BackendOps = ℕ → Option SourceOps

abbrev pub backend_id_valid : ℕ → Bool
backend_id_valid id = ltb backend_none id && ltb id backend_max

abbrev pub is_some {ℓ} : {A : Type ℓ} → Option A → Bool
is_some none = false
is_some (some a) = true

-- `vpipe_source_register`
unfoldable pub source_register : BackendOps → ℕ → Option SourceOps → Result BackendOps
source_register slots id none = err einval
source_register slots id (some ops) =
    if is_some ops.next_frame
    then if backend_id_valid id
      then if is_some (slots id) then err ebusy else ok (λ i. if id == i then some ops else slots i)
      else err einval
    else err einval

abbrev pub create_with : ℕ → Bool → Option SourceOps → Result Source
create_with id allocated none = err enodev
create_with id allocated (some ops) =
    if allocated
    then ok (record { backend_id = id; ops = ops; priv = null; seq = 0 })
    else err enomem

-- `vpipe_source_create`; `allocated` is whether `kzalloc` gave memory.
unfoldable pub source_create : BackendOps → Bool → ℕ → Result Source
source_create slots allocated id =
    if backend_id_valid id then create_with id allocated (slots id) else err einval

abbrev pub stop_by :
    Option (FbHeap → SourcePriv → Option (SourcePriv × FbHeap))
    → FbHeap
    → SourcePriv
    → Option (SourcePriv × FbHeap)
stop_by none h priv = some (priv, h)
stop_by (some stop) h priv = stop h priv

abbrev pub freed : Option (SourcePriv × FbHeap) → Option FbHeap
freed none = none
freed (some (priv, h)) = some h

-- `vpipe_source_destroy`, which stops a source on its way.
unfoldable pub source_destroy : FbHeap → Source → Option FbHeap
source_destroy h src = freed (stop_by src.ops.stop h src.priv)

abbrev pub started : Source → Result (SourcePriv × FbHeap) → Result (Source × FbHeap)
started src (err e) = err e
started src (ok (priv, h)) = ok (record src { priv = priv }, h)

abbrev start_by :
    Option (StartEnv → FbHeap → ℕ → Result (SourcePriv × FbHeap))
    → StartEnv
    → FbHeap
    → Source
    → ℕ
    → Result (Source × FbHeap)
start_by none env h src sizeimage = ok (src, h)
start_by (some start) env h src sizeimage = started src (start env h sizeimage)

-- `vpipe_source_start`
unfoldable pub source_start : StartEnv → FbHeap → Source → ℕ → Result (Source × FbHeap)
source_start env h src sizeimage = start_by src.ops.start env h src sizeimage

abbrev pub stopped : Source → Option (SourcePriv × FbHeap) → Option (Source × FbHeap)
stopped src none = none
stopped src (some (priv, h)) = some (record src { priv = priv }, h)

-- `vpipe_source_stop`
unfoldable pub source_stop : FbHeap → Source → Option (Source × FbHeap)
source_stop h src = stopped src (stop_by src.ops.stop h src.priv)

abbrev reset_by : Option (ℕ → SourcePriv → SourcePriv) → ℕ → SourcePriv → SourcePriv
reset_by none now priv = priv
reset_by (some reset) now priv = reset now priv

-- `vpipe_source_reset`
unfoldable source_reset : ℕ → Source → Source
source_reset now src = record src { seq = 0; priv = reset_by src.ops.reset now src.priv }

-- The descriptor that a backend is given: cleared, but for its geometry.
abbrev pub cleared : FrameDesc → FrameDesc
cleared desc = record {
  source_timestamp_ns = 0;
  sequence = 0;
  backend_id = 0;
  byteused = 0;
  flags = 0;
  width = desc.width;
  height = desc.height;
  stride = desc.stride;
}

-- `vpipe_source_next_frame` after the backend has returned; `now` is `ktime_get_ns()`.
abbrev pub stamp_by :
    Result (Unit {0}) → ℕ → Source → Frame SourcePriv (Option Plane) → Frame Source (Option Plane)
stamp_by (err e) now src f = record {
  status = err e;
  priv = record src { priv = f.priv };
  plane = f.plane;
  desc = f.desc;
}
stamp_by (ok _) now src f = record {
  status = done;
  priv = record src { priv = f.priv; seq = u32 (src.seq + 1) };
  plane = f.plane;
  desc = record f.desc {
    source_timestamp_ns =
        if f.desc.source_timestamp_ns == 0 then now else f.desc.source_timestamp_ns;
    backend_id = src.backend_id;
    sequence = src.seq;
  };
}

abbrev pub stamped : ℕ → Source → Option SourceFrame → Option (FbHeap × Frame Source (Option Plane))
stamped now src none = none
stamped now src (some (h, f)) = some (h, stamp_by f.status now src f)

abbrev pub next_by :
    Option (FbHeap → SourcePriv → Option Plane → FrameDesc → Option SourceFrame)
    → ℕ
    → FbHeap
    → Source
    → Option Plane
    → FrameDesc
    → Option (FbHeap × Frame Source (Option Plane))
next_by none now h src plane desc =
    some (h, record { status = err einval; priv = src; plane = plane; desc = desc })
next_by (some next) now h src plane desc = stamped now src (next h src.priv plane (cleared desc))

-- `vpipe_source_next_frame` on a buffer with its plane and its descriptor.
unfoldable pub source_next_frame :
    ℕ → FbHeap → Source → Option Plane → FrameDesc → Option (FbHeap × Frame Source (Option Plane))
source_next_frame now h src plane desc = next_by src.ops.next_frame now h src plane desc

abbrev export_by :
    Option (ExportEnv → FbHeap → DmaBufs → SourcePriv → Option (Result ℕ × FbHeap × DmaBufs))
    → ExportEnv
    → FbHeap
    → DmaBufs
    → SourcePriv
    → Option (Result ℕ × FbHeap × DmaBufs)
export_by none env h bufs priv = some (err eopnotsupp, h, bufs)
export_by (some export) env h bufs priv = export env h bufs priv

-- `vpipe_source_export_dmabuf`
unfoldable pub source_export_dmabuf :
    ExportEnv → FbHeap → DmaBufs → Source → Option (Result ℕ × FbHeap × DmaBufs)
source_export_dmabuf env h bufs src = export_by src.ops.export_dmabuf env h bufs src.priv
