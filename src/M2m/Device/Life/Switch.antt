-- ===== src/M2m/Device/Life/Switch.antt =====
-- What VPIPE_IOC_SET_BACKEND does to a context.
use vpipe.Base.{
  ℕ, ◌≡◌, refl, sym, ap, ◌∙◌, ◌||◌, Bool, true, false, Option, none, some, some_inj, Result, Errno,
  ok, err, ebusy, if◌then◌else◌, ◌⊎◌, inl, inr,
}
use vpipe.Backend.Vcam.{FbHeap}
use vpipe.Backend.Vcam.Dmabuf.{DmaBufs, ExportEnv}
use vpipe.Source.{Source, SourcePriv, BackendOps, stop_by, freed, source_create, source_destroy}
use vpipe.M2m.{Ctx}
use vpipe.M2m.Device.Life.{set_backend, Replied, switched, switch_to, default_ioctl}

-- A source that is destroyed: the operation `stop` of its backend, if it has one, is called on its private
-- state, and `h'` is the memory that this leaves.
abbrev Destroyed : FbHeap → Source → FbHeap → Type 0
Destroyed h src h' =
    ((src.ops.stop ≡ none) × (h' ≡ h))
    ⊎ ((stop : FbHeap → SourcePriv → Option (SourcePriv × FbHeap)) × (priv : SourcePriv)
        × (src.ops.stop ≡ some stop)
        × (stop h src.priv ≡ some (priv, h')))

-- How the call ends: with an error, which leaves all as it was, or, on a device that does not stream,
-- with the new source in place of the old one, which has been destroyed.
abbrev pub Switched : FbHeap → Ctx → DmaBufs → Bool → Result Source → Replied → Type 0
Switched h ctx bufs streaming created r =
    ((e : Errno) × (r ≡ record { status = err e; ctx = ctx; heap = h; bufs = bufs }))
    ⊎ ((src : Source) × (h' : FbHeap) × (streaming ≡ false)
        × (created ≡ ok src)
        × Destroyed h ctx.src h'
        × (r ≡ record { status = ok none; ctx = record ctx { src = src }; heap = h'; bufs = bufs }))

stopped-Destroyed :
    (h h' : FbHeap) (src : Source)
    (stop : Option (FbHeap → SourcePriv → Option (SourcePriv × FbHeap)))
    → src.ops.stop ≡ stop
    → freed (stop_by stop h src.priv) ≡ some h'
    → Destroyed h src h'
stopped-Destroyed h h' src none none_there e = inl (none_there, sym (some_inj e))
stopped-Destroyed h h' src (some stop) there e = called (stop h src.priv) refl e
  where
    called :
        (left : Option (SourcePriv × FbHeap))
        → stop h src.priv ≡ left
        → freed left ≡ some h'
        → Destroyed h src h'
    called none gone e = absurd (cc)
    called (some (priv, h'')) gone e =
        inr (stop, priv, there, gone ∙ ap (λ x. some (priv, x)) (some_inj e))

source_destroy-Destroyed :
    (h h' : FbHeap) (src : Source) → source_destroy h src ≡ some h' → Destroyed h src h'
unfolding source_destroy
source_destroy-Destroyed h h' src e = stopped-Destroyed h h' src src.ops.stop refl e

destroyed :
    (h : FbHeap) (ctx : Ctx) (bufs : DmaBufs) (src : Source) (r : Replied) (freed : Option FbHeap)
    → source_destroy h ctx.src ≡ freed
    → switched ctx bufs src freed ≡ some r
    → Switched h ctx bufs false (ok src) r
destroyed h ctx bufs src r none gone e = cc
destroyed h ctx bufs src r (some h') gone e =
    inr (src, h', refl, refl, source_destroy-Destroyed h h' ctx.src gone, sym (some_inj e))

idle :
    (h : FbHeap) (ctx : Ctx) (bufs : DmaBufs) (r : Replied) (created : Result Source)
    → switch_to h ctx bufs created ≡ some r
    → Switched h ctx bufs false created r
unfolding source_destroy
idle h ctx bufs r (err x) e = inl (x, sym (some_inj e))
idle h ctx bufs r (ok src) e = destroyed h ctx bufs src r (source_destroy h ctx.src) refl e

by_streaming :
    (h : FbHeap) (ctx : Ctx) (bufs : DmaBufs) (r : Replied) (streaming : Bool)
    (created : Result Source)
    → (if streaming
        then some (record { status = err ebusy; ctx = ctx; heap = h; bufs = bufs })
        else switch_to h ctx bufs created)
      ≡ some r
    → Switched h ctx bufs streaming created r
by_streaming h ctx bufs r true created e = inl (ebusy, sym (some_inj e))
by_streaming h ctx bufs r false created e = idle h ctx bufs r created e

-- Switching the backend of a context either fails and changes nothing, or succeeds while neither queue
-- streams: then the `stop` of the old source's backend, if there is one, has been called on its private
-- state, and the context has a source that has just been created.
pub default_ioctl-Switched :
    (slots : BackendOps) (allocated : Bool) (env : ExportEnv) (h : FbHeap) (ctx : Ctx)
    (bufs : DmaBufs) (out_streaming cap_streaming : Bool) (id : ℕ) (r : Replied)
    → default_ioctl slots allocated env h ctx bufs out_streaming cap_streaming (set_backend id)
      ≡ some r
    → Switched h ctx bufs (out_streaming || cap_streaming) (source_create slots allocated id) r
unfolding default_ioctl
default_ioctl-Switched slots allocated env h ctx bufs out_streaming cap_streaming id r e =
    by_streaming h ctx bufs r (out_streaming || cap_streaming) (source_create slots allocated id) e
