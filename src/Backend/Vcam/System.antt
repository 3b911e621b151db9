-- ===== src/Backend/Vcam/System.antt =====
-- The sources and the exports that hold the framebuffers of kmod/vpipe-vcam.c, and what they do.
use vpipe.Base.{ℕ, ◌+◌, ◌-◌, ◌≡◌, refl, ◌∙◌, Option, none, some, List, [], ◌∷◌, arith, Result, ok}
use vpipe.Backend.{FrameDesc, Frame}
use vpipe.Backend.Vcam.{FbHeap, VcamPriv, VcamEnv, Plane, vcam_start, vcam_stop, vcam_next_frame}
use vpipe.Backend.Vcam.Dmabuf.{
  ExportEnv, DmaBufs, vcam_export_dmabuf, export_fb, vcam_dmabuf_release,
}
use vpipe.Backend.Vcam.Refs.{refs, count, IsHeap, Recounts, kref_put-Recounts}
use vpipe.Backend.Vcam.Lifetime.{
  Exports, Recounts-plus, Recounts-minus, vcam_start-Recounts, vcam_stop-Recounts,
  export_fb-Exports,
}
use vpipe.Backend.Vcam.Frames.{vcam_next_frame-SameRefs}

-- The heap, the framebuffers that started sources hold, one entry for each source, and the exports.
pub record VcamSys : Type 0 where
  pub heap : FbHeap
  pub owners : List ℕ
  pub bufs : DmaBufs

-- Every framebuffer counts the sources and the exports that hold it.
pub record Counted (s : VcamSys) : Type 0 where
  pub is_heap : IsHeap s.heap
  pub counts : (p : ℕ) → refs s.heap p ≡ count p s.owners + count p s.bufs

-- `ys` is `xs` without one entry `p`.
abbrev Removes : ℕ → List ℕ → List ℕ → Type 0
Removes p xs ys = (q : ℕ) → count q xs ≡ count q (p ∷ ys)

-- The steps of the kernel on the framebuffers: the calls of the backend that return without a use after
-- free, each by a source that holds its framebuffer, and the end of an export.
pub data Step (s : VcamSys) : VcamSys → Type 0 where
  starts :
      (env : VcamEnv) (sizeimage : Option ℕ) (priv : VcamPriv) (h : FbHeap) (p : ℕ)
      → vcam_start env s.heap sizeimage ≡ ok (priv, h)
      → priv.fb ≡ some p
      → Step s (record s { heap = h; owners = p ∷ s.owners })
  stops :
      (priv : VcamPriv) (p : ℕ) (rest : List ℕ) (h : FbHeap)
      → priv.fb ≡ some p
      → Removes p s.owners rest
      → vcam_stop s.heap (some priv) ≡ some h
      → Step s (record s { heap = h; owners = rest })
  produces :
      (priv : Option VcamPriv) (plane : Option Plane) (desc : FrameDesc) (h : FbHeap)
      (f : Frame (Option VcamPriv) (Option Plane))
      → vcam_next_frame s.heap priv plane desc ≡ some (h, f)
      → Step s (record s { heap = h })
  exports :
      (env : ExportEnv) (priv : Option VcamPriv) (r : Result ℕ) (h : FbHeap) (bufs : DmaBufs)
      → vcam_export_dmabuf env s.heap s.bufs priv ≡ some (r, h, bufs)
      → Step s (record s { heap = h; bufs = bufs })
  releases :
      (p : ℕ) (rest : DmaBufs) (h : FbHeap)
      → Removes p s.bufs rest
      → vcam_dmabuf_release s.heap p ≡ some h
      → Step s (record s { heap = h; bufs = rest })

pub data Reach (s : VcamSys) : VcamSys → Type 0 where
  here : Reach s s
  next : {t u : VcamSys} → Reach s t → Step t u → Reach s u

-- Before any source is started.
abbrev pub no_framebuffers : VcamSys
no_framebuffers = record { heap = record { next = 0; cell = λ _. none }; owners = []; bufs = [] }

no_framebuffers-Counted : Counted no_framebuffers
no_framebuffers-Counted = record {
  is_heap = record { alive = λ p fb e. cc; unused = λ p le. refl };
  counts = λ p. refl;
}

export-Exports :
    (env : ExportEnv) (h : FbHeap) (bufs : DmaBufs) (priv : Option VcamPriv) {r : Result ℕ}
    {h' : FbHeap} {bufs' : DmaBufs}
    → IsHeap h
    → vcam_export_dmabuf env h bufs priv ≡ some (r, h', bufs')
    → Exports h bufs h' bufs'
unfolding vcam_export_dmabuf export_fb
export-Exports env h bufs none v e = export_fb-Exports env h bufs none v e
export-Exports env h bufs (some priv) v e = export_fb-Exports env h bufs priv.fb v e

release-Recounts :
    (h : FbHeap) (p : ℕ) {h' : FbHeap}
    → IsHeap h
    → vcam_dmabuf_release h p ≡ some h'
    → Recounts h h' p (λ n. n - 1)
unfolding vcam_dmabuf_release
release-Recounts h p v e = kref_put-Recounts h p v e

Step-Counted : {s t : VcamSys} → Counted s → Step s t → Counted t
Step-Counted {s} c (starts env n priv h p e at) =
    let r = vcam_start-Recounts env s.heap n c.is_heap e at in
    record { is_heap = r.is_heap; counts = λ q. omega (arith, Recounts-plus r q, c.counts q) }
Step-Counted {s} c (stops priv p rest h at out e) =
    let r = vcam_stop-Recounts s.heap priv c.is_heap at e in
    record {
      is_heap = r.is_heap;
      counts = λ q. ground (arith, Recounts-minus r q, c.counts q, out q);
    }
Step-Counted {s} c (produces priv plane desc h f e) =
    let r = vcam_next_frame-SameRefs s.heap priv plane desc c.is_heap e in
    record { is_heap = r.is_heap; counts = λ q. r.same q ∙ c.counts q }
Step-Counted {s} c (exports env priv r h bufs e) =
    let x = export-Exports env s.heap s.bufs priv c.is_heap e in
    record { is_heap = x.is_heap; counts = λ q. omega (arith, x.balance q, c.counts q) }
Step-Counted {s} c (releases p rest h out e) =
    let r = release-Recounts s.heap p c.is_heap e in
    record {
      is_heap = r.is_heap;
      counts = λ q. ground (arith, Recounts-minus r q, c.counts q, out q);
    }

-- After any sequence of starts, stops, frames, exports and releases, every framebuffer counts exactly
-- the started sources and the live exports that hold it, and one with no holder is free.
pub Reach-Counted : {s : VcamSys} → Reach no_framebuffers s → Counted s
Reach-Counted here = no_framebuffers-Counted
Reach-Counted (next r step) = Step-Counted (Reach-Counted r) step
