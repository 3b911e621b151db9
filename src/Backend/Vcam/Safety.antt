-- ===== src/Backend/Vcam/Safety.antt =====
-- No framebuffer of kmod/vpipe-vcam.c is used after it is freed, and none is lost.
use vpipe.Base.{
  ℕ, ◌+◌, ◌<◌, ◌≡◌, refl, ap, ◌∙◌, Option, none, some, arith, Result, Errno, ok, err, ◌∷◌,
}
use vpipe.Backend.Vcam.{VcamFb, FbHeap, VcamPriv, put_fb, kref_put, vcam_stop}
use vpipe.Backend.Vcam.Dmabuf.{
  ExportEnv, DmaBufs, give_back, export_taken, export_got, vcam_export_dmabuf, export_fb,
  vcam_dmabuf_release,
}
use vpipe.Backend.Vcam.Refs.{
  refs, refs_of, count, IsHeap, kref_get-some, kref_get-Recounts, kref_put-some, refs-pos,
}
use vpipe.Backend.Vcam.System.{VcamSys, Counted, Reach, no_framebuffers, Reach-Counted}

-- How many sources and exports hold the framebuffer.
abbrev holders : VcamSys → ℕ → ℕ
holders s p = count p s.owners + count p s.bufs

-- In every state that the backend reaches, a framebuffer that a started source or an export holds is
-- allocated, and its count is the number of those.
Reach-held :
    {s : VcamSys} (p : ℕ)
    → Reach no_framebuffers s
    → 0 < holders s p
    → (fb : VcamFb) × (s.heap.cell p ≡ some fb) × (fb.refcount ≡ holders s p)
Reach-held {s} p r held =
    let c = Reach-Counted r in
    let (fb, e) = refs-pos s.heap p (omega (arith, c.counts p)) in
    (fb, e, omega (arith, ap refs_of e, c.counts p))

-- In every state that the backend reaches, a framebuffer that no started source and no export holds is
-- not allocated: none is lost.
Reach-freed :
    {s : VcamSys} (p : ℕ) → Reach no_framebuffers s → holders s p ≡ 0 → s.heap.cell p ≡ none
Reach-freed {s} p r loose = freed (Reach-Counted r) loose (s.heap.cell p) refl
  where
    freed :
        Counted s
        → holders s p ≡ 0
        → (found : Option VcamFb) → s.heap.cell p ≡ found
        → s.heap.cell p ≡ none
    freed c loose none e = e
    freed c loose (some fb) e =
        absurd (omega (arith, c.is_heap.alive p fb e, ap refs_of e, c.counts p))

-- A reference can be given back while there is one.
kref_put-total : (h : FbHeap) (p : ℕ) → 0 < refs h p → (h' : FbHeap) × (kref_put h p ≡ some h')
kref_put-total h p held = let (fb, e) = refs-pos h p held in (_, kref_put-some h p fb e)

give_back-total :
    (e : Errno) (bufs : DmaBufs) (h : FbHeap) (p : ℕ)
    → 0 < refs h p
    → (t : Result ℕ × FbHeap × DmaBufs) × (give_back e bufs (kref_put h p) ≡ some t)
give_back-total e bufs h p held =
    let (h', given) = kref_put-total h p held in ((err e, h', bufs), ap (give_back e bufs) given)

export_taken-total :
    (exported : Result (Unit {0})) (fd : Result ℕ) (h : FbHeap) (p : ℕ) (bufs : DmaBufs)
    → 0 < refs h p
    → (t : Result ℕ × FbHeap × DmaBufs) × (export_taken exported fd h p bufs ≡ some t)
unfolding export_taken
export_taken-total (err e) fd h p bufs held = give_back-total e bufs h p held
export_taken-total (ok u) (err e) h p bufs held = give_back-total e bufs h p held
export_taken-total (ok u) (ok fd) h p bufs held = ((ok fd, h, p ∷ bufs), refl)

export-total :
    (env : ExportEnv) (h : FbHeap) (bufs : DmaBufs) (priv : VcamPriv) (p : ℕ)
    → IsHeap h
    → priv.fb ≡ some p
    → 0 < refs h p
    → (t : Result ℕ × FbHeap × DmaBufs) × (vcam_export_dmabuf env h bufs (some priv) ≡ some t)
unfolding vcam_export_dmabuf export_fb
export-total env h bufs priv p v at held =
    let (fb, e) = refs-pos h p held in
    let got = kref_get-some h p fb e in
    let taken = kref_get-Recounts h p v got in
    let (t, done_) = export_taken-total env.exported env.fd _ p bufs (omega (arith, taken.here)) in
    (t, ap (export_fb env h bufs) at ∙ ap (export_got env p bufs) got ∙ done_)

-- In every state that the backend reaches, a started source can stop and can export its framebuffer
-- without a use after free.
pub Reach-no_use_after_free :
    {s : VcamSys} (priv : VcamPriv) (p : ℕ) (env : ExportEnv)
    → Reach no_framebuffers s
    → priv.fb ≡ some p
    → 0 < count p s.owners
    → ((h : FbHeap) × (vcam_stop s.heap (some priv) ≡ some h))
      × ((t : Result ℕ × FbHeap × DmaBufs) × (vcam_export_dmabuf env s.heap s.bufs (some priv)
            ≡ some t))
unfolding vcam_stop
Reach-no_use_after_free {s} priv p env r at owned =
    let c = Reach-Counted r in
    let held : 0 < refs s.heap p = omega (arith, c.counts p) in
    let (h, stopped) = kref_put-total s.heap p held in
    ((h, ap (put_fb s.heap) at ∙ stopped), export-total env s.heap s.bufs priv p c.is_heap at held)

-- In every state that the backend reaches, and so also after the source has stopped, an export can end
-- without a use after free.
Reach-release :
    {s : VcamSys} (p : ℕ)
    → Reach no_framebuffers s
    → 0 < count p s.bufs
    → (h : FbHeap) × (vcam_dmabuf_release s.heap p ≡ some h)
unfolding vcam_dmabuf_release
Reach-release {s} p r exported = kref_put-total s.heap p (omega (arith, (Reach-Counted r).counts p))
