-- ===== src/Backend/Vcam/Frames.antt =====
-- A frame of kmod/vpipe-vcam.c changes pixels and no reference count.
use vpipe.Base.{
  ℕ, ◌<◌, ◌≡◌, refl, sym, ap, subst, ◌∙◌, ◌&&◌, ◌||◌, Bool, true, false, Option, none, some, arith,
  ltb, ◌==◌, if◌then◌else◌, if_cases, some_inj, ◌*◌, ◌%◌, inl, inr, Bytes, Errno, einval, efault,
  u64,
}
use native.Mathlib.Decide.{ℕ_discrete}
use vpipe.Backend.{FrameDesc, bad_geometry}
use vpipe.Backend.Vcam.{
  VcamFb, FbHeap, VcamPriv, Plane, own, mapped, VcamFrame, put_cell, copy_into, vcam_fill_gradient,
  copy_out, with_copy, refuse, vcam_produce, vcam_checked, fb_checked, fb_found, vcam_next_frame,
}
use vpipe.Backend.Vcam.Refs.{refs, IsHeap, put_cell-Recounts}

-- The two heaps count the same references.
pub record SameRefs (h h' : FbHeap) : Type 0 where
  pub is_heap : IsHeap h'
  pub same : (q : ℕ) → refs h' q ≡ refs h q

SameRefs-refl : (h : FbHeap) → IsHeap h → SameRefs h h
SameRefs-refl h v = record { is_heap = v; same = λ q. refl }

SameRefs-trans : {h k l : FbHeap} → SameRefs h k → SameRefs k l → SameRefs h l
SameRefs-trans a b = record { is_heap = b.is_heap; same = λ q. b.same q ∙ a.same q }

-- New bytes in a framebuffer.
write-SameRefs :
    (h : FbHeap) (p : ℕ) (fb : VcamFb) (bytes : Bytes)
    → IsHeap h
    → h.cell p ≡ some fb
    → SameRefs h (put_cell h p (some (record fb { vaddr = bytes })))
write-SameRefs h p fb bytes v e =
    let r =
      put_cell-Recounts h p fb (some (record fb { vaddr = bytes })) (λ n. n) v e
        (λ b same. counted b same) refl in
    record {
      is_heap = r.is_heap;
      same = λ q. elim (ℕ_discrete p q) [
        | yes here ↦
            ap (refs (put_cell h p (some (record fb { vaddr = bytes })))) (sym here)
            ∙ r.here
            ∙ ap (refs h) here
        | no other ↦ r.elsewhere q other
      ];
    }
  where
    counted :
        (b : VcamFb)
        → some (let f : VcamFb = record fb { vaddr = bytes } in f) ≡ some b
        → 0 < b.refcount
    counted b same = let positive = v.alive p fb e in ground arith

copy_into-SameRefs :
    (h : FbHeap) (q : ℕ) (found : Option VcamFb) (vaddr : Bytes) (n : ℕ) {h' : FbHeap} {dst : Plane}
    → IsHeap h
    → h.cell q ≡ found
    → copy_into h q found vaddr n ≡ some (h', dst)
    → SameRefs h h'
copy_into-SameRefs h q none vaddr n v e copied = cc
copy_into-SameRefs h q (some fb) vaddr n v e copied =
    subst (λ (t : FbHeap × Plane). SameRefs h t.0) (some_inj copied) (write-SameRefs h q fb _ v e)

copy_out-SameRefs :
    (h : FbHeap) (p : ℕ) (vaddr : Bytes) (n : ℕ) (plane : Plane) {h' : FbHeap} {dst : Plane}
    → IsHeap h
    → copy_out h p vaddr n plane ≡ some (h', dst)
    → SameRefs h h'
unfolding copy_out
copy_out-SameRefs h p vaddr n (own m) v copied =
    subst (λ (t : FbHeap × Plane). SameRefs h t.0) (some_inj copied) (SameRefs-refl h v)
copy_out-SameRefs h p vaddr n (mapped q) {h'} {dst} v copied = aliased (p == q) copied
  where
    aliased :
        (same : Bool)
        → (if same then some (h, mapped q) else copy_into h q (h.cell q) vaddr n) ≡ some (h', dst)
        → SameRefs h h'
    aliased true e = subst (λ (t : FbHeap × Plane). SameRefs h t.0) (some_inj e) (SameRefs-refl h v)
    aliased false e = copy_into-SameRefs h q (h.cell q) vaddr n v refl e

with_copy-SameRefs :
    (h : FbHeap) (priv : VcamPriv) (desc : FrameDesc) (copied : Option (FbHeap × Plane))
    {f : VcamFrame}
    → ((h' : FbHeap) (dst : Plane) → copied ≡ some (h', dst) → SameRefs h h')
    → with_copy priv desc copied ≡ some f
    → SameRefs h f.0
with_copy-SameRefs h priv desc none all e = cc
with_copy-SameRefs h priv desc (some (h', dst)) all e =
    subst (λ (t : VcamFrame). SameRefs h t.0) (some_inj e) (all h' dst refl)

vcam_produce-SameRefs :
    (h : FbHeap) (p : ℕ) (fb : VcamFb) (priv : VcamPriv) (dst : Plane) (desc : FrameDesc)
    {f : VcamFrame}
    → IsHeap h
    → h.cell p ≡ some fb
    → vcam_produce h p fb priv dst desc ≡ some f
    → SameRefs h f.0
unfolding vcam_produce
vcam_produce-SameRefs h p fb priv dst desc {f} v e produced =
    elim (if_cases (ltb 0 priv.drop_every_n && priv.frames_produced % priv.drop_every_n == 0)
      produced) [
        | inl (_, skipped) ↦
            subst (λ (t : VcamFrame). SameRefs h t.0) (some_inj skipped) (SameRefs-refl h v)
        | inr (_, filled) ↦
            with_copy-SameRefs h _ _ _
              (λ h' dst' copied.
                let pixels =
                  vcam_fill_gradient desc.width desc.height desc.stride priv.pattern_offset
                    fb.vaddr in
                let drawn = write-SameRefs h p fb pixels v e in
                SameRefs-trans drawn (copy_out-SameRefs _ p pixels _ dst drawn.is_heap copied))
              filled
      ]

refuse-SameRefs :
    (h : FbHeap) (priv : Option VcamPriv) (plane : Option Plane) (desc : FrameDesc) (e : Errno)
    {f : VcamFrame}
    → IsHeap h
    → refuse h priv plane desc e ≡ some f
    → SameRefs h f.0
refuse-SameRefs h priv plane desc e v refused =
    subst (λ (t : VcamFrame). SameRefs h t.0) (some_inj refused) (SameRefs-refl h v)

vcam_checked-SameRefs :
    (h : FbHeap) (p : ℕ) (fb : VcamFb) (priv : VcamPriv) (plane : Option Plane) (desc : FrameDesc)
    {f : VcamFrame}
    → IsHeap h
    → h.cell p ≡ some fb
    → vcam_checked h p fb priv plane desc ≡ some f
    → SameRefs h f.0
unfolding vcam_checked
vcam_checked-SameRefs h p fb priv none desc v e checked =
    elim (if_cases (bad_geometry desc || ltb fb.size (u64 (desc.stride * desc.height))) checked) [
      | inl (_, r) ↦ refuse-SameRefs h (some priv) none desc einval v r
      | inr (_, r) ↦ refuse-SameRefs h (some priv) none desc efault v r
    ]
vcam_checked-SameRefs h p fb priv (some dst) desc v e checked =
    elim (if_cases (bad_geometry desc || ltb fb.size (u64 (desc.stride * desc.height))) checked) [
      | inl (_, r) ↦ refuse-SameRefs h (some priv) (some dst) desc einval v r
      | inr (_, r) ↦ vcam_produce-SameRefs h p fb priv dst desc v e r
    ]

fb_checked-SameRefs :
    (h : FbHeap) (p : ℕ) (found : Option VcamFb) (priv : VcamPriv) (plane : Option Plane)
    (desc : FrameDesc) {f : VcamFrame}
    → IsHeap h
    → h.cell p ≡ found
    → fb_checked h p found priv plane desc ≡ some f
    → SameRefs h f.0
fb_checked-SameRefs h p none priv plane desc v e checked = cc
fb_checked-SameRefs h p (some fb) priv plane desc v e checked =
    vcam_checked-SameRefs h p fb priv plane desc v e checked

fb_found-SameRefs :
    (h : FbHeap) (fb : Option ℕ) (priv : VcamPriv) (plane : Option Plane) (desc : FrameDesc)
    {f : VcamFrame}
    → IsHeap h
    → fb_found h fb priv plane desc ≡ some f
    → SameRefs h f.0
fb_found-SameRefs h none priv plane desc v found =
    refuse-SameRefs h (some priv) plane desc einval v found
fb_found-SameRefs h (some p) priv plane desc v found =
    fb_checked-SameRefs h p (h.cell p) priv plane desc v refl found

-- Producing a frame, or refusing to, changes no reference count.
pub vcam_next_frame-SameRefs :
    (h : FbHeap) (priv : Option VcamPriv) (plane : Option Plane) (desc : FrameDesc) {f : VcamFrame}
    → IsHeap h
    → vcam_next_frame h priv plane desc ≡ some f
    → SameRefs h f.0
unfolding vcam_next_frame
vcam_next_frame-SameRefs h none plane desc v r = refuse-SameRefs h none plane desc einval v r
vcam_next_frame-SameRefs h (some priv) plane desc v r =
    fb_found-SameRefs h priv.fb priv plane desc v r
