-- ===== src/Backend/Vcam/Lifetime.antt =====
-- The reference counts after the starts, stops and exports of kmod/vpipe-vcam.c.
use vpipe.Base.{
  ℕ, ◌+◌, ◌-◌, ◌≡◌, refl, sym, ap, subst, ◌∙◌, Bool, true, false, Option, none, some, arith, ◌==◌,
  ==_iff, ne→==, if◌then◌else◌, some_inj, Result, Errno, ok, err, einval, enomem, ok_inj,
}
use native.Mathlib.Decide.{ℕ_discrete}
use vpipe.Backend.Vcam.{
  FbHeap, VcamPriv, VcamEnv, with_fb, put_fb, vcam_fb_alloc, kref_get, kref_put, vcam_start,
  vcam_stop,
}
use vpipe.Backend.Vcam.Dmabuf.{ExportEnv, DmaBufs, give_back, export_taken, export_got, export_fb}
use vpipe.Backend.Vcam.Refs.{
  refs, count, IsHeap, Recounts, kref_get-Recounts, kref_put-Recounts, vcam_fb_alloc-Recounts,
}

-- A heap after one more, or one fewer, reference to `p`.
pub Recounts-plus :
    {h h' : FbHeap} {p : ℕ}
    → Recounts h h' p (λ n. n + 1)
    → (q : ℕ) → refs h' q ≡ (if p == q then 1 else 0) + refs h q
Recounts-plus {h} {h'} {p} r q = elim (ℕ_discrete p q) [
  | yes same ↦
      rw ((==_iff p q).1 same) (ap (refs h') (sym same) ∙ r.here ∙ omega (arith, ap (refs h) same))
  | no other ↦ rw (ne→== p q other) (r.elsewhere q other ∙ omega arith)
]

pub Recounts-minus :
    {h h' : FbHeap} {p : ℕ}
    → Recounts h h' p (λ n. n - 1)
    → (q : ℕ) → refs h' q ≡ refs h q - (if p == q then 1 else 0)
Recounts-minus {h} {h'} {p} r q = elim (ℕ_discrete p q) [
  | yes same ↦
      rw ((==_iff p q).1 same) (ap (refs h') (sym same) ∙ r.here ∙ omega (arith, ap (refs h) same))
  | no other ↦ rw (ne→== p q other) (r.elsewhere q other ∙ omega arith)
]

-- A start that succeeds has allocated the framebuffer that the private state names.
with_fb-ok :
    (env : VcamEnv) (given : Option (ℕ × FbHeap)) {priv : VcamPriv} {h' : FbHeap} {p : ℕ}
    → with_fb env given ≡ ok (priv, h')
    → priv.fb ≡ some p
    → given ≡ some (p, h')
with_fb-ok env none started at = cc
with_fb-ok env (some (q, k)) {p = p} started at =
    let same = ok_inj started in
    let address : q ≡ p = some_inj (ap (λ (t : VcamPriv × FbHeap). t.0.fb) same ∙ at) in
    λ i. some (address i, (same i).1)

pub vcam_start-Recounts :
    (env : VcamEnv) (h : FbHeap) (sizeimage : Option ℕ) {priv : VcamPriv} {h' : FbHeap} {p : ℕ}
    → IsHeap h
    → vcam_start env h sizeimage ≡ ok (priv, h')
    → priv.fb ≡ some p
    → Recounts h h' p (λ n. n + 1)
unfolding vcam_start
vcam_start-Recounts env h none v started at = cc
vcam_start-Recounts env h (some n) {priv = priv} {h' = h'} {p = p} v started at =
    guarded (n == 0) env.priv_ok started
  where
    guarded :
        (zero_size priv_ok : Bool)
        → (if zero_size
            then err einval
            else if priv_ok
            then with_fb env (vcam_fb_alloc h env.page n env.struct_ok env.memory_ok)
            else err enomem)
          ≡ ok (priv, h')
        → Recounts h h' p (λ n. n + 1)
    guarded true priv_ok e = cc
    guarded false false e = cc
    guarded false true e =
        (vcam_fb_alloc-Recounts h env.page n env.struct_ok env.memory_ok v
          (with_fb-ok env _ e at)).0

-- A source that stops gives its reference back.
pub vcam_stop-Recounts :
    (h : FbHeap) (priv : VcamPriv) {h' : FbHeap} {p : ℕ}
    → IsHeap h
    → priv.fb ≡ some p
    → vcam_stop h (some priv) ≡ some h'
    → Recounts h h' p (λ n. n - 1)
unfolding vcam_stop
vcam_stop-Recounts h priv {p = p} v at stopped =
    kref_put-Recounts h p v (ap (put_fb h) (sym at) ∙ stopped)

-- The references and the exports of a heap after an export, whether it has succeeded or not.
pub record Exports (h : FbHeap) (bufs : DmaBufs) (h' : FbHeap) (bufs' : DmaBufs) : Type 0 where
  pub is_heap : IsHeap h'
  pub balance : (q : ℕ) → refs h' q + count q bufs ≡ refs h q + count q bufs'

-- An export that takes a reference and gives it back.
give_back-Exports :
    (e : Errno) (h h1 : FbHeap) (p : ℕ) (bufs : DmaBufs) (put : Option FbHeap) {r : Result ℕ}
    {h' : FbHeap} {bufs' : DmaBufs}
    → put ≡ kref_put h1 p
    → Recounts h h1 p (λ n. n + 1)
    → give_back e bufs put ≡ some (r, h', bufs')
    → Exports h bufs h' bufs'
give_back-Exports e h h1 p bufs none same taken given = cc
give_back-Exports e h h1 p bufs (some h2) same taken given =
    let t = some_inj given in
    let back = kref_put-Recounts h1 p taken.is_heap (sym same) in
    subst (λ (t : Result ℕ × FbHeap × DmaBufs). Exports h bufs t.1 t.2) t
      (record {
        is_heap = back.is_heap;
        balance = λ q. ground (arith, Recounts-plus taken q, Recounts-minus back q);
      })

export_taken-Exports :
    (exported : Result (Unit {0})) (fd : Result ℕ) (h h1 : FbHeap) (p : ℕ) (bufs : DmaBufs)
    {r : Result ℕ} {h' : FbHeap} {bufs' : DmaBufs}
    → Recounts h h1 p (λ n. n + 1)
    → export_taken exported fd h1 p bufs ≡ some (r, h', bufs')
    → Exports h bufs h' bufs'
unfolding export_taken
export_taken-Exports (err e) fd h h1 p bufs taken given =
    give_back-Exports e h h1 p bufs _ refl taken given
export_taken-Exports (ok u) (err e) h h1 p bufs taken given =
    give_back-Exports e h h1 p bufs _ refl taken given
export_taken-Exports (ok u) (ok fd) h h1 p bufs taken given =
    subst (λ (t : Result ℕ × FbHeap × DmaBufs). Exports h bufs t.1 t.2) (some_inj given)
      (record { is_heap = taken.is_heap; balance = λ q. ground (arith, Recounts-plus taken q) })

export_got-Exports :
    (env : ExportEnv) (h : FbHeap) (p : ℕ) (bufs : DmaBufs) (got : Option FbHeap) {r : Result ℕ}
    {h' : FbHeap} {bufs' : DmaBufs}
    → IsHeap h
    → kref_get h p ≡ got
    → export_got env p bufs got ≡ some (r, h', bufs')
    → Exports h bufs h' bufs'
export_got-Exports env h p bufs none v same given = cc
export_got-Exports env h p bufs (some h1) v same given =
    export_taken-Exports env.exported env.fd h h1 p bufs (kref_get-Recounts h p v same) given

pub export_fb-Exports :
    (env : ExportEnv) (h : FbHeap) (bufs : DmaBufs) (fb : Option ℕ) {r : Result ℕ} {h' : FbHeap}
    {bufs' : DmaBufs}
    → IsHeap h
    → export_fb env h bufs fb ≡ some (r, h', bufs')
    → Exports h bufs h' bufs'
unfolding export_fb
export_fb-Exports env h bufs none v given =
    subst (λ (t : Result ℕ × FbHeap × DmaBufs). Exports h bufs t.1 t.2) (some_inj given)
      (record { is_heap = v; balance = λ q. refl })
export_fb-Exports env h bufs (some p) v given =
    export_got-Exports env h p bufs (kref_get h p) v refl given
