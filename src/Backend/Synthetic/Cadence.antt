-- ===== src/Backend/Synthetic/Cadence.antt =====
-- Which frames the synthetic and the vcam-derived backends drop.
use vpipe.Base.{
  ℕ, zero, suc, ◌+◌, ◌^◌, ◌%◌, ◌<◌, ◌≡◌, refl, ap, sym, ◌∙◌, ◌&&◌, true, false, Option, none, some,
  arith, ltb, ◌==◌, u32, u64, ◌*◌, has_bit, set_bit, Bytes, ok, done, AllOk, AllOk-ok, AllOk-if,
  ok_inj, ap₂,
}
use vpipe.Backend.{FrameDesc, frame_flag_dropped}
use vpipe.Backend.Synthetic.{SyntheticPriv, synthetic_start, synthetic_fill}
use vpipe.Backend.Vcam.{
  FbHeap, VcamFb, VcamPriv, VcamEnv, Plane, vcam_start, vcam_produce, with_fb, vcam_fb_alloc,
}

-- The private state after `n` frames of the plane `m` and the descriptor `desc`.
unfoldable synthetic_after : SyntheticPriv → Bytes → FrameDesc → ℕ → SyntheticPriv
unfolding synthetic_fill
synthetic_after p m desc zero = p
synthetic_after p m desc (suc n) = (synthetic_fill (synthetic_after p m desc n) m desc).priv

fill-produced :
    (p : SyntheticPriv) (m : Bytes) (desc : FrameDesc)
    → let q = (synthetic_fill p m desc).priv in
      (q.frames_produced ≡ u32 (p.frames_produced + 1)) × (q.drop_every_n ≡ p.drop_every_n)
unfolding synthetic_fill
fill-produced p m desc = ground arith

after-produced :
    (p : SyntheticPriv) (m : Bytes) (desc : FrameDesc) (n : ℕ)
    → p.frames_produced ≡ 0
    → n < 2 ^ 32
    → let q = synthetic_after p m desc n in
      (q.frames_produced ≡ n) × (q.drop_every_n ≡ p.drop_every_n)
unfolding synthetic_after
after-produced p m desc zero e small = (e, refl)
after-produced p m desc (suc n) e small =
    let rest = after-produced p m desc n e (omega arith) in
    let step = fill-produced (synthetic_after p m desc n) m desc in
    (omega (arith, rest, step), step.1 ∙ rest.1)

fill-dropped :
    (p : SyntheticPriv) (m : Bytes) (desc : FrameDesc)
    → has_bit desc.flags frame_flag_dropped ≡ false
    → 0 < p.drop_every_n
    → has_bit (synthetic_fill p m desc).desc.flags frame_flag_dropped
      ≡ (u32 (p.frames_produced + 1) % p.drop_every_n == 0)
unfolding synthetic_fill
fill-dropped p m desc clear pos = ground arith

-- A synthetic source that has been started to drop every d-th frame drops, of its first 2^32 - 1 frames,
-- exactly those whose number, from 1 on, is a multiple of d.
synthetic_start-drops :
    (d : ℕ) (p : SyntheticPriv) (m : Bytes) (desc : FrameDesc) (n : ℕ)
    → synthetic_start d true ≡ ok p
    → 0 < d
    → has_bit desc.flags frame_flag_dropped ≡ false
    → n + 1 < 2 ^ 32
    → has_bit (synthetic_fill (synthetic_after p m desc n) m desc).desc.flags frame_flag_dropped
      ≡ ((n + 1) % d == 0)
unfolding synthetic_start
synthetic_start-drops d p m desc n started pos clear small =
    let produced : p.frames_produced ≡ 0 =
      sym (ap (λ (q : SyntheticPriv). q.frames_produced) (ok_inj started)) in
    let every : p.drop_every_n ≡ d =
      sym (ap (λ (q : SyntheticPriv). q.drop_every_n) (ok_inj started)) in
    let q = after-produced p m desc n produced (omega arith) in
    let wrapped : u32 (n + 1) ≡ n + 1 = omega arith in
    fill-dropped (synthetic_after p m desc n) m desc clear (omega (arith, every, q))
    ∙ ap₂ (λ a b. u32 (a + 1) % b == 0) q.0 (q.1 ∙ every)
    ∙ ap (λ k. k % d == 0) wrapped

-- What the private state holds after a start.
abbrev Fresh : VcamEnv → VcamPriv × FbHeap → Type 0
Fresh env (priv, h) = (priv.frames_produced ≡ 0) × (priv.drop_every_n ≡ env.vcam_drop_every)

with_fb-Fresh : (env : VcamEnv) (fb : Option (ℕ × FbHeap)) → AllOk (Fresh env) (with_fb env fb)
with_fb-Fresh env none = tt
with_fb-Fresh env (some (p, h)) = (refl, refl)

vcam_start-Fresh :
    (env : VcamEnv) (h : FbHeap) (size : ℕ) → AllOk (Fresh env) (vcam_start env h (some size))
unfolding vcam_start
vcam_start-Fresh env h size =
    AllOk-if (Fresh env) _ _ (size == 0) (λ e. tt)
      (λ e.
        AllOk-if (Fresh env) _ _ env.priv_ok
          (λ o. with_fb-Fresh env (vcam_fb_alloc h env.page size env.struct_ok env.memory_ok))
          (λ o. tt))

set_bit-has_bit : (f : ℕ) → has_bit (set_bit f 0) 0 ≡ true
set_bit-has_bit f = ground arith

-- A vcam-derived source that has been started to drop every d-th frame drops its first frame, whatever d
-- is, if it is not 0: the frame is flagged, and its plane and the framebuffer stay as they were.
pub vcam_start-drops_first :
    (env : VcamEnv) (h h' : FbHeap) (size p : ℕ) (priv : VcamPriv) (fb : VcamFb) (dst : Plane)
    (desc : FrameDesc)
    → vcam_start env h (some size) ≡ ok (priv, h')
    → 0 < env.vcam_drop_every
    → (stamped : FrameDesc) × (vcam_produce h' p fb priv dst desc
        ≡ some (
          h',
          record {
            status = done;
            priv = some (record priv { frames_produced = 1 });
            plane = some dst;
            desc = stamped;
          },
        ))
      × (has_bit stamped.flags frame_flag_dropped ≡ true)
unfolding vcam_produce
vcam_start-drops_first env h h' size p priv fb dst desc started pos =
    let fresh = AllOk-ok (Fresh env) (vcam_start-Fresh env h size) started in
    let drops : (ltb 0 priv.drop_every_n && priv.frames_produced % priv.drop_every_n == 0) ≡ true =
      ground (arith, fresh) in
    let one : u32 (priv.frames_produced + 1) ≡ 1 = omega (arith, fresh.0) in
    let stamp = u64 (priv.base_ts_ns + u64 (priv.frames_produced * priv.frame_interval_ns)) in
    (
      record desc { source_timestamp_ns = stamp; flags = set_bit desc.flags frame_flag_dropped },
      rw (drops, one) refl,
      set_bit-has_bit desc.flags,
    )
