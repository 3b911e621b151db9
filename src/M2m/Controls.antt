-- ===== src/M2m/Controls.antt =====
-- The controls of a context: what the fields that they set hold after any calls.
use vpipe.Base.{
  ℕ, ◌≤◌, ◌<◌, ◌^◌, ◌≡◌, ◌↔◌, ◌&&◌, ◌||◌, Bool, true, false, arith, List, [], ◌∷◌, leb, ◌==◌, ok, ℤ,
  pos, ◌≤ℤ◌, to_u32, AllOk, AllOk-if, AllOk-ok, Bytes, some,
}
use vpipe.Uapi.{
  algo_threshold, cid_src_sequence, cid_algo, cid_roi_left, cid_roi_top, cid_roi_width,
  cid_roi_height, cid_threshold,
}
use vpipe.Cv.{Roi, clamp_roi}
use vpipe.Cv.Region.{Contains, clamp_roi-inter}
use vpipe.Source.{Source}
use vpipe.M2m.{
  PixFormat, Ctx, QueueType, output, capture, CtrlConfig, controls, s_ctrl, s_fmt, fresh_ctx,
}
use vpipe.M2m.Formats.{
  Formatted, fresh_ctx-Formatted, s_fmt-Formatted, job_of_ctx, Formatted-FrameFits,
}

-- The framework passes a value to `vpipe_s_ctrl` only if a control of that identifier allows it.
abbrev allows : List CtrlConfig → ℕ → ℕ → Bool
allows [] id v = false
allows (c ∷ cs) id v = ((c.id == id) && (leb c.min v && leb v c.max)) || allows cs id v

-- The controls of the context lie in the ranges that it registered.
abbrev InRange : Ctx → Type 0
InRange ctx =
    (ctx.src_sequence < 2 ^ 31)
    × (ctx.algo_id ≤ algo_threshold)
    × (ctx.threshold ≤ 255)
    × (pos 0 ≤ℤ ctx.roi.left)
    × (ctx.roi.left ≤ℤ pos 4096)
    × (pos 0 ≤ℤ ctx.roi.top)
    × (ctx.roi.top ≤ℤ pos 4096)
    × (pos 0 ≤ℤ ctx.roi.width)
    × (ctx.roi.width ≤ℤ pos 4096)
    × (pos 0 ≤ℤ ctx.roi.height)
    × (ctx.roi.height ≤ℤ pos 4096)

-- What can change a context: the ioctls and a call of its source. Those that fail leave it.
pub data Step (ctx : Ctx) : Ctx → Type 0 where
  set_format :
      {ctx' : Ctx} (type : QueueType) (busy : Bool) (f g : PixFormat)
      → s_fmt ctx type busy f ≡ ok (ctx', g)
      → Step ctx ctx'
  set_control :
      {ctx' : Ctx} (id v : ℕ)
      → allows controls id v ≡ true
      → s_ctrl ctx id (pos v) ≡ ok ctx'
      → Step ctx ctx'
  new_source : (src : Source) → Step ctx (record ctx { src = src })

-- The contexts that can come of opening the device.
pub data Reach : Ctx → Type 0 where
  opened : (src : Source) → Reach (fresh_ctx src)
  changed : {ctx ctx' : Ctx} → Reach ctx → Step ctx ctx' → Reach ctx'

s_ctrl-AllOk :
    (ctx : Ctx) (id v : ℕ)
    → InRange ctx
    → allows controls id v ≡ true
    → AllOk InRange (s_ctrl ctx id (pos v))
unfolding s_ctrl
s_ctrl-AllOk ctx id v i h = ground arith

fresh_ctx-InRange : (src : Source) → InRange (fresh_ctx src)
unfolding fresh_ctx
fresh_ctx-InRange src = ground arith

-- What every context holds.
pub record CtxValid (ctx : Ctx) : Type 0 where
  pub formatted : Formatted ctx
  pub in_range : InRange ctx

s_fmt-InRange :
    (ctx : Ctx) (type : QueueType) (busy : Bool) (f : PixFormat)
    → InRange ctx
    → AllOk (λ (t : Ctx × PixFormat). InRange t.0) (s_fmt ctx type busy f)
unfolding s_fmt
s_fmt-InRange ctx type true f i = tt
s_fmt-InRange ctx output false f i = i
s_fmt-InRange ctx capture false f i = i

-- A control changes nothing but the four fields of the controls.
pub s_ctrl-controls {ℓ} :
    (P : Ctx → Type ℓ) (ctx : Ctx) (id : ℕ) (v : ℤ)
    → ((s a t : ℕ) (r : Roi)
        → P (record ctx { src_sequence = s; algo_id = a; threshold = t; roi = r }))
    → AllOk P (s_ctrl ctx id v)
unfolding s_ctrl
s_ctrl-controls P ctx id v all =
    AllOk-if P _ _ (id == cid_src_sequence) (λ e. all (to_u32 v) ctx.algo_id ctx.threshold ctx.roi)
      (λ e.
        AllOk-if P _ _ (id == cid_algo) (λ e. all ctx.src_sequence (to_u32 v) ctx.threshold ctx.roi)
          (λ e.
            AllOk-if P _ _ (id == cid_roi_left)
              (λ e. all ctx.src_sequence ctx.algo_id ctx.threshold (record ctx.roi { left = v }))
              (λ e.
                AllOk-if P _ _ (id == cid_roi_top)
                  (λ e. all ctx.src_sequence ctx.algo_id ctx.threshold (record ctx.roi { top = v }))
                  (λ e.
                    AllOk-if P _ _ (id == cid_roi_width)
                      (λ e.
                        all ctx.src_sequence ctx.algo_id ctx.threshold
                          (record ctx.roi { width = v }))
                      (λ e.
                        AllOk-if P _ _ (id == cid_roi_height)
                          (λ e.
                            all ctx.src_sequence ctx.algo_id ctx.threshold
                              (record ctx.roi { height = v }))
                          (λ e.
                            AllOk-if P _ _ (id == cid_threshold)
                              (λ e. all ctx.src_sequence ctx.algo_id (to_u32 v) ctx.roi)
                              (λ e. tt)))))))

s_ctrl-Formatted : (ctx : Ctx) (id : ℕ) (v : ℤ) → Formatted ctx → AllOk Formatted (s_ctrl ctx id v)
s_ctrl-Formatted ctx id v f =
    s_ctrl-controls Formatted ctx id v
      (λ s a t r. record { is_format = f.is_format; mirrored = f.mirrored })

Step-CtxValid : {ctx ctx' : Ctx} → Step ctx ctx' → CtxValid ctx → CtxValid ctx'
Step-CtxValid {ctx} {ctx'} (set_format type busy f g e) v = record {
  formatted = (s_fmt-Formatted ctx ctx' type busy f g output e).0;
  in_range =
      AllOk-ok (λ (t : Ctx × PixFormat). InRange t.0) (s_fmt-InRange ctx type busy f v.in_range) e;
}
Step-CtxValid {ctx} (set_control id val h e) v = record {
  formatted = AllOk-ok Formatted (s_ctrl-Formatted ctx id (pos val) v.formatted) e;
  in_range = AllOk-ok InRange (s_ctrl-AllOk ctx id val v.in_range h) e;
}
Step-CtxValid (new_source src) v = record {
  formatted = record { is_format = v.formatted.is_format; mirrored = v.formatted.mirrored };
  in_range = v.in_range;
}

-- Whatever formats and controls an open context is given, and whichever backend it is switched to, both
-- its queues hold one format of the device and its controls lie in the ranges that they registered.
pub Reach-CtxValid : {ctx : Ctx} → Reach ctx → CtxValid ctx
Reach-CtxValid (opened src) = record {
  formatted = fresh_ctx-Formatted src;
  in_range = fresh_ctx-InRange src;
}
Reach-CtxValid (changed r s) = Step-CtxValid s (Reach-CtxValid r)

-- In a context that can come of opening the device, a region of interest that is not empty selects
-- exactly its pixels that lie in the frame.
pub Reach-selects :
    {ctx : Ctx} (src : Bytes) (x y : ℕ)
    → Reach ctx
    → pos 1 ≤ℤ ctx.roi.width
    → pos 1 ≤ℤ ctx.roi.height
    → Contains (clamp_roi (job_of_ctx ctx src) (some ctx.roi)) x y
      ↔ (Contains ctx.roi x y × (x < ctx.out_q.width) × (y < ctx.out_q.height))
Reach-selects {ctx} src x y r w h =
    let v = Reach-CtxValid r in
    let i = v.in_range in
    clamp_roi-inter (job_of_ctx ctx src) ctx.roi (Formatted-FrameFits ctx src v.formatted).sizes
      (record { left_nonneg = i.3; top_nonneg = i.5; width_pos = w; height_pos = h }) x y
