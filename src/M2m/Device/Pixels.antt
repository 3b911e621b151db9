-- ===== src/M2m/Device/Pixels.antt =====
-- The frame that `vpipe_device_run` leaves in a destination buffer.
use vpipe.Base.{
  ℕ, zero, suc, ◌+◌, ◌*◌, ◌≤◌, ◌<◌, ◌≡◌, refl, sym, subst, ap₂, [], ◌∷◌, ok, err, u32, ◌&&◌, Option,
  some, arith, ltb, ◌==◌, u64, if◌then◌else◌, Bytes, Result, done,
}
use vpipe.Uapi.{algo_threshold}
use vpipe.Cv.{Roi, JobDesc, CvResult, clamp_roi, cv_process, threshold_pixel}
use vpipe.Cv.Frame.{FrameFits}
use vpipe.Cv.Process.{covers, cv_process-threshold-at, cv_process-others-at}
use vpipe.Backend.Vcam.{FbHeap, Plane, own}
use vpipe.M2m.{Ctx}
use vpipe.M2m.Formats.{Formatted, job_of_ctx, Formatted-FrameFits}
use vpipe.M2m.Device.{
  Buffer, buf_ok, buf_done, src_buf_remove, dst_buf_remove, job_finish, RunEnv, Ran, captured,
  run_result, run_planes, device_run,
}

-- The pixel at (x, y) of the frame that is made of a source.
abbrev pixel_of : JobDesc → ℕ → ℕ → Roi → ℕ → ℕ → ℕ
pixel_of job algo threshold roi y x =
    if algo == algo_threshold && covers (clamp_roi job (some roi)) x y
    then threshold_pixel (job.src (y * job.src_stride + x)) threshold
    else job.src (y * job.src_stride + x)

inside :
    {y h x w a d : ℕ} (b : ℕ) → y < h → x < w → a ≡ (if ltb y h && ltb x w then d else b) → a ≡ d
inside b hy hx e = ground arith

cv_process-pixel :
    (job : JobDesc) (fits : FrameFits job) (algo threshold : ℕ) (roi : Roi) (dst : Bytes) (y x : ℕ)
    → algo ≤ algo_threshold
    → y < job.height
    → x < job.width
    → let r = cv_process job algo threshold (some roi) dst in
      (r.0 ≡ done) × (r.2 (y * job.dst_stride + x) ≡ pixel_of job algo threshold roi y x)
cv_process-pixel job fits zero threshold roi dst y x known hy hx =
    let c =
      cv_process-others-at job fits 0 threshold (some roi) dst y x
        (omega (arith, fits.width_le_dst)) (λ e. omega (arith, e)) in
    (c.0, inside (dst (y * job.dst_stride + x)) hy hx c.1)
cv_process-pixel job fits (suc zero) threshold roi dst y x known hy hx =
    let c =
      cv_process-threshold-at job fits threshold (some roi) dst y x
        (omega (arith, fits.width_le_dst)) in
    (c.0, inside (dst (y * job.dst_stride + x)) hy hx c.1)
cv_process-pixel job fits (suc (suc n)) threshold roi dst y x known hy hx = absurd (omega arith)

-- What a run leaves that succeeds: both buffers go back as done, the source as it was, and the destination
-- with bytes of which the one at `offset` is `v`.
abbrev pub Shown : RunEnv → FbHeap → ℕ → Ctx → Buffer → Buffer → ℕ → ℕ → Option Ran → Type 0
Shown env h n ctx sb db offset v ran =
    (db' : Buffer) × (m : Bytes) × (ran
      ≡ some (record {
        heap = h;
        sequence = u64 (n + 1);
        calls =
            src_buf_remove
            ∷ dst_buf_remove
            ∷ buf_done sb buf_ok
            ∷ buf_done db' buf_ok
            ∷ job_finish
            ∷ [];
      }))
    × (db'.plane ≡ some (own m))
    × (m offset ≡ v)
    × (db'.index ≡ db.index)
    × (db'.payload ≡ ctx.cap_q.sizeimage)
    × (db'.timestamp ≡ env.now)
    × (db'.sequence ≡ u32 (u64 (n + 1)))

result-Shown :
    (env : RunEnv) (n : ℕ) (ctx : Ctx) (sb db : Buffer) (h : FbHeap) (offset v : ℕ)
    (status : Result (Unit {0})) (result : CvResult) (m : Bytes)
    → status ≡ done
    → m offset ≡ v
    → Shown env h n ctx sb db offset v
        (some (run_result env n ctx sb db (h, own m) (status, result, m)))
result-Shown env n ctx sb db h offset v (ok _) result m e pixel = (
  captured env ctx sb db result m (u64 (n + 1)) (own m),
  m,
  refl,
  refl,
  pixel,
  refl,
  refl,
  refl,
  refl,
)
result-Shown env n ctx sb db h offset v (err x) result m e pixel = absurd (cc)

-- In a context that holds one format of the device, a run on buffers with planes of their own and an
-- algorithm of the device succeeds: it gives both buffers back as done, and the bytes in the plane of
-- the destination have, at each pixel, that of the source, or 255 or 0 by the threshold of the source
-- buffer where the algorithm is the threshold and the clamped region of that buffer covers the pixel.
-- The destination has the size of its format, the time, and the next sequence of the device.
pub device_run-pixel :
    (env : RunEnv) (h : FbHeap) (n : ℕ) (ctx : Ctx) (sb db : Buffer) (src dst : Bytes) (y x : ℕ)
    → Formatted ctx
    → sb.plane ≡ some (own src)
    → db.plane ≡ some (own dst)
    → sb.algo_id ≤ algo_threshold
    → y < ctx.out_q.height
    → x < ctx.out_q.width
    → Shown env h n ctx sb db
        (y * ctx.cap_q.bytesperline + x)
        (pixel_of (job_of_ctx ctx src) sb.algo_id sb.threshold sb.roi y x)
        (device_run env h n ctx (some sb) (some db))
unfolding device_run
device_run-pixel env h n ctx sb db src dst y x v hs hd known hy hx =
    let r = cv_process (job_of_ctx ctx src) sb.algo_id sb.threshold (some sb.roi) dst in
    let p =
      cv_process-pixel (job_of_ctx ctx src) (Formatted-FrameFits ctx src v) sb.algo_id sb.threshold
        sb.roi dst y x known hy hx in
    let planes : Option Plane → Option Plane → Option Ran =
      λ a b. run_planes env h n ctx sb db a b in
    subst
      (Shown env h n ctx sb db (y * ctx.cap_q.bytesperline + x)
        (pixel_of (job_of_ctx ctx src) sb.algo_id sb.threshold sb.roi y x))
      (sym (ap₂ planes hs hd))
      (result-Shown env n ctx sb db h (y * ctx.cap_q.bytesperline + x) _ r.0 r.1 r.2 p.0 p.1)
