-- ===== src/M2m/Device/Run.antt =====
-- What `vpipe_device_run` does with the buffers that it is given.
use vpipe.Base.{
  ℕ, ◌+◌, ◌≡◌, refl, ap, subst, Option, none, some, List, [], ◌∷◌, u64, Bytes, Result, ok, err,
  AllOk-ok, ℤ,
}
use vpipe.Cv.{Roi, CvResult, cv_process}
use vpipe.Backend.Vcam.{FbHeap, Plane}
use vpipe.Source.Backends.{plane_bytes, set_plane}
use vpipe.M2m.{Ctx, QueueType, output, capture, s_ctrl}
use vpipe.M2m.Controls.{s_ctrl-controls}
use vpipe.M2m.Formats.{job_of_ctx}
use vpipe.M2m.Device.{
  Buffer, BufState, buf_ok, buf_error, M2mCall, buf_done, src_buf_remove, dst_buf_remove,
  job_finish, RunEnv, Ran, captured, run_result, run_job, run_planes, device_run,
  return_all_buffers,
}

-- The context with any other controls.
abbrev with_controls : Ctx → ℕ → ℕ → ℕ → Roi → Ctx
with_controls ctx s a t r = record ctx { src_sequence = s; algo_id = a; threshold = t; roi = r }

result-controls :
    (env : RunEnv) (n : ℕ) (ctx : Ctx) (s a t : ℕ) (r : Roi) (sb db : Buffer) (h : FbHeap)
    (plane : Plane) (status : Result (Unit {0})) (result : CvResult) (m : Bytes)
    → run_result env n (with_controls ctx s a t r) sb db (h, plane) (status, result, m)
      ≡ run_result env n ctx sb db (h, plane) (status, result, m)
result-controls env n ctx s a t r sb db h plane (ok _) result m = refl
result-controls env n ctx s a t r sb db h plane (err e) result m = refl

job-controls :
    (env : RunEnv) (h : FbHeap) (n : ℕ) (ctx : Ctx) (s a t : ℕ) (r : Roi) (sb db : Buffer)
    (plane : Plane) (src dst : Option Bytes)
    → run_job env h n (with_controls ctx s a t r) sb db plane src dst
      ≡ run_job env h n ctx sb db plane src dst
job-controls env h n ctx s a t r sb db plane none dst = refl
job-controls env h n ctx s a t r sb db plane (some src) none = refl
job-controls env h n ctx s a t r sb db plane (some src) (some dst) =
    let c = cv_process (job_of_ctx ctx src) sb.algo_id sb.threshold (some sb.roi) dst in
    let w = set_plane h plane c.2 in
    ap some (result-controls env n ctx s a t r sb db w.0 w.1 c.0 c.1 c.2)

planes-controls :
    (env : RunEnv) (h : FbHeap) (n : ℕ) (ctx : Ctx) (s a t : ℕ) (r : Roi) (sb db : Buffer)
    (src dst : Option Plane)
    → run_planes env h n (with_controls ctx s a t r) sb db src dst
      ≡ run_planes env h n ctx sb db src dst
planes-controls env h n ctx s a t r sb db none dst = refl
planes-controls env h n ctx s a t r sb db (some src) none = refl
planes-controls env h n ctx s a t r sb db (some src) (some dst) =
    job-controls env h n ctx s a t r sb db dst (plane_bytes h src) (plane_bytes h dst)

device_run-controls :
    (env : RunEnv) (h : FbHeap) (n : ℕ) (ctx : Ctx) (s a t : ℕ) (r : Roi)
    (src_buf dst_buf : Option Buffer)
    → device_run env h n (with_controls ctx s a t r) src_buf dst_buf
      ≡ device_run env h n ctx src_buf dst_buf
unfolding device_run
device_run-controls env h n ctx s a t r none dst_buf = refl
device_run-controls env h n ctx s a t r (some sb) none = refl
device_run-controls env h n ctx s a t r (some sb) (some db) =
    planes-controls env h n ctx s a t r sb db sb.plane db.plane

-- A control that is set after a buffer has been queued does not reach the run of that buffer: the run
-- gives the same in the context before and after any call of `vpipe_s_ctrl`.
pub device_run-s_ctrl :
    (env : RunEnv) (h : FbHeap) (n : ℕ) (ctx ctx' : Ctx) (id : ℕ) (v : ℤ)
    (src_buf dst_buf : Option Buffer)
    → s_ctrl ctx id v ≡ ok ctx'
    → device_run env h n ctx' src_buf dst_buf ≡ device_run env h n ctx src_buf dst_buf
device_run-s_ctrl env h n ctx ctx' id v src_buf dst_buf e =
    AllOk-ok
      (λ (c : Ctx). device_run env h n c src_buf dst_buf ≡ device_run env h n ctx src_buf dst_buf)
      (s_ctrl-controls
        (λ (c : Ctx). device_run env h n c src_buf dst_buf ≡ device_run env h n ctx src_buf dst_buf)
        ctx id v (λ s a t r. device_run-controls env h n ctx s a t r src_buf dst_buf))
      e

-- The sequence of the device after a job that ends in the state.
abbrev advance : BufState → ℕ → ℕ
advance buf_ok n = u64 (n + 1)
advance buf_error n = n

-- The sequence of the metadata that waits in the destination after a job that ends in the state.
abbrev pending : BufState → ℕ → Buffer → ℕ
pending buf_ok n db = u64 (n + 1)
pending buf_error n db = db.meta_pending.seq

-- How a job ends: both buffers are removed from their queues and go back, the source as it was, each
-- once and in one state, and the job is finished.
abbrev pub Ended : ℕ → Buffer → Buffer → Ran → Type 0
Ended n sb db ran =
    (s : BufState) × (db' : Buffer) × (ran.calls
      ≡ src_buf_remove ∷ dst_buf_remove ∷ buf_done sb s ∷ buf_done db' s ∷ job_finish ∷ [])
    × (ran.sequence ≡ advance s n)
    × (db'.index ≡ db.index)
    × (db'.meta_pending.seq ≡ pending s n db)

abbrev AllSome {ℓ} : {A : Type ℓ} → (A → Type 0) → Option A → Type 0
AllSome P none = Unit
AllSome P (some a) = P a

result-Ended :
    (env : RunEnv) (n : ℕ) (ctx : Ctx) (sb db : Buffer) (h : FbHeap) (plane : Plane)
    (status : Result (Unit {0})) (result : CvResult) (m : Bytes)
    → Ended n sb db (run_result env n ctx sb db (h, plane) (status, result, m))
result-Ended env n ctx sb db h plane (ok _) result m =
    (buf_ok, captured env ctx sb db result m (u64 (n + 1)) plane, refl, refl, refl, refl)
result-Ended env n ctx sb db h plane (err e) result m =
    (buf_error, record db { plane = some plane }, refl, refl, refl, refl)

job-Ended :
    (env : RunEnv) (h : FbHeap) (n : ℕ) (ctx : Ctx) (sb db : Buffer) (plane : Plane)
    (src dst : Option Bytes)
    → AllSome (Ended n sb db) (run_job env h n ctx sb db plane src dst)
job-Ended env h n ctx sb db plane none dst = tt
job-Ended env h n ctx sb db plane (some src) none = tt
job-Ended env h n ctx sb db plane (some src) (some dst) =
    let c = cv_process (job_of_ctx ctx src) sb.algo_id sb.threshold (some sb.roi) dst in
    let w = set_plane h plane c.2 in result-Ended env n ctx sb db w.0 w.1 c.0 c.1 c.2

planes-Ended :
    (env : RunEnv) (h : FbHeap) (n : ℕ) (ctx : Ctx) (sb db : Buffer) (src dst : Option Plane)
    → AllSome (Ended n sb db) (run_planes env h n ctx sb db src dst)
planes-Ended env h n ctx sb db none dst = (buf_error, db, refl, refl, refl, refl)
planes-Ended env h n ctx sb db (some src) none = (buf_error, db, refl, refl, refl, refl)
planes-Ended env h n ctx sb db (some src) (some dst) =
    job-Ended env h n ctx sb db dst (plane_bytes h src) (plane_bytes h dst)

-- A run that has its two buffers gives both back, each exactly once, both as done or both as failed,
-- and finishes the job, whichever branch it takes; the sequence of the device goes up, and metadata
-- of that sequence waits in the destination, exactly if they are done.
pub device_run-Ended :
    (env : RunEnv) (h : FbHeap) (n : ℕ) (ctx : Ctx) (sb db : Buffer) (ran : Ran)
    → device_run env h n ctx (some sb) (some db) ≡ some ran
    → Ended n sb db ran
unfolding device_run
device_run-Ended env h n ctx sb db ran e =
    subst (AllSome (Ended n sb db)) e (planes-Ended env h n ctx sb db sb.plane db.plane)

-- The buffers that the calls give back, each with its state.
abbrev given_back : List M2mCall → List (Buffer × BufState)
given_back [] = []
given_back (buf_done b s ∷ calls) = (b, s) ∷ given_back calls
given_back (src_buf_remove ∷ calls) = given_back calls
given_back (dst_buf_remove ∷ calls) = given_back calls
given_back (vpipe.M2m.Device.buf_queue b ∷ calls) = given_back calls
given_back (job_finish ∷ calls) = given_back calls

abbrev all_error : List Buffer → List (Buffer × BufState)
all_error [] = []
all_error (b ∷ bs) = (b, buf_error) ∷ all_error bs

-- Stopping a queue gives back each of its buffers once, in order, as failed.
return_all_buffers-given_back :
    (type : QueueType) (ready : List Buffer)
    → given_back (return_all_buffers type ready) ≡ all_error ready
unfolding return_all_buffers
return_all_buffers-given_back output [] = refl
return_all_buffers-given_back capture [] = refl
return_all_buffers-given_back output (b ∷ ready) =
    ap (λ rest. (b, buf_error) ∷ rest) (return_all_buffers-given_back output ready)
return_all_buffers-given_back capture (b ∷ ready) =
    ap (λ rest. (b, buf_error) ∷ rest) (return_all_buffers-given_back capture ready)
