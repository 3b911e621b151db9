-- ===== src/M2m/Device/Timeline.antt =====
-- The metadata of a frame, from QBUF of its source over the run to DQBUF of its destination.
use vpipe.Base.{ℕ, ◌+◌, ◌≡◌, Option, none, some, List, [], ◌∷◌, u64, has_bit, Bytes, err, einval}
use vpipe.Uapi.{MetaEntry, meta_f_dropped}
use vpipe.Cv.{CvResult}
use vpipe.Meta.{MetaDev, publish}
use vpipe.Backend.{FrameDesc, frame_flag_dropped}
use vpipe.Backend.Vcam.{FbHeap, Plane}
use vpipe.Source.{Source, SourceOps, SourcePriv, cleared, source_next_frame}
use vpipe.M2m.{Ctx, capture}
use vpipe.M2m.Device.{
  Buffer, M2mCall, buf_ok, buf_done, src_buf_remove, dst_buf_remove, job_finish, RunEnv, Ran,
  captured, buf_finish,
}

-- The metadata of a frame that was queued at `qbuf` in the context, processed at `processed` and dequeued at
-- `dqbuf`; `desc` is the descriptor of its source.
pub record Traced (ctx : Ctx) (qbuf processed dqbuf seq : ℕ) (desc : FrameDesc) (e : MetaEntry)
    : Type 0 where
  pub sequence : e.seq ≡ seq
  pub source_sequence : e.src_v4l2_sequence ≡ ctx.src_sequence
  pub algo : e.algo_id ≡ ctx.algo_id
  pub backend : e.source_backend ≡ desc.backend_id
  pub source_time : e.source_timestamp_ns ≡ desc.source_timestamp_ns
  pub queue_time : e.qbuf_timestamp_ns ≡ qbuf
  pub capture_time : e.capture_done_ns ≡ processed
  pub dequeue_time : e.dqbuf_timestamp_ns ≡ dqbuf
  pub dropped : has_bit e.flags meta_f_dropped ≡ has_bit desc.flags frame_flag_dropped

-- What a buffer keeps of the context that it is queued in.
abbrev Snapshot : Ctx → ℕ → Buffer → Type 0
Snapshot ctx now sb =
    (sb.src_sequence ≡ ctx.src_sequence) × (sb.algo_id ≡ ctx.algo_id) × (sb.qbuf_ns ≡ now)

abbrev AllQueued : (Buffer → Type 0) → Option (FbHeap × Ctx × Buffer) → Type 0
AllQueued P none = Unit
AllQueued P (some (h, ctx, sb)) = P sb

-- The calls of a job that ends well.
abbrev both_done : Buffer → Buffer → List M2mCall
both_done sb dst =
    src_buf_remove ∷ dst_buf_remove ∷ buf_done sb buf_ok ∷ buf_done dst buf_ok ∷ job_finish ∷ []

-- The destination of a job that has ended well is one that has been captured.
abbrev Captured : RunEnv → ℕ → Ctx → Buffer → Buffer → Buffer → Ran → Type 0
Captured env n ctx sb db dst ran =
    ran.calls ≡ both_done sb dst
    → (result : CvResult) × (m : Bytes) × (plane : Plane) × (captured env ctx sb db result m
          (u64 (n + 1)) plane
        ≡ dst)

abbrev AllRan : (Ran → Type 0) → Option Ran → Type 0
AllRan P none = Unit
AllRan P (some ran) = P ran

-- What DQBUF of a destination publishes: one entry, which traces the frame; and finishing the buffer again
-- publishes nothing.
abbrev pub Published : ℕ → ℕ → MetaDev → Buffer → (MetaEntry → Type 0) → Type 0
Published dqbuf again dev dst P =
    let first = buf_finish dqbuf dev capture dst in
    ((e : MetaEntry) × (first.1 ≡ publish dev e) × P e)
    × ((buf_finish again first.1 capture first.0).1 ≡ first.1)

-- What `vpipe_source_next_frame` gives for a source with the operations and the private state.
abbrev Refused : ℕ → FbHeap → Source → FrameDesc → SourceOps → SourcePriv → Option Plane → Type 0
Refused later h src desc ops priv plane =
    let s : Source = record src { ops = ops; priv = priv } in
    source_next_frame later h s plane desc
    ≡ some (h, record { status = err einval; priv = s; plane = plane; desc = cleared desc })
